-- ===== src/Workflow/Pool/Ends.antt =====
-- The fuel of a parallel group is enough, in every schedule.
use mellivor_kernel.Prelude.{
  ℕ, zero, suc, ◌+◌, ◌*◌, ◌≤◌, ◌<◌, ◌≡◌, ◌≢◌, true, false, none, List, [], ◌∷◌, arith, Bool-cases,
  inl, inr, List-cases, length, length-append,
}
use mellivor_kernel.Python.{Result, returned, raised}
use mellivor_kernel.World.{World}
use mellivor_kernel.Execution.Result.{ExecutionResult}
use mellivor_kernel.Workflow.Definition.{WorkflowStep}
use mellivor_kernel.Workflow.Pool.{
  Pool, Move, begin, take_out, is_over, StepAction, collect, start_first, end_step, yield_step,
  perform, some_move, advance, drive, submitted,
}
use mellivor_kernel.Workflow.Pool.Moves.{length-take_out, HasMoves, advance-Q}

-- The moves that are left at most.
abbrev moves_left : {E : Type 0} → Pool E → ℕ
moves_left pool = 3 * length pool.waiting + 2 * length pool.running + length pool.finished

module _ {E : Type 0} (act : StepAction E) (max_workers : ℕ) where
  length-collect :
      (step : WorkflowStep) (outcome : Result ExecutionResult) (pool : Pool E)
      → (length (collect act max_workers step outcome pool).waiting ≤ length pool.waiting)
        × ((collect act max_workers step outcome pool).running ≡ pool.running)
        × ((collect act max_workers step outcome pool).finished ≡ pool.finished)
  unfolding collect
  length-collect step (raised e) pool = ground arith
  length-collect step (returned r) pool = ground arith

  moves_left-decreases : HasMoves act max_workers (λ pool pool'. moves_left pool' < moves_left pool)
  moves_left-decreases = record {
    begins = λ step steps pool e free. ground (arith, length-append pool.running (step ∷ []));
    ends = λ i step others pool e. ground (
      arith,
      length-append pool.finished ((step, (act step pool.world).0) ∷ []),
      length-take_out i pool.running step others e,
    );
    yields = λ i step outcome others pool e. ground (
      arith,
      length-collect step outcome (record pool { finished = others }),
      length-take_out i pool.finished (step, outcome) others e,
    );
  }

module _ {E : Type 0} (act : StepAction E) (workers : ℕ) where
  some_move-admitted :
      (pool : Pool E)
      → is_over pool ≡ false
      → perform act (suc workers) (some_move act (suc workers) pool) pool ≢ none
  unfolding perform start_first end_step yield_step take_out
  some_move-admitted pool h = elim (List-cases pool.finished) [
    | inr (f, fs, e) ↦ ground arith
    | inl e ↦ elim (List-cases pool.running) [
      | inr (r, rs, e') ↦ ground arith
      | inl e' ↦ elim (List-cases pool.waiting) [
        | inr (s, ss, e'') ↦ ground arith
        | inl e'' ↦ ground arith
      ]
    ]
  ]

  -- A pool that is not over has fewer moves left behind each round of its schedule.
  advance-decreases :
      (move : Move) (pool : Pool E)
      → is_over pool ≡ false
      → moves_left (advance act (suc workers) move pool) < moves_left pool
  advance-decreases move pool more =
      advance-Q act (suc workers) (λ p p'. moves_left p' < moves_left p)
        (moves_left-decreases act (suc workers)) move pool
        (λ refused. absurd (some_move-admitted pool more refused))

  drive_over :
      (schedule : Pool E → Move) (fuel : ℕ) (pool : Pool E)
      → moves_left pool ≤ fuel
      → is_over (drive act (suc workers) schedule fuel pool) ≡ true
  unfolding drive
  drive_over schedule zero pool h = elim (Bool-cases (is_over pool)) [
    | inl over ↦ over
    | inr more ↦ absurd (omega (arith, advance-decreases begin pool more))
  ]
  drive_over schedule (suc fuel) pool h = elim (Bool-cases (is_over pool)) [
    | inl over ↦ rw over over
    | inr more ↦
        rw more
          (drive_over schedule fuel _ (omega (arith, advance-decreases (schedule pool) pool more)))
  ]

  -- With at least one worker, a parallel group is over behind three moves for each of its steps,
  -- whatever its schedule.
  pub drive-submitted_over :
      (schedule : Pool E → Move) (group : List WorkflowStep) (w : World E)
      → is_over (drive act (suc workers) schedule (3 * length group) (submitted group w)) ≡ true
  drive-submitted_over schedule group w =
      drive_over schedule (3 * length group) (submitted group w) (omega arith)
