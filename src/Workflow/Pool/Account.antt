-- ===== src/Workflow/Pool/Account.antt =====
-- Where the steps of a parallel group are: each one in exactly one place at every moment.
use mellivor_kernel.Prelude.{
  ℕ, ◌+◌, ◌≤◌, String, ◌≡◌, List, [], ◌∷◌, arith, Dict, get, has, get-put, ◌==◌, total,
  total-append, if◌then◌else◌,
}
use mellivor_kernel.Python.{Result, returned, raised}
use mellivor_kernel.World.{World}
use mellivor_kernel.Execution.Result.{ExecutionResult}
use mellivor_kernel.Workflow.Definition.{WorkflowStep}
use mellivor_kernel.Workflow.Pool.{Pool, Move, StepAction, collect, drive, submitted}
use mellivor_kernel.Workflow.Pool.Moves.{total-take_out, HasMoves, drive-keeps}

-- One for a step of this name.
abbrev pub named : String → WorkflowStep → ℕ
named n step = if step.name == n then 1 else 0

abbrev pub ended_named : String → WorkflowStep × Result ExecutionResult → ℕ
ended_named n f = named n f.0

abbrev pub present {ℓ} : {V : Type ℓ} → String → Dict V → ℕ
present n d = if has n d then 1 else 0

-- The places of the steps of a name.
abbrev pub account : {E : Type 0} → String → Pool E → ℕ
account n pool =
    total (named n) pool.waiting
    + total (named n) pool.running
    + total (ended_named n) pool.finished
    + total (named n) pool.cancelled
    + present n pool.completed
    + present n pool.raised_by

module _ {E : Type 0} (act : StepAction E) (max_workers : ℕ) (n : String) (count : ℕ)
    (few : count ≤ 1) where
  abbrev IsAccounted : Pool E → Type 0
  IsAccounted pool = account n pool ≡ count

  collect-account :
      (step : WorkflowStep) (outcome : Result ExecutionResult) (pool : Pool E)
      → named n step + account n pool ≡ count
      → account n (collect act max_workers step outcome pool) ≡ count
  unfolding collect
  collect-account step (raised e) pool h = ground (arith, get-put step.name n e pool.raised_by)
  collect-account step (returned r) pool h = ground (
    arith,
    get-put step.name n r pool.completed,
    total-append (named n) pool.cancelled pool.waiting,
  )

  pub keeps_account : HasMoves act max_workers (λ pool pool'. IsAccounted pool → IsAccounted pool')
  keeps_account = record {
    begins =
        λ step steps pool e free h. ground (arith, total-append (named n) pool.running (step ∷ []));
    ends = λ i step others pool e h. ground (
      arith,
      total-append (ended_named n) pool.finished ((step, (act step pool.world).0) ∷ []),
      total-take_out (named n) i pool.running step others e,
    );
    yields = λ i step outcome others pool e h.
        collect-account step outcome (record pool { finished = others })
          (ground (arith, total-take_out (ended_named n) i pool.finished (step, outcome) others e));
  }

pub account-submitted :
    {E : Type 0} (group : List WorkflowStep) (w : World E) (n : String)
    → account n (submitted group w) ≡ total (named n) group
unfolding get
account-submitted group w n = omega arith

-- At every moment of a parallel group whose names are unique, each of its steps is in exactly one
-- place: waiting, running, finished, cancelled, or with its result or its exception collected.
pub drive-account :
    {E : Type 0} (act : StepAction E) (max_workers : ℕ) (schedule : Pool E → Move) (moves : ℕ)
    (group : List WorkflowStep) (w : World E) (n : String)
    → total (named n) group ≤ 1
    → account n (drive act max_workers schedule moves (submitted group w)) ≡ total (named n) group
drive-account act max_workers schedule moves group w n few =
    drive-keeps act max_workers (IsAccounted act max_workers n (total (named n) group) few)
      (keeps_account act max_workers n (total (named n) group) few) schedule moves
      (submitted group w) (account-submitted group w n)
