-- ===== src/Workflow/Pool/Moves.antt =====
-- What a pool can do, by its three kinds of move.
use mellivor_kernel.Prelude.{
  some-injective, ℕ, zero, suc, ◌≡◌, refl, subst, true, Option, none, some, List, [], ◌∷◌, arith,
  Bool-cases, Option-cases, inl, inr, ◌+◌, total, length, ltb,
}
use mellivor_kernel.Python.{Result}
use mellivor_kernel.Execution.Result.{ExecutionResult}
use mellivor_kernel.Workflow.Definition.{WorkflowStep}
use mellivor_kernel.Workflow.Pool.{
  Pool, Move, begin, end, yield, take_out, is_over, StepAction, or_else, begun, ended, collect,
  start_first, end_step, yield_step, perform, some_move, advance, drive,
}

pub total-take_out {ℓ} :
    {A : Type ℓ} (weight : A → ℕ) (i : ℕ) (xs : List A) (x : A) (ys : List A)
    → take_out i xs ≡ some (x, ys)
    → total weight xs ≡ weight x + total weight ys
unfolding take_out
total-take_out weight i [] x ys h = absurd (cc)
total-take_out weight zero (x' ∷ xs) x ys h = ground arith
total-take_out weight (suc i) (x' ∷ xs) x ys h = elim (Option-cases (take_out i xs)) [
  | inl nothing ↦ absurd (ground arith)
  | inr ((y, zs), e) ↦ ground (arith, total-take_out weight i xs y zs e)
]

length-total {ℓ} : {A : Type ℓ} (xs : List A) → length xs ≡ total (λ x. 1) xs
length-total [] = refl
length-total (x ∷ xs) = omega (arith, length-total xs)

pub length-take_out {ℓ} :
    {A : Type ℓ} (i : ℕ) (xs : List A) (x : A) (ys : List A)
    → take_out i xs ≡ some (x, ys)
    → length xs ≡ suc (length ys)
length-take_out i xs x ys h =
    omega (arith, length-total xs, length-total ys, total-take_out (λ x. 1) i xs x ys h)

module _ {E : Type 0} (act : StepAction E) (max_workers : ℕ) where
  -- A relation that the three kinds of move have.
  pub record HasMoves (Q : Pool E → Pool E → Type 0) : Type 0 where
    pub begins :
        (step : WorkflowStep) (steps : List WorkflowStep) (pool : Pool E)
        → pool.waiting ≡ step ∷ steps
        → ltb (length pool.running) max_workers ≡ true
        → Q pool (begun act max_workers step steps pool)
    pub ends :
        (i : ℕ) (step : WorkflowStep) (others : List WorkflowStep) (pool : Pool E)
        → take_out i pool.running ≡ some (step, others)
        → Q pool (ended act max_workers step others pool)
    pub yields :
        (i : ℕ) (step : WorkflowStep) (outcome : Result ExecutionResult)
        (others : List (WorkflowStep × Result ExecutionResult)) (pool : Pool E)
        → take_out i pool.finished ≡ some ((step, outcome), others)
        → Q pool (collect act max_workers step outcome (record pool { finished = others }))

  module _ (Q : Pool E → Pool E → Type 0) (h : HasMoves Q) where
    start_first-Q :
        (steps : List WorkflowStep) (pool pool' : Pool E)
        → pool.waiting ≡ steps
        → start_first act max_workers steps pool ≡ some pool'
        → Q pool pool'
    unfolding start_first
    start_first-Q [] pool pool' e = λ r. absurd (cc)
    start_first-Q (step ∷ steps) pool pool' e =
        elim (Bool-cases (ltb (length pool.running) max_workers)) [
          | inl free ↦
              rw free λ r. subst (Q pool) (some-injective r) (h.begins step steps pool e free)
          | inr full ↦ rw full λ r. absurd (cc)
        ]

    end_step-Q :
        (i : ℕ) (taken : Option (WorkflowStep × List WorkflowStep)) (pool pool' : Pool E)
        → take_out i pool.running ≡ taken
        → end_step act max_workers taken pool ≡ some pool'
        → Q pool pool'
    unfolding end_step
    end_step-Q i none pool pool' e r = absurd (cc)
    end_step-Q i (some (step, others)) pool pool' e r =
        subst (Q pool) (some-injective r) (h.ends i step others pool e)

    yield_step-Q :
        (i : ℕ)
        (taken : Option
          ((WorkflowStep × Result ExecutionResult) × List (WorkflowStep × Result ExecutionResult)))
        (pool pool' : Pool E)
        → take_out i pool.finished ≡ taken
        → yield_step act max_workers taken pool ≡ some pool'
        → Q pool pool'
    unfolding yield_step
    yield_step-Q i none pool pool' e r = absurd (cc)
    yield_step-Q i (some ((step, outcome), others)) pool pool' e r =
        subst (Q pool) (some-injective r) (h.yields i step outcome others pool e)

    -- Every move of a pool has the relation.
    pub perform-Q :
        (move : Move) (pool pool' : Pool E)
        → perform act max_workers move pool ≡ some pool'
        → Q pool pool'
    unfolding perform
    perform-Q begin pool pool' r = start_first-Q pool.waiting pool pool' refl r
    perform-Q (end i) pool pool' r = end_step-Q i _ pool pool' refl r
    perform-Q (yield i) pool pool' r = yield_step-Q i _ pool pool' refl r

  or_else-Q :
      (Q : Pool E → Pool E → Type 0) (pool default : Pool E) (o : Option (Pool E))
      → ((next : Pool E) → o ≡ some next → Q pool next)
      → (o ≡ none → Q pool default)
      → Q pool (or_else o default)
  or_else-Q Q pool default none done refused = refused refl
  or_else-Q Q pool default (some next) done refused = done next refl

  -- One round of a schedule is a move, or nothing where the pool admits none.
  pub advance-Q :
      (Q : Pool E → Pool E → Type 0)
      → HasMoves Q
      → (move : Move) (pool : Pool E)
      → (perform act max_workers (some_move act max_workers pool) pool ≡ none → Q pool pool)
      → Q pool (advance act max_workers move pool)
  unfolding advance
  advance-Q Q h move pool idle =
      or_else-Q Q pool _ (perform act max_workers move pool) (perform-Q Q h move pool) (λ refused.
        or_else-Q Q pool pool (perform act max_workers (some_move act max_workers pool) pool)
          (perform-Q Q h (some_move act max_workers pool) pool) idle)

  -- What all moves keep is kept to the end.
  pub drive-keeps :
      (P : Pool E → Type 0)
      → HasMoves (λ pool pool'. P pool → P pool')
      → (schedule : Pool E → Move) (fuel : ℕ) (pool : Pool E) → P pool
      → P (drive act max_workers schedule fuel pool)
  unfolding drive
  drive-keeps P h schedule zero pool p = p
  drive-keeps P h schedule (suc fuel) pool p = elim (Bool-cases (is_over pool)) [
    | inl over ↦ rw over p
    | inr more ↦ rw more (
        drive-keeps P h schedule fuel _
          (advance-Q (λ pool pool'. P pool → P pool') h (schedule pool) pool (λ e p'. p') p))
  ]
