-- ===== src/Workflow/Pool/Complete.antt =====
-- What a parallel group hands back.
use mellivor_kernel.Prelude.{
  ℕ, zero, suc, ◌≤◌, ◌*◌, String, ◌≡◌, ◌≢◌, ◌⊎◌, refl, true, false, none, some, List, [], ◌∷◌,
  arith, Bool-cases, List-cases, inl, inr, Dict, get, has, keys, eq_iff, eq_refl, total, length,
  if◌then◌else◌, sym, ap, ◌∙◌, contains,
}
use mellivor_kernel.Python.{Exception, returned, returned-injective}
use mellivor_kernel.World.{World}
use mellivor_kernel.Execution.Result.{ExecutionResult}
use mellivor_kernel.Workflow.Definition.{WorkflowStep, step_names}
use mellivor_kernel.Workflow.Definition.Names.{are_unique}
use mellivor_kernel.Workflow.Units.{is_stopping, first_stopping_failure}
use mellivor_kernel.Workflow.Pool.{
  Pool, Move, is_over, StepAction, drive, submitted, raised_in_order, completed_in_order,
  group_outcome, run_parallel_group,
}
use mellivor_kernel.Workflow.Pool.Ends.{drive-submitted_over}
use mellivor_kernel.Workflow.Pool.Account.{named}
use mellivor_kernel.Workflow.Pool.Stops.{Member, IsSettling, drive-IsSettling}

none_raised :
    (steps : List WorkflowStep) (found : Dict Exception) (s : WorkflowStep)
    → raised_in_order steps found ≡ []
    → Member s steps
    → get s.name found ≡ none
unfolding raised_in_order
none_raised [] found s e m = absurd m
none_raised (t ∷ steps) found s e (inl same) = ground arith
none_raised (t ∷ steps) found s e (inr later) = ground (arith, none_raised steps found s)

keys-completed_in_order :
    (steps : List WorkflowStep) (found : Dict ExecutionResult)
    → ((s : WorkflowStep) → Member s steps → has s.name found ≡ true)
    → keys (completed_in_order steps found) ≡ step_names steps
unfolding completed_in_order keys
keys-completed_in_order [] found h = refl
keys-completed_in_order (t ∷ steps) found h =
    let later = keys-completed_in_order steps found (λ s m. h s (inr m)) in
    ground (arith, h t (inl refl), later)

get-completed_in_order :
    (n : String) (steps : List WorkflowStep) (found : Dict ExecutionResult)
    → get n (completed_in_order steps found)
      ≡ (if contains n (step_names steps) then get n found else none)
unfolding completed_in_order get
get-completed_in_order n [] found = refl
get-completed_in_order n (t ∷ steps) found =
    ground (arith, get-completed_in_order n steps found, eq_iff t.name n)

pub Member-contains :
    (s : WorkflowStep) (steps : List WorkflowStep)
    → Member s steps
    → contains s.name (step_names steps) ≡ true
Member-contains s [] m = absurd m
Member-contains s (t ∷ steps) (inl same) = ground (arith, eq_refl s.name)
Member-contains s (t ∷ steps) (inr later) = ground (arith, Member-contains s steps later)

pub stopping_found :
    (steps : List WorkflowStep) (results : Dict ExecutionResult) (s : WorkflowStep)
    (r : ExecutionResult)
    → Member s steps
    → get s.name results ≡ some r
    → is_stopping s r ≡ true
    → first_stopping_failure steps results ≢ none
unfolding first_stopping_failure
stopping_found [] results s r m found stops = absurd m
stopping_found (t ∷ steps) results s r (inl same) found stops = ground arith
stopping_found (t ∷ steps) results s r (inr later) found stops =
    ground (arith, stopping_found steps results s r later found stops)

pub total-named :
    (n : String) (steps : List WorkflowStep)
    → are_unique (step_names steps) ≡ true
    → (total (named n) steps ≤ 1)
      × (contains n (step_names steps) ≡ false → total (named n) steps ≡ 0)
total-named n [] h = (omega arith, λ e. refl)
total-named n (s ∷ steps) h =
    let (few, absent) = total-named n steps (ground arith) in
    ground (arith, few, absent, eq_iff s.name n)

total-Member :
    (s : WorkflowStep) (steps : List WorkflowStep) → Member s steps → 1 ≤ total (named s.name) steps
total-Member s [] m = absurd m
total-Member s (t ∷ steps) (inl same) = ground (arith, eq_refl s.name)
total-Member s (t ∷ steps) (inr later) = ground (arith, total-Member s steps later)

-- A group that is over: each step has its result, unless one of them raised or stopped the group.
over-has :
    {E : Type 0} (act : StepAction E) (max_workers : ℕ) (group : List WorkflowStep)
    (few : (n : String) → total (named n) group ≤ 1) (pool : Pool E) (s : WorkflowStep)
    → IsSettling act max_workers group few pool
    → is_over pool ≡ true
    → raised_in_order group pool.raised_by ≡ []
    → pool.is_stopped ≡ false
    → Member s group
    → has s.name pool.completed ≡ true
over-has act max_workers group few pool s h over quiet on m = elim (List-cases pool.waiting) [
  | inr (x, xs, e) ↦ absurd (ground arith)
  | inl no_waiting ↦ elim (List-cases pool.running) [
    | inr (x, xs, e) ↦ absurd (ground arith)
    | inl no_running ↦ elim (List-cases pool.finished) [
      | inr (x, xs, e) ↦ absurd (ground arith)
      | inl no_finished ↦ ground (
        arith,
        h.accounted s.name,
        h.tracked.unstopped on,
        none_raised group pool.raised_by s quiet m,
        total-Member s group m,
      )
    ]
  ]
]

outcome_returned :
    (group : List WorkflowStep) (es : List Exception) (completed results : Dict ExecutionResult)
    → group_outcome group es completed ≡ returned results
    → (es ≡ []) × (completed_in_order group completed ≡ results)
unfolding group_outcome
outcome_returned group [] completed results e = (refl, returned-injective e)
outcome_returned group (x ∷ []) completed results e = absurd (cc)
outcome_returned group (x ∷ y ∷ es) completed results e = absurd (cc)

-- A parallel group with unique names that hands results back has one for each of its steps, in the
-- declared order, or one of its results stops the workflow: no step is left out but for a stop.
pub run_parallel_group_complete :
    {E : Type 0} (act : StepAction E) (workers : ℕ) (schedule : Pool E → Move)
    (group : List WorkflowStep) (w : World E) (results : Dict ExecutionResult)
    → are_unique (step_names group) ≡ true
    → (run_parallel_group act workers schedule group w).0 ≡ returned results
    → (keys results ≡ step_names group) ⊎ (first_stopping_failure group results ≢ none)
unfolding run_parallel_group
run_parallel_group_complete act zero schedule group w results unique e = absurd (cc)
run_parallel_group_complete act (suc workers) schedule group w results unique e =
    let few = λ (n : String). (total-named n group unique).0 in
    let pool = drive act (suc workers) schedule (3 * length group) (submitted group w) in
    let h = drive-IsSettling act (suc workers) group few schedule (3 * length group) w in
    let over = drive-submitted_over act workers schedule group w in
    let (quiet, same) =
      outcome_returned group (raised_in_order group pool.raised_by) pool.completed results e in
    elim (Bool-cases pool.is_stopped) [
      | inr on ↦ inl (
          ap keys (sym same)
          ∙ keys-completed_in_order group pool.completed
              (λ s m. over-has act (suc workers) group few pool s h over quiet on m))
      | inl off ↦
          let (s, m, (r, found, stops)) = h.tracked.stopped off in
          inr (
            stopping_found group results s r m
              (ap (get s.name) (sym same)
                ∙ ground (
                  arith,
                  get-completed_in_order s.name group pool.completed,
                  Member-contains s group m,
                ))
              stops)
    ]

contains-completed_in_order :
    (n : String) (steps : List WorkflowStep) (found : Dict ExecutionResult)
    → contains n (step_names steps) ≡ false
    → contains n (keys (completed_in_order steps found)) ≡ false
unfolding completed_in_order keys
contains-completed_in_order n [] found h = refl
contains-completed_in_order n (t ∷ steps) found h =
    ground (arith, contains-completed_in_order n steps found)

unique-completed_in_order :
    (steps : List WorkflowStep) (found : Dict ExecutionResult)
    → are_unique (step_names steps) ≡ true
    → are_unique (keys (completed_in_order steps found)) ≡ true
unfolding completed_in_order keys
unique-completed_in_order [] found h = refl
unique-completed_in_order (t ∷ steps) found h =
    ground
      (arith, unique-completed_in_order steps found, contains-completed_in_order t.name steps found)

-- The results of a group with unique names have unique names.
pub run_parallel_group_unique :
    {E : Type 0} (act : StepAction E) (workers : ℕ) (schedule : Pool E → Move)
    (group : List WorkflowStep) (w : World E) (results : Dict ExecutionResult)
    → are_unique (step_names group) ≡ true
    → (run_parallel_group act workers schedule group w).0 ≡ returned results
    → are_unique (keys results) ≡ true
unfolding run_parallel_group
run_parallel_group_unique act zero schedule group w results unique e = absurd (cc)
run_parallel_group_unique act (suc workers) schedule group w results unique e =
    let pool = drive act (suc workers) schedule (3 * length group) (submitted group w) in
    let (quiet, same) =
      outcome_returned group (raised_in_order group pool.raised_by) pool.completed results e in
    rw (← same) (unique-completed_in_order group pool.completed unique)
