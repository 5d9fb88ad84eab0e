-- ===== src/Workflow/Engine/Outcome.antt =====
-- The outcome of a workflow run.
use mellivor_kernel.Prelude.{
  ◌≡◌, ◌⊎◌, refl, ap, ◌∙◌, true, false, Option, none, some, List, [], ◌∷◌, ◌++◌, arith, inl, inr,
  Dict, get, keys,
}
use mellivor_kernel.Python.{is_blank, is_blank_text, has_text, returned, pure, ◌>>◌, >>=-returned}
use mellivor_kernel.World.{
  World, Effect, Call, NeverRaises, notify_lem, note, publish, published, remembered,
}
use mellivor_kernel.Memory.Entry.{MemoryEntry, make_entry}
use mellivor_kernel.Execution.Result.{ExecutionResult}
use mellivor_kernel.Workflow.Definition.{WorkflowStep, step_names, Workflow, WorkflowResult}
use mellivor_kernel.Workflow.Units.{is_stopping}
use mellivor_kernel.Workflow.Pool.Stops.{Member}
use mellivor_kernel.Workflow.Engine.{WorkflowEngine}
use mellivor_kernel.Workflow.Engine.Loop.{conclude_run, remember_run, workflow_entry, final_event}

-- No result of these steps stops the workflow.
abbrev pub Unbroken : List WorkflowStep → Dict ExecutionResult → Type 0
Unbroken steps results =
    (s : WorkflowStep) (r : ExecutionResult)
    → Member s steps
    → get s.name results ≡ some r
    → is_stopping s r ≡ false

-- A run that succeeds has a result for every step, in the declared order, and none of them stops
-- the workflow. One that fails names a step of the workflow whose result stops it.
pub record IsOutcome (steps : List WorkflowStep) (r : WorkflowResult) : Type 0 where
  pub complete : r.success ≡ true → keys r.step_results ≡ step_names steps
  pub unbroken : r.success ≡ true → Unbroken steps r.step_results
  pub broken :
      r.success ≡ false
      → (s : WorkflowStep) × Member s steps
        × (r.stopped_at ≡ some s.name)
        × ((result : ExecutionResult) × (get s.name r.step_results ≡ some result)
            × (is_stopping s result ≡ true))
  pub error : (r.success ≡ false → has_text r.error_text ≡ true)

pub Member-left : (s : WorkflowStep) (xs ys : List WorkflowStep) → Member s xs → Member s (xs ++ ys)
Member-left s [] ys m = absurd m
Member-left s (x ∷ xs) ys (inl e) = inl e
Member-left s (x ∷ xs) ys (inr m) = inr (Member-left s xs ys m)

pub Member-right :
    (s : WorkflowStep) (xs ys : List WorkflowStep) → Member s ys → Member s (xs ++ ys)
Member-right s [] ys m = m
Member-right s (x ∷ xs) ys m = inr (Member-right s xs ys m)

pub Member-append :
    (s : WorkflowStep) (xs ys : List WorkflowStep) → Member s (xs ++ ys) → Member s xs ⊎ Member s ys
Member-append s [] ys m = inr m
Member-append s (x ∷ xs) ys (inl e) = inl (inl e)
Member-append s (x ∷ xs) ys (inr m) = elim (Member-append s xs ys m) [
  | inl left ↦ inl (inr left)
  | inr right ↦ inr right
]

module _ {E : Type 0} (engine : WorkflowEngine E) (workflow : Workflow)
    (quiet : NeverRaises engine.event_bus)
    (identified : is_blank workflow.workflow_id ≡ false) where
  entry_accepted :
      (r : WorkflowResult)
      → make_entry (workflow_entry engine workflow r) ≡ returned (workflow_entry engine workflow r)
  unfolding make_entry is_blank_text is_blank
  entry_accepted r = ground arith

  -- What the end of a run adds to a trace.
  abbrev pub run_closing : WorkflowResult → List Effect → List Effect
  run_closing r trace =
      note engine.memory (remembered (workflow_entry engine workflow r))
        (note engine.event_bus (published (final_event engine workflow r)) trace)

  remember_run_lem :
      (store : Option (MemoryEntry → Call E Unit)) (r : WorkflowResult) (w : World E)
      → ((remember_run engine store workflow r w).0 ≡ returned tt)
        × ((remember_run engine store workflow r w).1.trace
            ≡ note store (remembered (workflow_entry engine workflow r)) w.trace)
  unfolding remember_run
  remember_run_lem none r w = (refl, refl)
  remember_run_lem (some add) r w = rw (entry_accepted r) (refl, refl)

  pub conclude_run_lem :
      (r : WorkflowResult) (w : World E)
      → ((conclude_run engine workflow r w).0 ≡ returned r)
        × ((conclude_run engine workflow r w).1.trace ≡ run_closing r w.trace)
  unfolding conclude_run
  conclude_run_lem r w =
      let event = final_event engine workflow r in
      let (sent, trace) = notify_lem engine.event_bus published event w quiet in
      let w' = (publish engine.event_bus event w).1 in
      let (kept, trace') = remember_run_lem engine.memory r w' in
      let run =
        >>=-returned (publish engine.event_bus event)
          (λ _. remember_run engine engine.memory workflow r >> pure r) w sent
        ∙ >>=-returned (remember_run engine engine.memory workflow r) (λ _. pure r) w' kept in
      (
        ap (λ p. p.0) run,
        ap (λ p. p.1.trace) run
            ∙ trace'
            ∙ ap (note engine.memory (remembered (workflow_entry engine workflow r))) trace,
      )
