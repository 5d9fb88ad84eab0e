-- ===== src/Workflow/Engine/Run.antt =====
-- A run of a workflow, over its units.
use mellivor_kernel.Prelude.{
  ◌≡◌, ◌≢◌, refl, ap, ◌∙◌, subst, true, false, some, List, [], ◌∷◌, ◌++◌, append_assoc, append-nil,
  Option-cases, inl, inr, Dict, get, keys, concat, All,
}
use mellivor_kernel.Python.{
  is_blank, has_text, Result, returned, Returns, Returns-witness, ◌>>=◌, lift,
}
use mellivor_kernel.World.{World, Effect, NeverRaises}
use mellivor_kernel.Execution.Result.{ExecutionResult}
use mellivor_kernel.Workflow.Definition.{
  WorkflowStep, step_names, Workflow, WorkflowResult, make_workflow_result,
}
use mellivor_kernel.Workflow.Definition.Names.{are_unique}
use mellivor_kernel.Workflow.Options.{WorkflowContext, WorkflowExecutionOptions}
use mellivor_kernel.Workflow.Units.{is_stopping, first_stopping_failure}
use mellivor_kernel.Workflow.Pool.Stops.{Member}
use mellivor_kernel.Workflow.Engine.{
  WorkflowEngine, make_engine, resolve_and_execute_step, run_unit,
}
use mellivor_kernel.Workflow.Engine.Loop.{
  run_units, update, conclude_run, stopped_result, completed_result,
}
use mellivor_kernel.Workflow.Engine.Updates.{first_stopping_failure-some}
use mellivor_kernel.Workflow.Engine.Steps.{Ends, run_unit-Answers}
use mellivor_kernel.Workflow.Engine.Outcome.{
  Unbroken, IsOutcome, Member-left, Member-right, run_closing, conclude_run_lem,
}
use mellivor_kernel.Workflow.Engine.Growth.{
  All-parts, unique_units, full_answer, update-found, update-keys, update-Unbroken,
}

module _ {E : Type 0} (engine : WorkflowEngine E) (workflow : Workflow)
    (accepted : make_engine engine ≡ returned engine) (quiet : NeverRaises engine.event_bus)
    (identified : is_blank workflow.workflow_id ≡ false) where
  -- The run returned an outcome for these steps, and its last calls report it.
  abbrev pub Concluded : List WorkflowStep → Result WorkflowResult × World E → Type 0
  Concluded steps p =
      Returns
        (λ r.
          IsOutcome steps r
          × ((middle : List Effect) × (p.1.trace
                ≡ run_closing engine workflow quiet identified r middle)))
        p.0

  conclude_run-Concluded :
      (steps : List WorkflowStep) (r : WorkflowResult) (w : World E)
      → make_workflow_result r ≡ returned r
      → IsOutcome steps r
      → Concluded steps ((lift (make_workflow_result r) >>= conclude_run engine workflow) w)
  conclude_run-Concluded steps r w valid h =
      let (value, trace) = conclude_run_lem engine workflow quiet identified r w in
      rw (valid, value) (h, (w.trace, trace))

  completed :
      (steps : List WorkflowStep) (results : Dict ExecutionResult) (w : World E)
      → keys results ≡ step_names steps
      → Unbroken steps results
      → Concluded steps (
          (lift (make_workflow_result (completed_result engine results))
              >>= conclude_run engine workflow)
            w)
  unfolding make_workflow_result has_text
  completed steps results w full h =
      conclude_run-Concluded steps (completed_result engine results) w refl (record {
        complete = λ e. full;
        unbroken = λ e. h;
        broken = λ e. absurd (cc);
        error = λ e. absurd (cc);
      })

  stopped :
      (steps : List WorkflowStep) (step : WorkflowStep) (r : ExecutionResult)
      (results : Dict ExecutionResult) (w : World E)
      → Member step steps
      → get step.name results ≡ some r
      → is_stopping step r ≡ true
      → Concluded steps (
          (lift (make_workflow_result (stopped_result engine step r results))
              >>= conclude_run engine workflow)
            w)
  unfolding make_workflow_result has_text
  stopped steps step r results w m found stops =
      conclude_run-Concluded steps (stopped_result engine step r results) w refl (record {
        complete = λ e. absurd (cc);
        unbroken = λ e. absurd (cc);
        broken = λ e. (step, m, refl, (r, found, stops));
        error = λ e. refl;
      })

  module _ (options : WorkflowExecutionOptions E) where
    -- A step that ends whatever the results so far are.
    abbrev pub EndsAlways : WorkflowStep → Type 0
    EndsAlways s =
        (context : WorkflowContext) → Ends (resolve_and_execute_step engine context options) s

    always :
        (context : WorkflowContext) (steps : List WorkflowStep)
        → All EndsAlways steps
        → All (Ends (resolve_and_execute_step engine context options)) steps
    always context [] h = tt
    always context (s ∷ steps) h = (h.0 context, always context steps h.1)

    pub run_units-Concluded :
        (earlier : List WorkflowStep) (units : List (List WorkflowStep))
        (results : Dict ExecutionResult) (context : WorkflowContext) (w : World E)
        → keys results ≡ step_names earlier
        → Unbroken earlier results
        → are_unique (step_names (earlier ++ concat units)) ≡ true
        → All (λ unit. unit ≢ []) units
        → All EndsAlways (concat units)
        → Concluded
            (earlier ++ concat units)
            (run_units engine workflow options units results context w)
    unfolding run_units
    run_units-Concluded earlier [] results context w full h unique filled ends =
        let same = append-nil earlier in rw same (completed earlier results w full h)
    run_units-Concluded earlier (unit ∷ units) results context w full h unique filled ends =
        let here = unique_units earlier unit (concat units) unique in
        let (ends_here, ends_later) = All-parts EndsAlways unit (concat units) ends in
        let (answer, value, answers) = Returns-witness (run_unit engine unit context options w).0 (
          run_unit-Answers engine options context accepted unit w filled.0 here.1
            (always context unit ends_here)) in
        let w' = (run_unit engine unit context options w).1 in
        let results' = update results answer in
        rw value (elim (Option-cases (first_stopping_failure unit answer)) [
          | inl nothing ↦
              let unit_full = full_answer unit answer answers nothing in
              let reassoc = append_assoc earlier unit (concat units) in
              rw nothing (
                subst
                  (λ steps. Concluded steps (
                    run_units engine workflow options units results'
                      (record { step_results = results' }) w'))
                  reassoc
                  (run_units-Concluded (earlier ++ unit) units results'
                    (record { step_results = results' }) w'
                    (update-keys earlier unit results answer full unit_full here.0)
                    (update-Unbroken earlier unit results answer full unit_full here.0 h nothing)
                    (ap (λ steps. are_unique (step_names steps)) reassoc ∙ unique) filled.1
                    ends_later))
          | inr (found, e) ↦
              let (m, there, stops) = first_stopping_failure-some unit answer found.0 found.1 e in
              rw e (
                stopped (earlier ++ (unit ++ concat units)) found.0 found.1 results' w'
                  (Member-right found.0 earlier (unit ++ concat units)
                    (Member-left found.0 unit (concat units) m))
                  (update-found found.0.name results answer found.1 answers.unique there) stops)
        ])
