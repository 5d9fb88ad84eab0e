-- ===== src/Workflow/Engine/Loop.antt =====
-- src/mellivor_kernel/workflow/engine.py: WorkflowEngine.run, over the units of a workflow
use mellivor_kernel.Prelude.{
  pos, true, false, Option, none, some, List, [], ◌∷◌, Dict, put, length, if◌then◌else◌,
}
use mellivor_kernel.Python.{
  lit, quoted, num, str, bool, int, text_or, Action, pure, lift, ◌>>=◌, ◌>>◌,
}
use mellivor_kernel.World.{World, Call, publish, add_quietly}
use mellivor_kernel.Events.Event.{Event, workflow_started, workflow_completed, workflow_failed}
use mellivor_kernel.Memory.Entry.{MemoryEntry, make_entry}
use mellivor_kernel.Execution.Result.{ExecutionResult}
use mellivor_kernel.Execution.Engine.{error_pieces}
use mellivor_kernel.Workflow.Definition.{
  WorkflowStep, Workflow, WorkflowResult, make_workflow_result,
}
use mellivor_kernel.Workflow.Options.{
  WorkflowContext, WorkflowExecutionOptions, default_options, make_options, validate_options,
}
use mellivor_kernel.Workflow.Units.{group_into_units, first_stopping_failure}
use mellivor_kernel.Workflow.Engine.{WorkflowEngine, run_unit}

module _ {E : Type 0} (engine : WorkflowEngine E) where
  abbrev pub workflow_entry : Workflow → WorkflowResult → MemoryEntry
  workflow_entry workflow r = record {
    id = workflow.workflow_id;
    content =
        if r.success
        then lit "Workflow "
          ∷ quoted workflow.definition.name
          ∷ lit " succeeded with "
          ∷ num (length r.step_results)
          ∷ lit " step(s)."
          ∷ []
        else lit "Workflow "
          ∷ quoted workflow.definition.name
          ∷ lit " failed: "
          ∷ error_pieces r.error_text;
    tags = "workflow" ∷ [];
    metadata =
        ("name", str (lit workflow.definition.name ∷ []))
        ∷ ("success", bool r.success)
        ∷ ("step_count", int (pos (length r.step_results)))
        ∷ [];
  }

  -- `_remember` with a store
  unfoldable pub remember_run :
      Option (MemoryEntry → Call E Unit) → Workflow → WorkflowResult → Action (World E) Unit
  remember_run none workflow r = pure tt
  remember_run (some add) workflow r = do
    entry ← lift (make_entry (workflow_entry workflow r))
    add_quietly (some add) entry

  abbrev pub final_event : Workflow → WorkflowResult → Event
  final_event workflow r =
      if r.success
      then workflow_completed workflow.workflow_id workflow.definition.name (length r.step_results)
      else workflow_failed workflow.workflow_id workflow.definition.name (text_or r.error_text [])
          r.stopped_at

  -- The end of `run`, with the outcome that it constructed.
  unfoldable pub conclude_run : Workflow → WorkflowResult → Action (World E) WorkflowResult
  unfolding remember_run
  conclude_run workflow r = do
    publish engine.event_bus (final_event workflow r)
    remember_run engine.memory workflow r
    pure r

  abbrev pub stopped_result : WorkflowStep → ExecutionResult → Dict ExecutionResult → WorkflowResult
  stopped_result step r results = record {
    success = false;
    step_results = results;
    error_text =
        some (lit "Step " ∷ quoted step.name ∷ lit " failed: " ∷ error_pieces r.error_text);
    stopped_at = some step.name;
  }

  abbrev pub completed_result : Dict ExecutionResult → WorkflowResult
  completed_result results = record {
    success = true;
    step_results = results;
    error_text = none;
    stopped_at = none;
  }

-- dict.update
unfoldable pub update : {V : Type 0} → Dict V → Dict V → Dict V
update d [] = d
update d ((k, v) ∷ changes) = update (put k v d) changes

module _ {E : Type 0} (engine : WorkflowEngine E) (workflow : Workflow)
    (options : WorkflowExecutionOptions E) where
  -- The end of a turn of the loop: a result that stops the workflow ends the run.
  abbrev pub settle :
      Option (WorkflowStep × ExecutionResult)
      → Dict ExecutionResult
      → Action (World E) WorkflowResult
      → Action (World E) WorkflowResult
  settle none results go_on = go_on
  settle (some (step, r)) results go_on =
      lift (make_workflow_result (stopped_result engine step r results))
      >>= conclude_run engine workflow

  -- The loop of `run` over the units, with the results so far and the running context.
  unfoldable pub run_units :
      List (List WorkflowStep)
      → Dict ExecutionResult
      → WorkflowContext
      → Action (World E) WorkflowResult
  unfolding run_unit update conclude_run
  run_units [] results context = do
    r ← lift (make_workflow_result (completed_result engine results))
    conclude_run engine workflow r
  run_units (unit ∷ units) results context =
      run_unit engine unit context options >>= (λ unit_results.
        let results' = update results unit_results in
        settle (first_stopping_failure unit unit_results) results'
          (run_units units results' (record { step_results = results' })))

  -- `run` behind the construction of the options.
  unfoldable pub run_checked : WorkflowContext → Action (World E) WorkflowResult
  unfolding run_units
  run_checked context = do
    lift (validate_options workflow.definition.steps options)
    publish engine.event_bus (workflow_started workflow.workflow_id workflow.definition.name)
    run_units (group_into_units workflow.definition.steps options.parallel_groups) [] context

-- WorkflowEngine.run; the options are constructed again, from a copy.
unfoldable pub run :
    {E : Type 0}
    → WorkflowEngine E
    → Workflow
    → WorkflowContext
    → Option (WorkflowExecutionOptions E)
    → Action (World E) WorkflowResult
unfolding run_checked
run engine workflow context supplied = do
  options ← lift (make_options (elim supplied [ none ↦ default_options | some o ↦ o ]))
  run_checked engine workflow options context
