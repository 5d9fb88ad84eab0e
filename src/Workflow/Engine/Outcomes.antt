-- ===== src/Workflow/Engine/Outcomes.antt =====
-- A whole run: its outcome, for dependable collaborators.
use mellivor_kernel.Prelude.{
  ◌≡◌, refl, sym, ap, ◌∙◌, subst, true, false, Option, none, some, List, [], ◌∷◌, All, keys,
}
use mellivor_kernel.Python.{is_blank, returned}
use mellivor_kernel.World.{World, NeverRaises, publish, published, notify_lem}
use mellivor_kernel.Events.Event.{workflow_started}
use mellivor_kernel.Workflow.Definition.{WorkflowStep, step_names, Workflow, make_definition}
use mellivor_kernel.Workflow.Definition.Names.{are_unique, make_definition_iff}
use mellivor_kernel.Workflow.Options.{
  WorkflowContext, WorkflowExecutionOptions, make_options, validate_options, default_options,
}
use mellivor_kernel.Workflow.Units.{group_into_units}
use mellivor_kernel.Workflow.Units.Partition.{concat-group_into_units, group_into_units-ne-nil}
use mellivor_kernel.Workflow.Engine.{WorkflowEngine, make_engine}
use mellivor_kernel.Workflow.Engine.Loop.{run_units, run_checked, run}
use mellivor_kernel.Workflow.Engine.Run.{Concluded, EndsAlways, run_units-Concluded}
use mellivor_kernel.Execution.Engine.Contract.{IsRequest}
use mellivor_kernel.Workflow.Engine.Dependable.{AreResolvers, IsDependable, step-Ends}

-- The options of a run: those supplied, or the default.
abbrev pub options_of :
    {E : Type 0} → Option (WorkflowExecutionOptions E) → WorkflowExecutionOptions E
options_of none = default_options
options_of (some o) = o

module _ {E : Type 0} (engine : WorkflowEngine E) (workflow : Workflow)
    (accepted : make_engine engine ≡ returned engine) (dependable : IsDependable engine)
    (quiet : NeverRaises engine.event_bus)
    (identified : is_blank workflow.workflow_id ≡ false) where
  every_step_ends :
      (o : WorkflowExecutionOptions E) (steps : List WorkflowStep)
      → make_options o ≡ returned o
      → AreResolvers o.request_resolvers
      → All (λ s. IsRequest s.request) steps
      → All (EndsAlways engine workflow accepted quiet identified o) steps
  every_step_ends o [] valid resolvers h = tt
  every_step_ends o (s ∷ steps) valid resolvers h = (
    (λ context. step-Ends engine dependable context o s valid resolvers h.0),
    every_step_ends o steps valid resolvers h.1,
  )

  run_checked-Concluded :
      (o : WorkflowExecutionOptions E) (context : WorkflowContext) (w : World E)
      → make_options o ≡ returned o
      → validate_options workflow.definition.steps o ≡ returned tt
      → are_unique (step_names workflow.definition.steps) ≡ true
      → AreResolvers o.request_resolvers
      → All (λ s. IsRequest s.request) workflow.definition.steps
      → Concluded engine workflow accepted quiet identified workflow.definition.steps
          (run_checked engine workflow o context w)
  unfolding run_checked keys
  run_checked-Concluded o context w valid known unique resolvers h =
      let steps = workflow.definition.steps in
      let units = group_into_units steps o.parallel_groups in
      let same = concat-group_into_units steps o.parallel_groups in
      let started = workflow_started workflow.workflow_id workflow.definition.name in
      let (sent, _) = notify_lem engine.event_bus published started w quiet in
      rw (known, sent)
        (subst
          (λ xs.
            Concluded engine workflow accepted quiet identified xs
              (run_units engine workflow o units [] context (publish engine.event_bus started w).1))
          same
          (run_units-Concluded engine workflow accepted quiet identified o [] units [] context
            (publish engine.event_bus started w).1 refl (λ s r m. absurd m)
            (ap (λ xs. are_unique (step_names xs)) same ∙ unique)
            (group_into_units-ne-nil steps o.parallel_groups)
            (subst (All (EndsAlways engine workflow accepted quiet identified o)) (sym same)
              (every_step_ends o steps valid resolvers h))))

  -- A run with options that their constructor accepts and that fit the workflow, of a definition
  -- that its constructor accepts, returns whatever the order of the threads is. The result is an
  -- outcome: a run that succeeds has a result for every step, in the declared order, and none of
  -- them stops the workflow; one that fails has an error text and names a step whose result is
  -- there and stops it. Its last calls are the event and the memory entry that report the result,
  -- where there is a bus or a store. The steps may be dynamic, scheduled and in parallel groups.
  pub run_outcome :
      (context : WorkflowContext) (supplied : Option (WorkflowExecutionOptions E)) (w : World E)
      → make_definition workflow.definition ≡ returned workflow.definition
      → make_options (options_of supplied) ≡ returned (options_of supplied)
      → validate_options workflow.definition.steps (options_of supplied) ≡ returned tt
      → AreResolvers (options_of supplied).request_resolvers
      → All (λ s. IsRequest s.request) workflow.definition.steps
      → Concluded engine workflow accepted quiet identified workflow.definition.steps
          (run engine workflow context supplied w)
  unfolding run
  run_outcome context none w defined valid known resolvers h = rw valid (
      run_checked-Concluded default_options context w valid known
        ((make_definition_iff workflow.definition).0 defined).1 resolvers h)
  run_outcome context (some o) w defined valid known resolvers h = rw valid (
      run_checked-Concluded o context w valid known
        ((make_definition_iff workflow.definition).0 defined).1 resolvers h)
