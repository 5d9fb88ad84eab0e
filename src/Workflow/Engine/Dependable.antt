-- ===== src/Workflow/Engine/Dependable.antt =====
-- What the steps of a workflow come to an end by.
use mellivor_kernel.Prelude.{
  String, ◌≡◌, refl, true, Option, none, some, [], ◌∷◌, arith, Bool-cases, inl, inr, Dict, get,
  ◌==◌, subst, ltb, All,
}
use mellivor_kernel.Python.{
  has_text, Result, returned, raised, and_then-returned, raised_apart, Returns, Returns-map,
  Returns-witness, Action,
}
use mellivor_kernel.World.{World, call, clock_read, resolver_called}
use mellivor_kernel.Execution.Request.{ExecutionRequest}
use mellivor_kernel.Execution.Result.{ExecutionResult, make_result}
use mellivor_kernel.Execution.Engine.{execute}
use mellivor_kernel.Execution.Engine.Contract.{IsRequest, IsDependableEngine, execute-Returns}
use mellivor_kernel.Workflow.Definition.{WorkflowStep}
use mellivor_kernel.Workflow.Options.{
  Datetime, WorkflowContext, Candidate, a_request, another, Resolver, callable, not_callable,
  WorkflowExecutionOptions, make_options, check_resolvers, check_groups, check_times,
}
use mellivor_kernel.Workflow.Engine.{
  WorkflowEngine, resolve_and_execute_step, resolve_and_delegate, after_resolver, delegate,
  guard_time, is_before, resolve,
}
use mellivor_kernel.Workflow.Engine.Steps.{Ends}

-- A resolver may raise and may answer what is no request, but its requests were constructed.
abbrev pub IsResolver : {E : Type 0} → Resolver E → Type 0
IsResolver (not_callable class_name) = Unit
IsResolver {E} (callable f) =
    (context : WorkflowContext) (request r : ExecutionRequest) (env : E)
    → (f context request env).0 ≡ returned (a_request r)
    → IsRequest r

abbrev pub AreResolvers : {E : Type 0} → Dict (Resolver E) → Type 0
AreResolvers d = All (λ p. IsResolver p.1) d

-- The collaborators of the engine keep their contracts, its clock that it answers aware times.
pub record IsDependable {E : Type 0} (engine : WorkflowEngine E) : Type 0 where
  pub aware : (env : E) → Returns (λ now. now.is_aware ≡ true) (engine.clock env).0
  pub execution : IsDependableEngine engine.execution_engine

scheduled_aware :
    (d : Dict Datetime) (n : String) (t : Datetime)
    → check_times d ≡ returned tt
    → get n d ≡ some t
    → t.is_aware ≡ true
unfolding check_times get
scheduled_aware [] n t h e = absurd (cc)
scheduled_aware ((k, scheduled) ∷ d) n t h e = ground (arith, scheduled_aware d n t)

resolver_found :
    {E : Type 0} (d : Dict (Resolver E)) (n : String) (f : Resolver E)
    → AreResolvers d
    → get n d ≡ some f
    → IsResolver f
unfolding get
resolver_found [] n f h e = absurd (cc)
resolver_found ((k, g) ∷ d) n f h e = elim (Bool-cases (k == n)) [
  | inl same ↦ subst IsResolver {x = g} {y = f} (ground arith) h.0
  | inr other ↦ resolver_found d n f h.1 (ground arith)
]

times_checked :
    {E : Type 0} (o : WorkflowExecutionOptions E)
    → make_options o ≡ returned o
    → check_times o.not_before ≡ returned tt
unfolding make_options
times_checked o h =
    let behind = and_then-returned (check_resolvers o.request_resolvers) _ o h in
    let behind' = and_then-returned (check_groups o.parallel_groups []) _ o behind.1 in
    let (u, checked) = (and_then-returned (check_times o.not_before) _ o behind'.1).0 in checked

module _ {E : Type 0} (engine : WorkflowEngine E) (dependable : IsDependable engine) where
  delegate-Ends :
      (step : WorkflowStep) (request : ExecutionRequest) (w : World E)
      → IsRequest request
      → Returns (λ r. Unit) (delegate engine step request w).0
  unfolding delegate
  delegate-Ends step request w h =
      Returns-map (execute engine.execution_engine request step.granted_permissions w).0 (λ r _. tt)
        (execute-Returns engine.execution_engine request step.granted_permissions w
          dependable.execution h)

  after_resolver-Ends :
      (step : WorkflowStep) (candidate : Result Candidate) (w : World E)
      → ((r : ExecutionRequest) → candidate ≡ returned (a_request r) → IsRequest r)
      → Returns (λ r. Unit) (after_resolver engine step candidate w).0
  unfolding after_resolver make_result has_text
  after_resolver-Ends step (raised e) w h = tt
  after_resolver-Ends step (returned (another class_name)) w h = tt
  after_resolver-Ends step (returned (a_request request)) w h =
      delegate-Ends step request w (h request refl)

  resolve_and_delegate-Ends :
      (step : WorkflowStep) (context : WorkflowContext) (resolver : Option (Resolver E))
      (w : World E)
      → IsRequest step.request
      → ((f : Resolver E) → resolver ≡ some f → IsResolver f)
      → Returns (λ r. Unit) (resolve_and_delegate engine step context resolver w).0
  unfolding resolve_and_delegate
  resolve_and_delegate-Ends step context none w h sound = delegate-Ends step step.request w h
  resolve_and_delegate-Ends step context (some (callable f)) w h sound =
      after_resolver-Ends step (f context step.request w.env).0 _
        (λ r. sound (callable f) refl context step.request r w.env)
  resolve_and_delegate-Ends step context (some (not_callable class_name)) w h sound =
      after_resolver-Ends step (resolve (not_callable class_name) context step.request w.env).0
        (call (resolver_called step.name) (resolve (not_callable class_name) context step.request)
          w).1
        (λ r e. absurd (raised_apart e))

  guard_time-Ends :
      (step : WorkflowStep) (now : Datetime) (not_before : Option Datetime)
      (go_on : Action (World E) ExecutionResult) (w : World E)
      → now.is_aware ≡ true
      → ((t : Datetime) → not_before ≡ some t → t.is_aware ≡ true)
      → Returns (λ r. Unit) (go_on w).0
      → Returns (λ r. Unit) (guard_time engine step now not_before go_on w).0
  unfolding guard_time is_before make_result has_text
  guard_time-Ends step now none go_on w aware zoned h = h
  guard_time-Ends step now (some t) go_on w aware zoned h =
      elim (Bool-cases (ltb now.instant t.instant)) [
        | inl early ↦ rw (aware, zoned t refl, early) tt
        | inr due ↦ rw (aware, zoned t refl, due) h
      ]

  -- With dependable collaborators a step whose request was constructed ends, whatever time it may
  -- be scheduled at and whatever its resolver does.
  pub step-Ends :
      (context : WorkflowContext) (o : WorkflowExecutionOptions E) (step : WorkflowStep)
      → make_options o ≡ returned o
      → AreResolvers o.request_resolvers
      → IsRequest step.request
      → Ends (resolve_and_execute_step engine context o) step
  unfolding resolve_and_execute_step
  step-Ends context o step valid resolvers h w =
      let (now, value, aware) = Returns-witness (engine.clock w.env).0 (dependable.aware w.env) in
      let w' = (call clock_read engine.clock w).1 in
      let found = get step.name o.request_resolvers in
      rw value (
        guard_time-Ends step now (get step.name o.not_before)
          (resolve_and_delegate engine step context found) w' aware
          (λ t. scheduled_aware o.not_before step.name t (times_checked o valid))
          (resolve_and_delegate-Ends step context found w' h
            (λ f. resolver_found o.request_resolvers step.name f resolvers)))
