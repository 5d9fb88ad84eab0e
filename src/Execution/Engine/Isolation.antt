-- ===== src/Execution/Engine/Isolation.antt =====
-- A memory store cannot change what an execution returns.
use mellivor_kernel.Prelude.{
  String, ◌≡◌, refl, subst, sym, ap, ◌∙◌, Option, none, some, List, [], if◌then◌else◌, Bool-cases,
  inl, inr,
}
use mellivor_kernel.Python.{Result, returned, raised, Returns, resume}
use mellivor_kernel.World.{World, Call}
use mellivor_kernel.Memory.Entry.{MemoryEntry}
use mellivor_kernel.Execution.Request.{ExecutionRequest}
use mellivor_kernel.Execution.Result.{
  ExecutionResult, IsValidResult, make_result, make_result-IsValidResult,
}
use mellivor_kernel.Execution.Dispatch.{Dispatcher, dispatch}
use mellivor_kernel.Execution.Dispatch.Total.{IsWellBehavedHost, dispatch_total}
use mellivor_kernel.Execution.Engine.{
  ExecutionEngine, Authorizer, AuthorizationOutcome, denial, finish, start, dispatch_and_finish,
  after_decision, authorized, execute,
}
use mellivor_kernel.Execution.Engine.Finish.{
  IsSound, finish_lem, after_granted, after_denied, execute-authorized,
}

-- What an execution returns, read from the decision and the dispatch alone.
unfoldable pub outcome_of :
    {E : Type 0}
    → Dispatcher E
    → Option (Authorizer E)
    → ExecutionRequest
    → List String
    → World E
    → Result ExecutionResult
outcome_of dispatcher none request claims w = (dispatch dispatcher request [] w).0
outcome_of dispatcher (some authorizer) request claims w =
    let (decision, w') = authorizer request claims w in
    elim decision [
      | raised e ↦ raised e
      | returned o ↦
          if o.granted
          then (dispatch dispatcher request claims w').0
          else make_result (denial request o)
    ]

module _ {E : Type 0} (engine : ExecutionEngine E) (request : ExecutionRequest)
    (sound : IsSound engine request) (host : IsWellBehavedHost engine.dispatcher) where
  finish-outcome :
      (d : Result ExecutionResult) (w : World E)
      → ((r : ExecutionResult) → d ≡ returned r → IsValidResult r)
      → (resume d (finish engine request) w).0 ≡ d
  finish-outcome (raised e) w valid = refl
  finish-outcome (returned r) w valid = (finish_lem engine request sound r w (valid r refl)).0

  dispatch-outcome :
      (granted : List String) (w : World E)
      → (dispatch_and_finish engine request granted w).0
        ≡ (dispatch engine.dispatcher request granted w).0
  unfolding dispatch_and_finish
  dispatch-outcome granted w = finish-outcome _ _ (λ r e.
      subst (Returns IsValidResult) e (dispatch_total engine.dispatcher request granted w host))

  decision-outcome :
      (claims : List String) (o : AuthorizationOutcome) (w : World E)
      → (after_decision engine request claims o w).0 ≡ (
          if o.granted
          then (dispatch engine.dispatcher request claims w).0
          else make_result (denial request o))
  decision-outcome claims o w = elim (Bool-cases o.granted) [
    | inl g ↦ rw (after_granted engine request claims o w g, g) (dispatch-outcome claims w)
    | inr d ↦
        rw (after_denied engine request claims o w d, d)
          (finish-outcome _ _ (λ r e.
            let (same, valid) = make_result-IsValidResult (denial request o) e in
            subst IsValidResult same valid))
  ]

  resumed-outcome :
      (d : Result AuthorizationOutcome) (claims : List String) (w : World E)
      → (resume d (after_decision engine request claims) w).0
        ≡ outcome_of engine.dispatcher (some (λ _ _ w'. (d, w'))) request claims w
  unfolding outcome_of
  resumed-outcome (raised e) claims w = refl
  resumed-outcome (returned o) claims w = decision-outcome claims o w

  authorized-outcome :
      (a : Option (Authorizer E)) (claims : List String) (w : World E)
      → (authorized engine a request claims w).0 ≡ outcome_of engine.dispatcher a request claims w
  unfolding authorized outcome_of
  authorized-outcome none claims w = dispatch-outcome [] w
  authorized-outcome (some authorizer) claims w =
      resumed-outcome (authorizer request claims w).0 claims (authorizer request claims w).1

  pub execute-outcome :
      (claims : List String) (w : World E)
      → (execute engine request claims w).0
        ≡ outcome_of engine.dispatcher engine.authorizer request claims (start engine request w).1
  execute-outcome claims w =
      ap (λ p. p.0) (execute-authorized engine request sound claims w)
      ∙ authorized-outcome engine.authorizer claims (start engine request w).1

-- For collaborators that keep their contracts, what an execution returns does not depend on the
-- memory store, neither on whether there is one nor on what it does or raises.
pub execute_isolated :
    {E : Type 0} (engine : ExecutionEngine E) (store : Option (MemoryEntry → Call E Unit))
    (request : ExecutionRequest) (claims : List String) (w : World E)
    → IsSound engine request
    → IsWellBehavedHost engine.dispatcher
    → (execute (record engine { memory = store }) request claims w).0
      ≡ (execute engine request claims w).0
unfolding start
execute_isolated engine store request claims w sound host =
    let changed : IsSound (record engine { memory = store }) request = record {
      quiet_bus = sound.quiet_bus;
      quiet_sink = sound.quiet_sink;
      readable = sound.readable;
      identified = sound.identified;
    } in
    execute-outcome (record engine { memory = store }) request changed host claims w
    ∙ sym (execute-outcome engine request sound host claims w)
