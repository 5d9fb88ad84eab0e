-- ===== src/Execution/Engine/Carried.antt =====
-- The payloads that come back from the execution of a provider request.
use mellivor_kernel.Prelude.{
  String, ◌≡◌, sym, subst, Bool-cases, Option, none, some, List, [], inl, inr, if◌then◌else◌,
}
use mellivor_kernel.Python.{Payload, Result, returned, raised}
use mellivor_kernel.World.{World}
use mellivor_kernel.Execution.Request.{ExecutionRequest, provider}
use mellivor_kernel.Execution.Result.{make_result}
use mellivor_kernel.Execution.Dispatch.{Dispatcher, dispatch}
use mellivor_kernel.Execution.Dispatch.Provided.{
  Provides, Carries, make_result-Carries, dispatch-Carries,
}
use mellivor_kernel.Execution.Dispatch.Total.{IsWellBehavedHost}
use mellivor_kernel.Execution.Engine.{
  ExecutionEngine, Authorizer, AuthorizationOutcome, denial, start, execute,
}
use mellivor_kernel.Execution.Engine.Finish.{IsSound}
use mellivor_kernel.Execution.Engine.Isolation.{outcome_of, execute-outcome}

module _ {E : Type 0} (P : Payload → Type 0) (dispatcher : Dispatcher E)
    (request : ExecutionRequest) (provides : Provides P dispatcher)
    (target : request.target ≡ provider) where
  outcome_of-Carries :
      (a : Option (Authorizer E)) (claims : List String) (w : World E)
      → Carries P (outcome_of dispatcher a request claims w)
  unfolding outcome_of
  outcome_of-Carries none claims w = dispatch-Carries P dispatcher request provides [] w target
  outcome_of-Carries (some authorizer) claims w =
      decided (authorizer request claims w).0 (authorizer request claims w).1
    where
      decided :
          (d : Result AuthorizationOutcome) (w' : World E)
          → Carries P (elim d [
            | raised e ↦ raised e
            | returned o ↦
                if o.granted
                then (dispatch dispatcher request claims w').0
                else make_result (denial request o)
          ])
      decided (raised e) w' = tt
      decided (returned o) w' = elim (Bool-cases o.granted) [
        | inl granted ↦ rw granted (dispatch-Carries P dispatcher request provides claims w' target)
        | inr denied ↦ rw denied (make_result-Carries P (denial request o) tt)
      ]

-- What the execution of a provider request hands back has each property that all the answers of the
-- providers have.
pub execute-Carries :
    {E : Type 0} (P : Payload → Type 0) (engine : ExecutionEngine E) (request : ExecutionRequest)
    (claims : List String) (w : World E)
    → Provides P engine.dispatcher
    → request.target ≡ provider
    → IsSound engine request
    → IsWellBehavedHost engine.dispatcher
    → Carries P (execute engine request claims w).0
execute-Carries P engine request claims w provides target sound host =
    subst (Carries P) (sym (execute-outcome engine request sound host claims w)) (
      outcome_of-Carries P engine.dispatcher request provides target engine.authorizer claims
        (start engine request w).1)
