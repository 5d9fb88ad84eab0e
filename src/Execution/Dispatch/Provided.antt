-- ===== src/Execution/Dispatch/Provided.antt =====
-- The payloads that come back from a provider.
use mellivor_kernel.Prelude.{
  String, List, pos, inl, inr, Bool-cases, ◌≡◌, refl, none, some, ℤ, subst,
}
use mellivor_kernel.Python.{Payload, Result, returned, raised, is_provider_registration_error}
use mellivor_kernel.World.{World}
use mellivor_kernel.Providers.Registry.{BaseProvider, get}
use mellivor_kernel.Execution.Request.{ExecutionRequest, provider}
use mellivor_kernel.Execution.Result.{ExecutionResult, make_result, make_result-IsValidResult}
use mellivor_kernel.Execution.Dispatch.{
  failed, target_metadata, Dispatcher, dispatch, found_provider, invoke_timed, timed_response,
}

-- Each payload that a provider of the registry answers has the property.
abbrev pub Provides : {E : Type 0} → (Payload → Type 0) → Dispatcher E → Type 0
Provides {E} P dispatcher =
    (name : String) (p : BaseProvider E) (sent answer : Payload) (env : E)
    → get name dispatcher.provider_registry ≡ returned p
    → (p.invoke sent env).0 ≡ returned answer
    → P answer

-- An outcome whose payload, if there is one, has the property.
abbrev pub Carries : (Payload → Type 0) → Result ExecutionResult → Type 0
Carries P (raised e) = Unit
Carries P (returned r) = elim r.payload [ none ↦ Unit | some p ↦ P p ]

pub make_result-Carries :
    (P : Payload → Type 0) (r : ExecutionResult)
    → Carries P (returned r)
    → Carries P (make_result r)
make_result-Carries P r h = go (make_result r) refl
  where
    go : (d : Result ExecutionResult) → make_result r ≡ d → Carries P d
    go (raised e) same = tt
    go (returned r') same =
        subst (λ x. Carries P (returned x)) (make_result-IsValidResult r same).0 h

module _ {E : Type 0} (P : Payload → Type 0) (dispatcher : Dispatcher E)
    (request : ExecutionRequest) (provides : Provides P dispatcher) where
  timed_response-Carries :
      (r : Result Payload) (elapsed : ℤ)
      → ((answer : Payload) → r ≡ returned answer → P answer)
      → Carries P (timed_response dispatcher request r elapsed)
  unfolding timed_response
  timed_response-Carries (raised e) elapsed h = make_result-Carries P _ tt
  timed_response-Carries (returned answer) elapsed h = make_result-Carries P _ (h answer refl)

  found_provider-Carries :
      (r : Result (BaseProvider E)) (w : World E)
      → ((p : BaseProvider E)
          → r ≡ returned p
          → (sent answer : Payload) (env : E) → (p.invoke sent env).0 ≡ returned answer
          → P answer)
      → Carries P (found_provider dispatcher request r w).0
  unfolding found_provider invoke_timed
  found_provider-Carries (raised e) w h =
      elim (Bool-cases (is_provider_registration_error e.class)) [
        | inl missing ↦
            rw missing
              (make_result-Carries P (failed e.message (pos 0) (target_metadata provider)) tt)
        | inr other ↦ rw other tt
      ]
  found_provider-Carries (returned p) w h =
      timed_response-Carries _ _ (λ answer. h p refl request.payload answer _)

  pub dispatch-Carries :
      (granted : List String) (w : World E)
      → request.target ≡ provider
      → Carries P (dispatch dispatcher request granted w).0
  unfolding dispatch
  dispatch-Carries granted w target = rw target (
      found_provider-Carries (get request.operation dispatcher.provider_registry) w
        (λ p e sent answer env. provides request.operation p sent answer env e))
