-- ===== src/AiEngine/Builder/Guarded.antt =====
-- The engine that a builder makes with the authorizer left to it.
use mellivor_kernel.Prelude.{
  String, ◌≡◌, refl, sym, subst, Bool, true, false, Option, none, some, List, [], if◌then◌else◌,
  Bool-cases, inl, inr, get,
}
use mellivor_kernel.Python.{
  Action, ◌>>=◌, Result, returned, raised, Returns, Exception, Ends, ai_engine_error, is_blank,
  resume,
}
use mellivor_kernel.World.{World, Effect, NeverRaises}
use mellivor_kernel.Tools.Base.{BaseTool}
use mellivor_kernel.Tools.Registry.{lookup}
use mellivor_kernel.Execution.Request.{ExecutionRequest}
use mellivor_kernel.Execution.Result.{IsValidResult}
use mellivor_kernel.Execution.Dispatch.Reach.{Holds}
use mellivor_kernel.Execution.Dispatch.Total.{IsWellBehavedHost}
use mellivor_kernel.Execution.Engine
use mellivor_kernel.Execution.Engine.{ExecutionEngine, Authorizer}
use mellivor_kernel.Execution.Engine.Finish.{IsSound, closing, opening}
use mellivor_kernel.Execution.Engine.Closed.{Grew, KeepsApart, effective}
use mellivor_kernel.Execution.Engine.Guard.{is_tool_run, execute_guard}
use mellivor_kernel.Authorization.Authorizer.{IsForeign, as_authorizer-KeepsApart}
use mellivor_kernel.AiEngine.Owners.{is_alive, own}
use mellivor_kernel.AiEngine.Engine.{AiEngine, execute}
use mellivor_kernel.AiEngine.Builder.{
  Platform, AiEngineBuilder, Objects, Discovery, default_engine, default_authorizer, dispatcher,
  execution_engine, resolve_registry, discovery_failed, discover_into, own_registry, build,
}

abbrev pub IsAiEngineError : Exception → Type 0
IsAiEngineError e = e.class ≡ ai_engine_error

>>=-Ends :
    {S A B : Type 0} (P : B → Type 0) (m : Action S A) (k : A → Action S B) (s : S)
    → Ends (λ a. Unit) IsAiEngineError (m s).0
    → ((a : A) (t : S) → Ends P IsAiEngineError (k a t).0)
    → Ends P IsAiEngineError ((m >>= k) s).0
>>=-Ends {S} {A} {B} P m k s h later = go (m s).0 h
  where
    go :
        (r : Result A)
        → Ends (λ a. Unit) IsAiEngineError r
        → Ends P IsAiEngineError (resume r k (m s).1).0
    go (returned a) h = later a (m s).1
    go (raised e) h = h

map-Ends :
    {A : Type 0} (P R : A → Type 0) (Q : Exception → Type 0)
    → ((a : A) → P a → R a)
    → (r : Result A) → Ends P Q r
    → Ends R Q r
map-Ends P R Q f (returned a) h = f a h
map-Ends P R Q f (raised e) h = h

is_tool_run-IsForeign : IsForeign is_tool_run
is_tool_run-IsForeign = record {
  no_record = λ a. refl;
  no_grant = λ id t o ps. refl;
  no_denial = λ id t o reason. refl;
}

module _ {E : Type 0} (platform : Platform E) (b : AiEngineBuilder E) where
  -- `build` returns an engine around these parts, or raises an AIEngineError.
  abbrev IsComposed : AiEngine E → Type 0
  IsComposed engine = engine.execution_engine ≡ execution_engine platform b

  resolve_registry-Ends :
      (new_registry : String) (o : Option String) (s : Objects E)
      → Ends (λ r. Unit) IsAiEngineError (resolve_registry platform b new_registry o s).0
  resolve_registry-Ends new_registry (some r) s = tt
  resolve_registry-Ends new_registry none s = tt

  discovery_failed-Ends :
      (root : String) (r : Result Unit)
      → Ends (λ r. Unit) IsAiEngineError (discovery_failed platform b root r)
  discovery_failed-Ends root (returned u) = tt
  discovery_failed-Ends root (raised e) = refl

  discover_into-Ends :
      (registry : String) (o : Option (Discovery E)) (s : Objects E)
      → Ends (λ r. Unit) IsAiEngineError (discover_into platform b registry o s).0
  discover_into-Ends registry none s = tt
  discover_into-Ends registry (some d) s = discovery_failed-Ends d.root _

  own_registry-Ends :
      (new_engine registry : String) (s : Objects E)
      → Ends (λ r. Unit) IsAiEngineError (own_registry platform b new_engine registry s).0
  unfolding own
  own_registry-Ends new_engine registry s =
      elim (Bool-cases (is_alive (get registry s.owned.owners) s.owned.engines)) [
        | inl taken ↦ rw taken refl
        | inr free ↦ rw free tt
      ]

  build-Ends :
      (new_engine new_registry : String) (s : Objects E)
      → Ends IsComposed IsAiEngineError (build platform b new_engine new_registry s).0
  unfolding build
  build-Ends new_engine new_registry s =
      >>=-Ends IsComposed (resolve_registry platform b new_registry b.plugin_registry) _ s
        (resolve_registry-Ends new_registry b.plugin_registry s)
        (λ registry t.
          >>=-Ends IsComposed (discover_into platform b registry b.discovery) _ t
            (discover_into-Ends registry b.discovery t)
            (λ u t.
              >>=-Ends IsComposed (own_registry platform b new_engine registry) _ t
                (own_registry-Ends new_engine registry t) (λ u t. refl)))

  module _ (left : b.authorizer ≡ none) (request : ExecutionRequest)
      (sound : IsSound (execution_engine platform b) request) (sink : NeverRaises b.audit_sink)
      (named : is_blank request.operation ≡ false)
      (host : IsWellBehavedHost (dispatcher platform b)) (t : BaseTool E)
      (found : lookup request.operation b.runtime.tool_registry ≡ returned t)
      (claims : List String) where
    kept_apart :
        (requested : Bool) (a : Option (Authorizer E))
        → a ≡ none
        → KeepsApart is_tool_run (default_authorizer platform b requested a) request claims
    kept_apart true none e =
        as_authorizer-KeepsApart (default_engine platform b) request sound.quiet_bus sink named
          is_tool_run claims is_tool_run-IsForeign
    kept_apart false none e = tt
    kept_apart requested (some a) e = cc

    same_claims :
        (requested : Bool) (a : Option (Authorizer E))
        → a ≡ none
        → effective (default_authorizer platform b requested a) claims
          ≡ (if requested then claims else [])
    same_claims true none e = refl
    same_claims false none e = refl
    same_claims requested (some a) e = cc

    -- An execution by an engine that returns a valid result, and between whose opening and closing
    -- calls no tool runs.
    abbrev RunsNoTool : World E → ExecutionEngine E → Type 0
    RunsNoTool w engine =
        Returns
          (λ r.
            IsValidResult r
            × ((middle : List Effect) × Grew is_tool_run (opening engine request w.trace) middle
                × ((Engine.execute engine request claims w).1.trace
                    ≡ closing engine request r middle)))
          (Engine.execute engine request claims w).0

    composed_guard :
        (w : World E)
        → ¬ Holds (if b.authorization_requested then claims else []) t
        → RunsNoTool w (execution_engine platform b)
    composed_guard w lacks =
        execute_guard (execution_engine platform b) request sound host t found claims w
          (kept_apart b.authorization_requested b.authorizer left)
          (subst (λ granted. ¬ Holds granted t)
            (sym (same_claims b.authorization_requested b.authorizer left)) lacks)

    -- Where the authorizer is left to the builder and the collaborators keep their contracts:
    -- `build` returns an engine or raises an AIEngineError, and for a request for a tool that
    -- declares a permission which the claims lack, or any permission if authorization was not asked
    -- for, `execute` of that engine returns a valid result, and between its opening and its closing
    -- calls no tool's code is run.
    pub build_guard :
        (new_engine new_registry : String) (s : Objects E) (w : World E)
        → ¬ Holds (if b.authorization_requested then claims else []) t
        → Ends
            (λ engine.
              Returns
                (λ r.
                  IsValidResult r
                  × ((middle : List Effect) × Grew is_tool_run
                        (opening engine.execution_engine request w.trace)
                        middle
                      × ((execute engine request claims w).1.trace
                          ≡ closing engine.execution_engine request r middle)))
                (execute engine request claims w).0)
            IsAiEngineError
            (build platform b new_engine new_registry s).0
    unfolding execute
    build_guard new_engine new_registry s w lacks =
        map-Ends IsComposed _ IsAiEngineError
          (λ engine same. subst (RunsNoTool w) (sym same) (composed_guard w lacks))
          (build platform b new_engine new_registry s).0 (build-Ends new_engine new_registry s)
