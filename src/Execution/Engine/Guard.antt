-- ===== src/Execution/Engine/Guard.antt =====
-- No tool runs without its permissions, whatever the configuration of the engine.
use mellivor_kernel.Prelude.{String, ◌≡◌, refl, sym, ◌∙◌, subst, Bool, true, false, List, [], ◌∷◌}
use mellivor_kernel.Python.{returned-injective, Returns, returned}
use mellivor_kernel.World.{World, Effect, tool_validated, tool_executed, provider_invoked}
use mellivor_kernel.Tools.Base.{BaseTool}
use mellivor_kernel.Tools.Registry.{lookup}
use mellivor_kernel.Execution.Request.{ExecutionRequest}
use mellivor_kernel.Execution.Result.{IsValidResult}
use mellivor_kernel.Execution.Dispatch.Reach.{Reached, Holds, nothing, invoked, validated, executed}
use mellivor_kernel.Execution.Dispatch.Total.{IsWellBehavedHost}
use mellivor_kernel.Execution.Engine.{ExecutionEngine, execute}
use mellivor_kernel.Execution.Engine.Finish.{IsSound, closing, opening}
use mellivor_kernel.Execution.Engine.Closed.{Grew, KeepsApart, effective, execute-Closed}

-- The run of a tool's own code.
abbrev pub is_tool_run : Effect → Bool
is_tool_run (tool_executed _) = true
is_tool_run _ = false

module _ {E : Type 0} (engine : ExecutionEngine E) (request : ExecutionRequest)
    (sound : IsSound engine request) (host : IsWellBehavedHost engine.dispatcher) (t : BaseTool E)
    (found : lookup request.operation engine.dispatcher.tool_registry ≡ returned t) where
  not_run :
      (granted : List String) (before after : List Effect)
      → ¬ Holds granted t
      → Reached engine.dispatcher request granted before after
      → Grew is_tool_run before after
  not_run granted before after lacks nothing = ([], refl, refl)
  not_run granted before after lacks (invoked p _ _) = (provider_invoked p.name ∷ [], refl, refl)
  not_run granted before after lacks (validated u _ _) = (tool_validated u.id ∷ [], refl, refl)
  not_run granted before after lacks (executed u _ same holds) =
      absurd (lacks (subst (Holds granted) (returned-injective (sym same ∙ found)) holds))

  -- For collaborators that keep their contracts: where the claims lack a permission that the
  -- requested tool declares, or where there is no authorizer and the tool declares any, `execute`
  -- returns a valid result, and between its opening and its closing calls the tool's code is not
  -- run.
  pub execute_guard :
      (claims : List String) (w : World E)
      → KeepsApart is_tool_run engine.authorizer request claims
      → ¬ Holds (effective engine.authorizer claims) t
      → Returns
          (λ r.
            IsValidResult r
            × ((middle : List Effect) × Grew is_tool_run (opening engine request w.trace) middle
                × ((execute engine request claims w).1.trace ≡ closing engine request r middle)))
          (execute engine request claims w).0
  execute_guard claims w h lacks =
      execute-Closed engine request sound host is_tool_run claims w h
        (λ before after. not_run (effective engine.authorizer claims) before after lacks)
