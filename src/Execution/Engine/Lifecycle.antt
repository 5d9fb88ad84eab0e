-- ===== src/Execution/Engine/Lifecycle.antt =====
-- Every execution: one start, what happens between, and one end.
use mellivor_kernel.Prelude.{String, ◌≡◌, refl, Bool, true, false, List, [], ◌∷◌}
use mellivor_kernel.Python.{Returns}
use mellivor_kernel.World.{
  World, Effect, published, tool_validated, tool_executed, provider_invoked,
}
use mellivor_kernel.Events.Event.{execution_started, execution_completed, execution_failed}
use mellivor_kernel.Execution.Request.{ExecutionRequest}
use mellivor_kernel.Execution.Result.{IsValidResult}
use mellivor_kernel.Execution.Dispatch.Reach.{Reached, nothing, invoked, validated, executed}
use mellivor_kernel.Execution.Dispatch.Total.{IsWellBehavedHost}
use mellivor_kernel.Execution.Engine.{ExecutionEngine, execute}
use mellivor_kernel.Execution.Engine.Finish.{IsSound, closing, opening}
use mellivor_kernel.Execution.Engine.Closed.{Grew, KeepsApart, effective, execute-Closed}

-- The events that open and close an execution.
abbrev pub is_lifecycle : Effect → Bool
is_lifecycle (published (execution_started _ _ _)) = true
is_lifecycle (published (execution_completed _ _ _ _)) = true
is_lifecycle (published (execution_failed _ _ _ _ _)) = true
is_lifecycle _ = false

module _ {E : Type 0} (engine : ExecutionEngine E) (request : ExecutionRequest)
    (sound : IsSound engine request) (host : IsWellBehavedHost engine.dispatcher) where
  dispatched_apart :
      (granted : List String) (before after : List Effect)
      → Reached engine.dispatcher request granted before after
      → Grew is_lifecycle before after
  dispatched_apart granted before after nothing = ([], refl, refl)
  dispatched_apart granted before after (invoked p _ _) = (provider_invoked p.name ∷ [], refl, refl)
  dispatched_apart granted before after (validated t _ _) = (tool_validated t.id ∷ [], refl, refl)
  dispatched_apart granted before after (executed t _ _ _) =
      (tool_executed t.id ∷ tool_validated t.id ∷ [], refl, refl)

  -- For collaborators that keep their contracts `execute` returns a result that its constructor
  -- accepts. Its calls are, in this order: the start event and observation; calls between, none of
  -- which is an event of an execution; and one terminal event, one observation and one memory
  -- entry that report the returned result, each where there is a bus, a sink or a store for it.
  pub execute_lifecycle :
      (claims : List String) (w : World E)
      → KeepsApart is_lifecycle engine.authorizer request claims
      → Returns
          (λ r.
            IsValidResult r
            × ((middle : List Effect) × Grew is_lifecycle (opening engine request w.trace) middle
                × ((execute engine request claims w).1.trace ≡ closing engine request r middle)))
          (execute engine request claims w).0
  execute_lifecycle claims w h =
      execute-Closed engine request sound host is_lifecycle claims w h
        (dispatched_apart (effective engine.authorizer claims))
