-- ===== src/Execution/Engine/Contract.antt =====
-- What the callers of the execution engine rely on.
use mellivor_kernel.Prelude.{String, ◌≡◌, false, List}
use mellivor_kernel.Python.{is_blank, Returns, Returns-map}
use mellivor_kernel.World.{World}
use mellivor_kernel.Execution.Request.{ExecutionRequest}
use mellivor_kernel.Execution.Result.{IsValidResult}
use mellivor_kernel.Execution.Dispatch.Total.{IsWellBehavedHost}
use mellivor_kernel.Execution.Engine.{ExecutionEngine, execute}
use mellivor_kernel.Execution.Engine.Finish.{IsSound}
use mellivor_kernel.Execution.Engine.Closed.{KeepsApart}
use mellivor_kernel.Execution.Engine.Lifecycle.{is_lifecycle, execute_lifecycle}

-- A request that its constructor accepts.
abbrev pub IsRequest : ExecutionRequest → Type 0
IsRequest request = (is_blank request.operation ≡ false) × (is_blank request.request_id ≡ false)

-- For each request that was constructed the collaborators of the engine keep their contracts.
pub record IsDependableEngine {E : Type 0} (engine : ExecutionEngine E) : Type 0 where
  pub sound : (request : ExecutionRequest) → IsRequest request → IsSound engine request
  pub host : IsWellBehavedHost engine.dispatcher
  pub decides :
      (request : ExecutionRequest) (claims : List String)
      → IsRequest request
      → KeepsApart is_lifecycle engine.authorizer request claims

pub execute-Returns :
    {E : Type 0} (engine : ExecutionEngine E) (request : ExecutionRequest) (claims : List String)
    (w : World E)
    → IsDependableEngine engine
    → IsRequest request
    → Returns IsValidResult (execute engine request claims w).0
execute-Returns engine request claims w h constructed =
    Returns-map (execute engine request claims w).0 (λ r facts. facts.0)
      (execute_lifecycle engine request (h.sound request constructed) h.host claims w
        (h.decides request claims constructed))
