-- ===== src/Examples/Executing.antt =====
-- The theorems about the execution engine, on the engines of the samples.
use mellivor_kernel.Prelude.{inl, false, String, get, ◌≡◌, refl, none, List, [], ◌∷◌, arith}
use mellivor_kernel.Python.{Returns, returned}
use mellivor_kernel.World.{Effect}
use mellivor_kernel.Tools.Registry.{lookup}
use mellivor_kernel.Registry
use mellivor_kernel.Execution.Result.{IsValidResult}
use mellivor_kernel.Execution.Dispatch.Reach.{Holds}
use mellivor_kernel.Execution.Engine.{AuthorizationOutcome, denial, start, execute}
use mellivor_kernel.Execution.Engine.Denied.{execute_denied}
use mellivor_kernel.Execution.Engine.Finish.{opening, closing}
use mellivor_kernel.Execution.Engine.Closed.{Grew, KeepsApart}
use mellivor_kernel.Execution.Engine.Lifecycle.{is_lifecycle, execute_lifecycle}
use mellivor_kernel.Execution.Engine.Guard.{is_tool_run, execute_guard}
use mellivor_kernel.Execution.Engine.Isolation.{execute_isolated}
use mellivor_kernel.Authorization.Authorizer.{as_authorizer-KeepsApart}
use mellivor_kernel.Examples.Samples.{
  denying_engine, denying_engine-IsSound, read_tool, host_tools, host_authorization,
  host-IsWellBehaved, guarded_engine, guarded_engine-IsSound, open_engine, open_engine-IsSound,
  new_world, read_request,
}
use mellivor_kernel.Examples.Authorizing.{read_request-named, is_lifecycle-IsForeign}

guarded_KeepsApart :
    (claims : List String) → KeepsApart is_lifecycle guarded_engine.authorizer read_request claims
guarded_KeepsApart claims =
    as_authorizer-KeepsApart host_authorization read_request (λ e env. refl) (λ a env. refl)
      read_request-named is_lifecycle claims is_lifecycle-IsForeign

execute_lifecycle_example :
    Returns
      (λ r.
        IsValidResult r
        × ((middle : List Effect) × Grew is_lifecycle
              (opening guarded_engine read_request [])
              middle
            × ((execute guarded_engine read_request ("filesystem.read" ∷ []) new_world).1.trace
                ≡ closing guarded_engine read_request r middle)))
      (execute guarded_engine read_request ("filesystem.read" ∷ []) new_world).0
execute_lifecycle_example =
    execute_lifecycle guarded_engine read_request guarded_engine-IsSound host-IsWellBehaved
      ("filesystem.read" ∷ []) new_world (guarded_KeepsApart ("filesystem.read" ∷ []))

pub read_tool_found : lookup "read_file" host_tools ≡ returned read_tool
unfolding lookup Registry.lookup get
read_tool_found = refl

pub nothing_held : ¬ Holds [] read_tool
nothing_held h = ground (arith, h "filesystem.read" refl)

execute_guard_example :
    Returns
      (λ r.
        IsValidResult r
        × ((middle : List Effect) × Grew is_tool_run (opening open_engine read_request []) middle
            × ((execute open_engine read_request ("filesystem.read" ∷ []) new_world).1.trace
                ≡ closing open_engine read_request r middle)))
      (execute open_engine read_request ("filesystem.read" ∷ []) new_world).0
execute_guard_example =
    execute_guard open_engine read_request open_engine-IsSound host-IsWellBehaved read_tool
      read_tool_found ("filesystem.read" ∷ []) new_world tt nothing_held

execute_isolated_example :
    (execute
      (record guarded_engine { memory = none })
      read_request
      ("filesystem.read" ∷ [])
      new_world).0
    ≡ (execute guarded_engine read_request ("filesystem.read" ∷ []) new_world).0
execute_isolated_example =
    execute_isolated guarded_engine none read_request ("filesystem.read" ∷ []) new_world
      guarded_engine-IsSound host-IsWellBehaved

abbrev no_reason : AuthorizationOutcome
no_reason = record { granted = false; reason = none }

execute_denied_example :
    ((execute denying_engine read_request [] new_world).0
      ≡ returned (denial read_request no_reason))
    × ((execute denying_engine read_request [] new_world).1.trace
        ≡ closing denying_engine read_request
            (denial read_request no_reason)
            (start denying_engine read_request new_world).1.trace)
execute_denied_example =
    execute_denied denying_engine read_request denying_engine-IsSound
      (λ request claims w. (returned no_reason, w)) refl [] new_world no_reason refl refl (inl refl)
