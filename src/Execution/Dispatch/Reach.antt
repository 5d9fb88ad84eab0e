-- ===== src/Execution/Dispatch/Reach.antt =====
-- What code outside the kernel a dispatch reaches.
use mellivor_kernel.Prelude.{
  String, ◌≡◌, refl, ◌⊎◌, inl, inr, List, ◌∷◌, map, true, contains, arith,
}
use mellivor_kernel.Python.{Exception, Result, returned, raised}
use mellivor_kernel.World.{World, Effect, tool_validated, tool_executed, provider_invoked}
use mellivor_kernel.Tools.Permissions.{Permission, permission_values, make_permissions}
use mellivor_kernel.Tools.Permissions.Claims.{
  as_permission, make_permissions_cases, permission_values-map,
}
use mellivor_kernel.Tools.Base.{BaseTool}
use mellivor_kernel.Tools.Registry.{lookup}
use mellivor_kernel.Tools.Pipeline.{run}
use mellivor_kernel.Tools.Pipeline.Gate.{run_gate}
use mellivor_kernel.Providers.Registry.{BaseProvider, get}
use mellivor_kernel.Execution.Request.{ExecutionTarget, ExecutionRequest, tool, provider}
use mellivor_kernel.Execution.Dispatch.{
  Dispatcher, found_tool, run_tool, found_provider, invoke_timed, dispatch,
}

-- Every permission that the tool declares is among the granted texts.
abbrev pub Holds : {E : Type 0} → List String → BaseTool E → Type 0
Holds granted t =
    (v : String) → contains v (permission_values t.permissions) ≡ true → contains v granted ≡ true

pub target-cases : (t : ExecutionTarget) → (t ≡ tool) ⊎ (t ≡ provider)
target-cases tool = inl refl
target-cases provider = inr refl

module _ {E : Type 0} (dispatcher : Dispatcher E) (request : ExecutionRequest)
    (granted : List String) where
  -- The calls that a dispatch makes, the newest first: none; the requested provider's `invoke`; or
  -- the requested tool's `validate`, and `execute` behind it only for a tool whose permissions are
  -- all granted.
  pub data Reached (before : List Effect) : List Effect → Type 0 where
    nothing : Reached before before
    invoked :
        (p : BaseProvider E)
        → request.target ≡ provider
        → get request.operation dispatcher.provider_registry ≡ returned p
        → Reached before (provider_invoked p.name ∷ before)
    validated :
        (t : BaseTool E)
        → request.target ≡ tool
        → lookup request.operation dispatcher.tool_registry ≡ returned t
        → Reached before (tool_validated t.id ∷ before)
    executed :
        (t : BaseTool E)
        → request.target ≡ tool
        → lookup request.operation dispatcher.tool_registry ≡ returned t
        → Holds granted t
        → Reached before (tool_executed t.id ∷ tool_validated t.id ∷ before)

  run_tool-trace :
      (t : BaseTool E) (permissions : List Permission) (w : World E)
      → (run_tool dispatcher request t (returned permissions) w).1.trace
        ≡ (run dispatcher.timer t request.payload permissions w).1.trace
  unfolding run_tool
  run_tool-trace t permissions w = ground arith

  refused-trace :
      (t : BaseTool E) (e : Exception) (w : World E)
      → (run_tool dispatcher request t (raised e) w).1.trace ≡ w.trace
  unfolding run_tool
  refused-trace t e w = ground arith

  run_tool-Reached :
      (t : BaseTool E) (w : World E)
      → request.target ≡ tool
      → lookup request.operation dispatcher.tool_registry ≡ returned t
      → Reached w.trace (run_tool dispatcher request t (make_permissions granted) w).1.trace
  run_tool-Reached t w target found = elim (make_permissions_cases granted) [
    | inl (good, e) ↦
        rw (e, run_tool-trace t (map as_permission granted) w)
          (elim (run_gate dispatcher.timer t request.payload (map as_permission granted) w) [
            | inl stopped ↦ rw stopped (validated t target found)
            | inr (ran, valid, covers) ↦ rw ran (
                executed t target found
                  λ v needs. rw (permission_values-map granted) at (covers v needs))
          ])
    | inr (bad, (refused, e, refusal)) ↦ rw (e, refused-trace t refused w) nothing
  ]

  found_tool-Reached :
      (r : Result (BaseTool E)) (w : World E)
      → request.target ≡ tool
      → lookup request.operation dispatcher.tool_registry ≡ r
      → Reached w.trace (found_tool dispatcher request granted r w).1.trace
  unfolding found_tool
  found_tool-Reached (raised e) w target found = rw (missing-trace e w) nothing
    where
      missing-trace :
          (e : Exception) (w : World E)
          → (found_tool dispatcher request granted (raised e) w).1.trace ≡ w.trace
      missing-trace e w = ground arith
  found_tool-Reached (returned t) w target found = run_tool-Reached t w target found

  found_provider-Reached :
      (r : Result (BaseProvider E)) (w : World E)
      → request.target ≡ provider
      → get request.operation dispatcher.provider_registry ≡ r
      → Reached w.trace (found_provider dispatcher request r w).1.trace
  unfolding found_provider invoke_timed
  found_provider-Reached (raised e) w target found = rw (missing-trace e w) nothing
    where
      missing-trace :
          (e : Exception) (w : World E)
          → (found_provider dispatcher request (raised e) w).1.trace ≡ w.trace
      missing-trace e w = ground arith
  found_provider-Reached (returned p) w target found = invoked p target found

  pub dispatch-tool :
      (w : World E)
      → request.target ≡ tool
      → dispatch dispatcher request granted w
        ≡ found_tool dispatcher request granted
            (lookup request.operation dispatcher.tool_registry)
            w
  unfolding dispatch
  dispatch-tool w target = ground arith

  pub dispatch-provider :
      (w : World E)
      → request.target ≡ provider
      → dispatch dispatcher request granted w
        ≡ found_provider dispatcher request (get request.operation dispatcher.provider_registry) w
  unfolding dispatch
  dispatch-provider w target = ground arith

  -- A dispatch calls only the code that the request names: one provider, or one tool, whose own
  -- code runs behind its validation and only if the granted texts hold all of its permissions.
  pub dispatch-Reached :
      (w : World E) → Reached w.trace (dispatch dispatcher request granted w).1.trace
  dispatch-Reached w = elim (target-cases request.target) [
    | inl target ↦ rw (dispatch-tool w target) (found_tool-Reached _ w target refl)
    | inr target ↦ rw (dispatch-provider w target) (found_provider-Reached _ w target refl)
  ]
