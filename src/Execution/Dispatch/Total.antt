-- ===== src/Execution/Dispatch/Total.antt =====
-- A dispatch returns a result, for tools and providers that keep their contracts.
use mellivor_kernel.Prelude.{
  ℤ, is_negative, String, ◌≡◌, ◌≤◌, refl, ◌⊎◌, inl, inr, List, false, arith,
}
use mellivor_kernel.Python.{
  Payload, Exception, Result, returned, raised, Returns, is_blank_text, has_text, lift, ◌>>=◌,
}
use mellivor_kernel.World.{World}
use mellivor_kernel.Registry.{not_registered}
use mellivor_kernel.Registry.Laws.{lookup_cases}
use mellivor_kernel.Tools.Permissions.{make_permissions}
use mellivor_kernel.Tools.Permissions.Claims.{make_permissions_cases}
use mellivor_kernel.Tools.Base.{BaseTool, ToolResult, IsValidToolResult}
use mellivor_kernel.Tools.Registry.{ToolRegistry, tool_kind, lookup}
use mellivor_kernel.Tools.Pipeline.{Timer}
use mellivor_kernel.Tools.Pipeline.Total.{IsWellBehaved, run_total}
use mellivor_kernel.Providers.Registry.{BaseProvider, ProviderRegistry, provider_kind, get}
use mellivor_kernel.Execution.Request.{ExecutionRequest}
use mellivor_kernel.Execution.Result.{IsValidResult, make_result}
use mellivor_kernel.Execution.Dispatch.{
  Dispatcher, of_tool_result, found_tool, run_tool, found_provider, invoke_timed, timed_response,
  dispatch,
}
use mellivor_kernel.Execution.Dispatch.Reach.{target-cases, dispatch-tool, dispatch-provider}

-- What a provider has to keep to: its exceptions have a text, and the timer never goes back.
pub record IsWellBehavedProvider {E : Type 0} (timer : Timer E) (p : BaseProvider E) : Type 0 where
  pub invoke_error :
      (request : Payload) (env : E) (e : Exception)
      → (p.invoke request env).0 ≡ raised e
      → is_blank_text e.message ≡ false
  pub timer_monotone :
      (request : Payload) (env : E) → (timer env).0 ≤ (timer (p.invoke request (timer env).1).1).0

-- Every tool and every provider that can be dispatched to keeps its contract.
pub record IsWellBehavedHost {E : Type 0} (dispatcher : Dispatcher E) : Type 0 where
  pub tools :
      (id : String) (t : BaseTool E)
      → lookup id dispatcher.tool_registry ≡ returned t
      → IsWellBehaved dispatcher.timer t
  pub providers :
      (name : String) (p : BaseProvider E)
      → get name dispatcher.provider_registry ≡ returned p
      → IsWellBehavedProvider dispatcher.timer p

tool_lookup_cases :
    {E : Type 0} (id : String) (tools : ToolRegistry E)
    → (lookup id tools ≡ raised (not_registered (tool_kind {E = E}) id))
      ⊎ ((t : BaseTool E) × (lookup id tools ≡ returned t))
unfolding lookup
tool_lookup_cases {E} id tools = lookup_cases (tool_kind {E = E}) id tools

provider_lookup_cases :
    {E : Type 0} (name : String) (providers : ProviderRegistry E)
    → (get name providers ≡ raised (not_registered (provider_kind {E = E}) name))
      ⊎ ((p : BaseProvider E) × (get name providers ≡ returned p))
unfolding get
provider_lookup_cases {E} name providers = lookup_cases (provider_kind {E = E}) name providers

module _ {E : Type 0} (dispatcher : Dispatcher E) (request : ExecutionRequest) where
  of_tool_result-Returns :
      (r : ToolResult)
      → IsValidToolResult r
      → Returns IsValidResult (of_tool_result dispatcher request r)
  unfolding of_tool_result make_result
  of_tool_result-Returns r h = ground (arith, h.failed, h.succeeded, h.timed)

  finish-Returns :
      (o : Result ToolResult) (w : World E)
      → Returns IsValidToolResult o
      → Returns IsValidResult ((lift o >>= λ r. lift (of_tool_result dispatcher request r)) w).0
  finish-Returns (raised e) w h = h
  finish-Returns (returned r) w h = of_tool_result-Returns r h

  run_tool-Returns :
      (t : BaseTool E) (granted : List String) (w : World E)
      → IsWellBehaved dispatcher.timer t
      → Returns IsValidResult (run_tool dispatcher request t (make_permissions granted) w).0
  unfolding run_tool make_result has_text
  run_tool-Returns t granted w h = elim (make_permissions_cases granted) [
    | inl (good, e) ↦ rw e (finish-Returns _ _ (run_total dispatcher.timer t request.payload _ w h))
    | inr (bad, (refused, e, refusal)) ↦ rw e (ground arith)
  ]

  timed_response-Returns :
      (o : Result Payload) (elapsed : ℤ)
      → is_negative elapsed ≡ false
      → ((e : Exception) → o ≡ raised e → is_blank_text e.message ≡ false)
      → Returns IsValidResult (timed_response dispatcher request o elapsed)
  unfolding timed_response make_result has_text
  timed_response-Returns (raised e) elapsed time on_error = ground (arith, on_error e refl)
  timed_response-Returns (returned r) elapsed time on_error = ground arith

  invoke_timed-Returns :
      (p : BaseProvider E) (w : World E)
      → IsWellBehavedProvider dispatcher.timer p
      → Returns IsValidResult (invoke_timed dispatcher request p w).0
  unfolding invoke_timed
  invoke_timed-Returns p w h =
      timed_response-Returns _ _ (ground (arith, h.timer_monotone request.payload w.env))
        (h.invoke_error request.payload (dispatcher.timer w.env).1)

  found_tool-Returns :
      (granted : List String) (w : World E)
      → IsWellBehavedHost dispatcher
      → Returns IsValidResult
          (found_tool dispatcher request granted
            (lookup request.operation dispatcher.tool_registry)
            w).0
  unfolding found_tool make_result has_text is_blank_text
  found_tool-Returns granted w h =
      elim (tool_lookup_cases request.operation dispatcher.tool_registry) [
        | inl missing ↦ rw missing (ground arith)
        | inr (t, found) ↦
            rw found (run_tool-Returns t granted w (h.tools request.operation t found))
      ]

  found_provider-Returns :
      (w : World E)
      → IsWellBehavedHost dispatcher
      → Returns IsValidResult
          (found_provider dispatcher request
            (get request.operation dispatcher.provider_registry)
            w).0
  unfolding found_provider make_result has_text is_blank_text
  found_provider-Returns w h =
      elim (provider_lookup_cases request.operation dispatcher.provider_registry) [
        | inl missing ↦ rw missing (ground arith)
        | inr (p, found) ↦
            rw found (invoke_timed-Returns p w (h.providers request.operation p found))
      ]

  -- For tools and providers that keep their contracts a dispatch returns a result that its
  -- constructor accepts: an unknown tool or provider, a text that is no permission, and an
  -- exception raised by the code that it calls are all results.
  pub dispatch_total :
      (granted : List String) (w : World E)
      → IsWellBehavedHost dispatcher
      → Returns IsValidResult (dispatch dispatcher request granted w).0
  dispatch_total granted w h = elim (target-cases request.target) [
    | inl target ↦
        rw (dispatch-tool dispatcher request granted w target) (found_tool-Returns granted w h)
    | inr target ↦
        rw (dispatch-provider dispatcher request granted w target) (found_provider-Returns w h)
  ]
