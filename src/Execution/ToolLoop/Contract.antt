-- ===== src/Execution/ToolLoop/Contract.antt =====
-- What a tool loop relies on, and what its calls come to.
use mellivor_kernel.Prelude.{
  ℕ, String, ◌≡◌, refl, subst, Bool, true, false, not, Bool-cases, Option, none, some, List, [],
  ◌∷◌, contains, inl, inr, All, get, if◌then◌else◌,
}
use mellivor_kernel.Python.{
  Payload, Text, lit, text_or, is_blank, Result, returned, raised, Returns, >>=-Returns,
  Returns-witness,
}
use mellivor_kernel.World.{
  World, NeverRaises, publish, published, notify_lem, fresh, call, hook_called,
}
use mellivor_kernel.Events.Event.{
  Event, tool_call_requested, tool_call_completed, tool_call_rejected,
}
use mellivor_kernel.Providers.ToolCalling.{ToolCall, make_block}
pub use mellivor_kernel.Providers.ToolCalling.{IsCall}
use mellivor_kernel.Execution.Request.{
  ExecutionRequest, ExecutionTarget, tool, provider, make_request,
}
use mellivor_kernel.Execution.Result.{ExecutionResult, IsValidResult}
use mellivor_kernel.Execution.Engine.{execute}
use mellivor_kernel.Execution.Engine.Contract.{IsDependableEngine, execute-Returns}
use mellivor_kernel.Execution.Engine.Carried.{execute-Carries}
use mellivor_kernel.Execution.Dispatch.Provided.{Provides, Carries}
use mellivor_kernel.Execution.Conversation.{ToolCallDecision, ToolLoopOptions}
use mellivor_kernel.Execution.ToolLoop.{
  ToolCallLoop, Dumped, dumped, unserializable, broken, Handled, calls_of, render, request, reject,
  complete, after_hook, handle, handle_all,
}

abbrev IsDumped : Dumped → Type 0
IsDumped (broken e) = ⊥
IsDumped _ = Unit

-- The tool calls that a response carries.
abbrev pub AreCalls : Payload → Type 0
AreCalls payload = All IsCall (calls_of (get "tool_calls" payload))

-- The collaborators keep their contracts, identifiers are not blank, a payload can be rendered, and
-- the tool calls that a provider answers are objects that were constructed.
pub record IsDependableLoop {E : Type 0} (loop : ToolCallLoop E) : Type 0 where
  pub execution : IsDependableEngine loop.engine
  pub quiet : NeverRaises loop.event_bus
  pub identified : (env : E) → is_blank (loop.new_id env).0 ≡ false
  pub rendered : (p : Payload) → IsDumped (loop.dumps p)
  pub constructed : Provides AreCalls loop.engine.dispatcher

-- A hook that never raises.
abbrev pub Decides : {E : Type 0} → ToolLoopOptions E → Type 0
Decides {E} o = (c : ToolCall) (env : E) → Returns (λ d. Unit) (o.before_tool_call c env).0

-- A call is answered under its own identifier, by what its record says, and is executed only if its
-- tool is offered.
pub record IsHandled (allowed : List String) (c : ToolCall) (h : Handled) : Type 0 where
  pub answered : h.0.tool_call_id ≡ c.id
  pub recorded : h.1.called ≡ c
  pub content : h.0.content ≡ h.1.result
  pub flagged : h.0.is_error ≡ not h.1.success
  pub offered : h.1.executed ≡ true → contains c.name allowed ≡ true
  pub succeeded : h.1.success ≡ true → h.1.executed ≡ true

abbrev pub AreHandled : List String → List ToolCall → List Handled → Type 0
AreHandled allowed [] [] = Unit
AreHandled allowed (c ∷ cs) (h ∷ hs) = IsHandled allowed c h × AreHandled allowed cs hs
AreHandled allowed _ _ = ⊥

module _ {E : Type 0} (loop : ToolCallLoop E) (dependable : IsDependableLoop loop) where
  publish-Returns :
      (event : Event) (w : World E) → Returns (λ u. Unit) (publish loop.event_bus event w).0
  publish-Returns event w =
      let (sent, _) = notify_lem loop.event_bus published event w dependable.quiet in rw sent tt

  render-Returns : (p : Option Payload) → Returns (λ t. Unit) (render loop p)
  unfolding render
  render-Returns none = tt
  render-Returns (some p) = go (loop.dumps p) (dependable.rendered p)
    where
      go :
          (d : Dumped)
          → IsDumped d
          → Returns
              (λ t. Unit)
              (elim d [
                | dumped t ↦ returned t
                | unserializable ↦ returned (loop.to_str p)
                | broken e ↦ raised e
              ])
      go (dumped t) h = tt
      go unserializable h = tt
      go (broken e) h = absurd h

  -- An execution of a new request returns a valid result, and the tool calls in a provider's response
  -- were constructed.
  pub request-Returns :
      (target : ExecutionTarget) (operation : String) (payload : Payload) (granted : List String)
      (w : World E)
      → is_blank operation ≡ false
      → Returns
          (λ r. IsValidResult r × (target ≡ provider → Carries AreCalls (returned r)))
          (request loop target operation payload granted w).0
  unfolding request make_request
  request-Returns target operation payload granted w named =
      let id = (loop.new_id w.env).0 in
      let new = dependable.identified w.env in
      let r : ExecutionRequest = record {
        target = target;
        operation = operation;
        payload = payload;
        request_id = id;
      } in
      let w' = (fresh loop.new_id w).1 in
      let (result, value, valid) =
        Returns-witness (execute loop.engine r granted w').0
          (execute-Returns loop.engine r granted w' dependable.execution (named, new)) in
      let carried = λ (is_provider : target ≡ provider).
        execute-Carries AreCalls loop.engine r granted w' dependable.constructed is_provider
          (dependable.execution.sound r (named, new)) dependable.execution.host in
      rw (named, new, value)
        (valid, λ is_provider. subst (Carries AreCalls) value (carried is_provider))

  module _ (loop_id : String) (allowed : List String) where
    reject-Returns :
        (c : ToolCall) (reason : Text) (w : World E)
        → IsCall c
        → Returns (IsHandled allowed c) (reject loop loop_id c reason w).0
    unfolding reject make_block
    reject-Returns c reason w h =
        let (sent, _) =
          notify_lem loop.event_bus published (tool_call_rejected loop_id c.id c.name reason) w
            dependable.quiet in
        rw (sent, h.0)
          (record {
            answered = refl;
            recorded = refl;
            content = refl;
            flagged = refl;
            offered = λ e. absurd (cc);
            succeeded = λ e. absurd (cc);
          })

    abbrev content_for : Bool → ExecutionResult → Result Text
    content_for success outcome =
        if success
        then render loop outcome.payload
        else returned (text_or outcome.error_text (lit "Tool execution failed." ∷ []))

    content_for-Returns :
        (success : Bool) (outcome : ExecutionResult)
        → Returns (λ t. Unit) (content_for success outcome)
    content_for-Returns true outcome = render-Returns outcome.payload
    content_for-Returns false outcome = tt

    complete-Returns :
        (c : ToolCall) (outcome : ExecutionResult) (w : World E)
        → IsCall c
        → contains c.name allowed ≡ true
        → Returns (IsHandled allowed c) (complete loop loop_id c outcome w).0
    unfolding complete make_block
    complete-Returns c outcome w h offered =
        let (rendered, value, _) =
          Returns-witness (content_for outcome.success outcome)
            (content_for-Returns outcome.success outcome) in
        let (sent, _) =
          notify_lem loop.event_bus published
            (tool_call_completed loop_id c.id c.name outcome.success) w dependable.quiet in
        rw (value, sent, h.0)
          (record {
            answered = refl;
            recorded = refl;
            content = refl;
            flagged = refl;
            offered = λ e. offered;
            succeeded = λ e. refl;
          })

    module _ (o : ToolLoopOptions E) (decides : Decides o) (granted : List String) where
      after_hook-Returns :
          (c : ToolCall) (decision : ToolCallDecision) (w : World E)
          → IsCall c
          → contains c.name allowed ≡ true
          → Returns (IsHandled allowed c) (after_hook loop loop_id c decision granted w).0
      unfolding after_hook
      after_hook-Returns c decision w h offered = elim (Bool-cases decision.allowed) [
        | inl goes_on ↦ rw goes_on (
            >>=-Returns (λ r. IsValidResult r × (tool ≡ provider → Carries AreCalls (returned r)))
              (IsHandled allowed c) (request loop tool c.name c.arguments granted)
              (complete loop loop_id c) w (request-Returns tool c.name c.arguments granted w h.1)
              (λ outcome w' _. complete-Returns c outcome w' h offered))
        | inr refused ↦
            rw refused
              (reject-Returns c (text_or decision.reason (lit "Tool call declined." ∷ [])) w h)
      ]

      pub handle-Returns :
          (iteration : ℕ) (c : ToolCall) (w : World E)
          → IsCall c
          → Returns (IsHandled allowed c) (handle loop loop_id allowed o granted iteration c w).0
      unfolding handle
      handle-Returns iteration c w h =
          let event = tool_call_requested loop_id c.id c.name iteration in
          let (sent, _) = notify_lem loop.event_bus published event w dependable.quiet in
          let w' = (publish loop.event_bus event w).1 in
          elim (Bool-cases (contains c.name allowed)) [
            | inl offered ↦
                let hook = call (hook_called c.name) (o.before_tool_call c) in
                let (decision, value, _) =
                  Returns-witness (o.before_tool_call c w'.env).0 (decides c w'.env) in
                rw (sent, offered, value) (after_hook-Returns c decision (hook w').1 h offered)
            | inr missing ↦
                rw (sent, missing)
                  (reject-Returns c (lit "Tool is not in the offered set." ∷ []) w' h)
          ]

      -- The calls of a round, each handled, in their order.
      pub handle_all-Returns :
          (iteration : ℕ) (calls : List ToolCall) (w : World E)
          → All IsCall calls
          → Returns
              (AreHandled allowed calls)
              (handle_all loop loop_id allowed o granted iteration calls w).0
      unfolding handle_all
      handle_all-Returns iteration [] w h = tt
      handle_all-Returns iteration (c ∷ calls) w h =
          >>=-Returns (IsHandled allowed c) (AreHandled allowed (c ∷ calls))
            (handle loop loop_id allowed o granted iteration c) _ w
            (handle-Returns iteration c w h.0)
            (λ one w' first.
              >>=-Returns (AreHandled allowed calls) (AreHandled allowed (c ∷ calls))
                (handle_all loop loop_id allowed o granted iteration calls) _ w'
                (handle_all-Returns iteration calls w' h.1) (λ rest w'' later. (first, later)))
