-- ===== src/Execution/ToolLoop/Refusal.antt =====
-- Tool calls that are refused.
use mellivor_kernel.Prelude.{
  ℕ, String, ◌≡◌, ◌⊎◌, refl, sym, subst, Bool, true, false, Bool-cases, some, List, [], ◌∷◌,
  contains, inl, inr,
}
use mellivor_kernel.Python.{Text, lit, text_or, Returns, Returns-witness, Returns-map}
use mellivor_kernel.World.{
  World, Effect, published, hook_called, NeverRaises, publish, notify_lem, note, call,
}
use mellivor_kernel.Events.Event.{tool_call_requested, tool_call_rejected}
use mellivor_kernel.Providers.ToolCalling.{ToolCall, make_block}
use mellivor_kernel.Execution.Engine.Closed.{Grew, note-Grew}
use mellivor_kernel.Execution.Conversation.{ToolLoopOptions}
use mellivor_kernel.Execution.ToolLoop.{ToolCallLoop, Handled, reject, after_hook, handle}
use mellivor_kernel.Execution.ToolLoop.Contract.{IsCall}

-- Every effect but the events of a request and of its refusal, and the call of the hook.
abbrev pub is_work : Effect → Bool
is_work (published (tool_call_requested _ _ _ _)) = false
is_work (published (tool_call_rejected _ _ _ _)) = false
is_work (hook_called _) = false
is_work _ = true

module _ {E : Type 0} (loop : ToolCallLoop E) (quiet : NeverRaises loop.event_bus)
    (loop_id : String) where
  -- What a refused call adds to a trace.
  abbrev refusal : ToolCall → Text → List Effect → List Effect
  refusal c reason trace =
      note loop.event_bus (published (tool_call_rejected loop_id c.id c.name reason)) trace

  abbrev pub Unexecuted : ToolCall → Handled → Type 0
  Unexecuted c h =
      (h.1.executed ≡ false)
      × (h.1.success ≡ false)
      × (h.0.is_error ≡ true)
      × (h.0.tool_call_id ≡ c.id)

  reject_lem :
      (c : ToolCall) (reason : Text) (w : World E)
      → IsCall c
      → Returns
          (λ h.
            Unexecuted c h × ((reject loop loop_id c reason w).1.trace ≡ refusal c reason w.trace))
          (reject loop loop_id c reason w).0
  unfolding reject make_block
  reject_lem c reason w h =
      let (sent, trace) =
        notify_lem loop.event_bus published (tool_call_rejected loop_id c.id c.name reason) w
          quiet in
      rw (sent, h.0) ((refl, refl, refl, refl), trace)

  reject-Grew :
      (c : ToolCall) (reason : Text) (before : List Effect) (w : World E)
      → IsCall c
      → Grew is_work before w.trace
      → Returns
          (λ h. Unexecuted c h × Grew is_work before (reject loop loop_id c reason w).1.trace)
          (reject loop loop_id c reason w).0
  reject-Grew c reason before w h grew =
      Returns-map (reject loop loop_id c reason w).0
        (λ handled facts. (
          facts.0,
          subst (Grew is_work before) (sym facts.1) (
              note-Grew is_work loop.event_bus
                (published (tool_call_rejected loop_id c.id c.name reason)) before w.trace refl
                grew),
        ))
        (reject_lem c reason w h)

  -- The world in which the hook is asked.
  abbrev pub requested : ToolCall → ℕ → World E → World E
  requested c iteration w =
      (publish loop.event_bus (tool_call_requested loop_id c.id c.name iteration) w).1

  -- The tool is not offered, or the hook refuses the call.
  abbrev pub IsRefused : List String → ToolLoopOptions E → ToolCall → ℕ → World E → Type 0
  IsRefused allowed o c iteration w =
      (contains c.name allowed ≡ false)
      ⊎ Returns (λ decision. decision.allowed ≡ false)
          (o.before_tool_call c (requested c iteration w).env).0

  -- A call of a tool that is not offered, or that the hook refuses, is not executed: it is answered
  -- with an error under its own identifier, and all that the loop does is to report the request and
  -- the refusal, and to ask the hook. No authorizer, tool or memory is called.
  pub handle_refused :
      (allowed : List String) (o : ToolLoopOptions E) (granted : List String) (iteration : ℕ)
      (c : ToolCall) (w : World E)
      → IsCall c
      → IsRefused allowed o c iteration w
      → Returns
          (λ h.
            Unexecuted c h
            × Grew is_work w.trace (handle loop loop_id allowed o granted iteration c w).1.trace)
          (handle loop loop_id allowed o granted iteration c w).0
  unfolding handle after_hook
  handle_refused allowed o granted iteration c w h refused =
      let event = tool_call_requested loop_id c.id c.name iteration in
      let (sent, trace) = notify_lem loop.event_bus published event w quiet in
      let w' = requested c iteration w in
      let reported : Grew is_work w.trace w'.trace = subst (Grew is_work w.trace) (sym trace) (
        note-Grew is_work loop.event_bus (published event) w.trace w.trace refl ([], refl, refl)) in
      let unoffered = lit "Tool is not in the offered set." ∷ [] in
      elim (Bool-cases (contains c.name allowed)) [
        | inr missing ↦ rw (sent, missing) (reject-Grew c unoffered w.trace w' h reported)
        | inl offered ↦ elim refused [
          | inl missing ↦ rw (sent, missing) (reject-Grew c unoffered w.trace w' h reported)
          | inr declined ↦
              let (decision, value, denied) =
                Returns-witness (o.before_tool_call c w'.env).0 declined in
              let asked = call (hook_called c.name) (o.before_tool_call c) in
              rw (sent, offered, value, denied)
                (reject-Grew c (text_or decision.reason (lit "Tool call declined." ∷ [])) w.trace
                  (asked w').1 h
                  (note-Grew is_work (some tt) (hook_called c.name) w.trace w'.trace refl reported))
        ]
      ]
