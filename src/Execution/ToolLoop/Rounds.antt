-- ===== src/Execution/ToolLoop/Rounds.antt =====
-- src/mellivor_kernel/execution/tool_loop.py: ToolCallLoop.run
use mellivor_kernel.Prelude.{
  ℕ, zero, suc, ℤ, pos, negsuc, String, true, false, not, Option, none, some, List, [], ◌∷◌, ◌++◌,
  map, is_nil, if◌then◌else◌,
}
use mellivor_kernel.Python.{
  Payload, Text, lit, number_pieces, text_or, raised, error, tool_loop_error, Action, pure, lift,
  ◌>>=◌, ◌>>◌,
}
use mellivor_kernel.World.{World, fresh}
use mellivor_kernel.Providers.ToolCalling.{
  ToolSpec, ToolCall, assistant_message, tool_results_message,
}
use mellivor_kernel.Execution.Request.{provider}
use mellivor_kernel.Execution.Result.{ExecutionResult}
use mellivor_kernel.Execution.Conversation.{ToolCallRecord, ToolLoopResult, ToolLoopOptions}
use mellivor_kernel.Execution.ToolLoop.{
  ToolCallLoop, parse, provider_payload, describe, require_tool_calls, request, handle_all,
}

abbrev pub failed_run : List Payload → List ToolCallRecord → ℕ → Option Text → ToolLoopResult
failed_run history records iteration error_text = record {
  success = false;
  text = none;
  messages = history;
  tool_calls = records;
  iterations = iteration;
  exhausted = false;
  error_text = some (text_or error_text (lit "Provider returned no payload." ∷ []));
}

abbrev pub answered_run : List Payload → List ToolCallRecord → ℕ → Text → ToolLoopResult
answered_run history records iteration text = record {
  success = true;
  text = some text;
  messages = history;
  tool_calls = records;
  iterations = iteration;
  exhausted = false;
  error_text = none;
}

abbrev pub exhausted_run : List Payload → List ToolCallRecord → ℕ → ℤ → ToolLoopResult
exhausted_run history records iteration limit = record {
  success = false;
  text = none;
  messages = history;
  tool_calls = records;
  iterations = iteration;
  exhausted = true;
  error_text = some (
      lit "Tool loop stopped after "
      ∷ (number_pieces limit ++ lit " iteration(s) without a final answer." ∷ []));
}

-- `granted` is handed to each execution of a tool.
pub record Session (E : Type 0) : Type 0 where
  pub provider_name : String
  pub specs : List ToolSpec
  pub options : ToolLoopOptions E
  pub granted : List String
  pub loop_id : String

-- The rest of the loop: from a history and records.
abbrev pub Continue : Type 0 → Type 0
Continue E = List Payload → List ToolCallRecord → Action (World E) ToolLoopResult

module _ {E : Type 0} (loop : ToolCallLoop E) (session : Session E) where
  abbrev pub allowed_names : List String
  allowed_names = map (λ spec. spec.name) session.specs

  -- The calls of a round, and the turn that answers them.
  unfoldable pub after_answer :
      ℕ
      → List Payload
      → List ToolCallRecord
      → List ToolCall
      → Continue E
      → Action (World E) ToolLoopResult
  unfolding handle_all
  after_answer iteration history records calls go_on = do
    handled ←
        handle_all loop session.loop_id allowed_names session.options session.granted iteration
          calls
    turn ← lift (tool_results_message (map (λ h. h.0) handled))
    go_on (history ++ turn ∷ []) (records ++ map (λ h. h.1) handled)

  abbrev pub after_payload :
      ℕ
      → List Payload
      → List ToolCallRecord
      → Text × List ToolCall
      → Continue E
      → Action (World E) ToolLoopResult
  after_payload iteration history records (text, calls) go_on =
      let history' = history ++ assistant_message text calls ∷ [] in
      if is_nil calls
      then pure (answered_run history' records iteration text)
      else after_answer iteration history' records calls go_on

  -- The part of a turn of the loop behind the provider's response.
  unfoldable pub after_response :
      ℕ
      → List Payload
      → List ToolCallRecord
      → ExecutionResult
      → Continue E
      → Action (World E) ToolLoopResult
  unfolding after_answer
  after_response iteration history records response go_on =
      if not response.success
      then pure (failed_run history records iteration response.error_text)
      else elim response.payload [
        | none ↦ pure (failed_run history records iteration response.error_text)
        | some payload ↦ after_payload iteration history records (parse payload) go_on
      ]

  -- The loop of `run`, by the turns that are left, behind `iteration` turns.
  unfoldable pub rounds : ℕ → ℕ → Continue E
  unfolding after_response request
  rounds zero iteration history records =
      pure (exhausted_run history records iteration session.options.max_iterations)
  rounds (suc left) iteration history records = do
    response ←
        request loop provider session.provider_name
          (provider_payload history session.specs session.options) []
    after_response (suc iteration) history records response (rounds left (suc iteration))

-- The turns that `while iteration < max_iterations` takes.
abbrev pub turns_of : ℤ → ℕ
turns_of (pos n) = n
turns_of (negsuc n) = 0

-- ToolCallLoop.run
unfoldable pub run :
    {E : Type 0}
    → ToolCallLoop E
    → String
    → List Payload
    → List String
    → ToolLoopOptions E
    → List String
    → Action (World E) ToolLoopResult
unfolding rounds
run loop provider_name messages tool_ids options granted =
    if is_nil messages
    then lift (
        raised (error tool_loop_error (lit "ToolCallLoop.run requires at least one message." ∷ [])))
    else if is_nil tool_ids
    then lift (
        raised (
          error tool_loop_error (
            lit
              "ToolCallLoop.run requires a non-empty tool allowlist; invoke the provider directly for requests without tools."
            ∷ [])))
    else (do
      specs ← lift (describe loop tool_ids)
      lift (require_tool_calls loop provider_name)
      loop_id ← fresh loop.new_id
      rounds loop
          (record {
            provider_name = provider_name;
            specs = specs;
            options = options;
            granted = granted;
            loop_id = loop_id;
          })
          (turns_of options.max_iterations) 0 messages [])
