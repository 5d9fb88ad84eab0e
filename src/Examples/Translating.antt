-- ===== src/Examples/Translating.antt =====
-- The theorems about the translation to the Chat Completions shape, on a conversation with one call.
use mellivor_kernel.Prelude.{
  ◌≡◌, refl, false, true, some, none, [], ◌∷◌, ◌++◌, map, concat, is_nil, get, if◌then◌else◌, arith,
}
use mellivor_kernel.Python.{
  Payload, none_value, mapping, sequence, no_fields, cons_field, items, as_fields, Text, lit,
  is_empty_text, is_blank, is_blank_text, has_text, returned, Builtins, loaded, word, flat, is_word,
  get_value, response_fault, provider_fault, openai,
}
use mellivor_kernel.Providers.ToolCalling.{
  ToolCall, ToolResultBlock, dict_value, elements, assistant_message, results_turn,
}
use mellivor_kernel.Providers.ChatCompletions.{
  collect, message_of, message_to_chat, messages_to_chat,
}
use mellivor_kernel.Providers.ChatCompletions.Calls.{tool_calls_from_chat}
use mellivor_kernel.Providers.ChatCompletions.Conversation.{Encodes}
use mellivor_kernel.Providers.ChatCompletions.Parsed.{tool_calls_from_chat-message}
use mellivor_kernel.Providers.ChatCompletions.History.{
  wire_round, wire_answer, messages_to_chat-conversation,
}
use mellivor_kernel.Providers.Vendor.{fault_of}
use mellivor_kernel.Execution.Conversation.{ToolLoopResult}
use mellivor_kernel.Execution.ToolLoop.Outcome.{Round, IsLoopOutcome}

-- An interpreter whose json knows two dicts.
abbrev pub sample_builtins : Builtins
sample_builtins = record {
  formatted = λ p. "?";
  to_str = λ v. lit "?" ∷ [];
  repr = λ v. lit "?" ∷ [];
  truth = λ n. true;
  attribute = λ n key. none_value;
  dumps = λ p. returned (lit (if is_nil p then "{}" else "{\"path\": \"notes\"}") ∷ []);
  loads = λ t.
      loaded (
        mapping
          (if is_empty_text t then no_fields else cons_field "path" (word "notes") no_fields));
}

abbrev sample_codec : Encodes sample_builtins
sample_codec = record {
  encoded = λ p. lit (if is_nil p then "{}" else "{\"path\": \"notes\"}") ∷ [];
  dumped = λ p. refl;
}

abbrev reading : ToolCall
reading = record { id = "c1"; name = "read_file"; arguments = ("path", word "notes") ∷ [] }

tool_calls_from_chat-message_example :
    (message : Payload) × (message_to_chat sample_builtins
        (fault_of openai response_fault)
        (dict_value (assistant_message (lit "One moment." ∷ []) (reading ∷ [])))
      ≡ returned (message ∷ []))
    × (tool_calls_from_chat sample_builtins
          (fault_of openai response_fault)
          (get_value "tool_calls" message)
        ≡ returned (reading ∷ []))
unfolding is_blank is_blank_text as_fields is_empty_text
tool_calls_from_chat-message_example =
    tool_calls_from_chat-message sample_codec (fault_of openai response_fault)
      (lit "One moment." ∷ []) reading []
      (record { call = (refl, refl); decoded = refl; visible = refl }, tt)

abbrev found : ToolResultBlock
found = record { tool_call_id = "c1"; content = lit "hello" ∷ []; is_error = false }

abbrev round : Round
round = record {
  said = lit "One moment." ∷ [];
  calls = reading ∷ [];
  handled =
      (
        found,
        record { called = reading; executed = true; success = true; result = lit "hello" ∷ [] },
      )
      ∷ [];
}

abbrev question : Payload
question = message_of (lit "user" ∷ []) (word "What do the notes say?")

abbrev answer : Text
answer = lit "They say hello." ∷ []

abbrev finished : ToolLoopResult
finished = record {
  success = true;
  text = some answer;
  messages =
      question
      ∷ assistant_message (lit "One moment." ∷ []) (reading ∷ [])
      ∷ results_turn (found ∷ [])
      ∷ assistant_message answer []
      ∷ [];
  tool_calls =
      (record { called = reading; executed = true; success = true; result = lit "hello" ∷ [] })
      ∷ [];
  iterations = 2;
  exhausted = false;
  error_text = none;
}

some_text : (t : Text) → some answer ≡ some t → answer ≡ t
some_text t e = cc

finished-IsLoopOutcome : IsLoopOutcome ("read_file" ∷ []) (question ∷ []) 5 finished
unfolding has_text is_blank_text is_blank
finished-IsLoopOutcome = record {
  past = round ∷ [];
  sound = (
    (
      λ e. cc,
      (
        record {
          answered = refl;
          recorded = refl;
          content = refl;
          flagged = refl;
          offered = λ e. refl;
          succeeded = λ e. refl;
        },
        tt,
      ),
    ),
    tt,
  );
  messages = refl;
  records = refl;
  spent = refl;
  bounded = omega arith;
  exhausted = λ e. absurd (cc);
  answered = refl;
  error = refl;
}

-- Five messages: the system's, the question, the call, its result and the answer.
messages_to_chat-conversation_example :
    messages_to_chat sample_builtins
      (fault_of openai provider_fault)
      (sequence (elements (map dict_value finished.messages)))
      (word "Be brief.")
    ≡ returned (
        (message_of (lit "system" ∷ []) (word "Be brief.") ∷ [])
        ++ (concat ((question ∷ []) ∷ [])
            ++ concat (map (wire_round sample_codec (fault_of openai provider_fault)) (round ∷ []))
            ++ wire_answer sample_codec (fault_of openai provider_fault) (some answer)))
unfolding collect message_to_chat is_word flat items as_fields get is_empty_text
    finished-IsLoopOutcome
messages_to_chat-conversation_example =
    messages_to_chat-conversation sample_codec (fault_of openai provider_fault) ("read_file" ∷ [])
      question [] 5 finished finished-IsLoopOutcome ((question ∷ []) ∷ []) (word "Be brief.")
      (message_of (lit "system" ∷ []) (word "Be brief.") ∷ []) (λ t e. rw (← some_text t e) refl)
      refl refl
