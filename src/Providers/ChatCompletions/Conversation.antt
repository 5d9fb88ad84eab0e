-- ===== src/Providers/ChatCompletions/Conversation.antt =====
-- The turns that a tool loop writes, in the Chat Completions shape.
use mellivor_kernel.Prelude.{
  some, ◌≡◌, refl, ap, ◌∙◌, false, Bool-cases, inl, inr, List, [], ◌∷◌, ◌++◌, map, append_assoc,
  append-nil, concat, get, if◌then◌else◌,
}
use mellivor_kernel.Python.{
  Payload, Value, as_mapping, str, sequence, Text, lit, is_empty_text, returned, Builtins, word,
  items, as_fields, items-as_fields, entries, flat, is_word, string_of, is_true,
}
use mellivor_kernel.Providers.ToolCalling.{
  ToolCall, ToolResultBlock, dict_value, elements, call_fields, call_block, text_block,
  assistant_message, result_block, results_turn,
}
use mellivor_kernel.Providers.ChatCompletions.{
  ErrorFactory, Blocks, no_blocks, message_of, chat_call, tool_message, text_or_none, read_fields,
  read_block, tool_use_block, read_blocks, blocks_message, message_of_blocks, listed_message,
  message_to_chat,
}

pub entries-elements : (vs : List Value) → entries (elements vs) ≡ vs
unfolding entries elements
entries-elements [] = refl
entries-elements (v ∷ vs) = ap (λ r. v ∷ r) (entries-elements vs)

-- A json.dumps that encodes each dict.
pub record Encodes (py : Builtins) : Type 0 where
  pub encoded : Payload → Text
  pub dumped : (p : Payload) → py.dumps p ≡ returned (encoded p)

module _ {py : Builtins} (enc : Encodes py) where
  abbrev pub wire_call : ToolCall → Value
  wire_call c = chat_call (lit c.id ∷ []) (lit c.name ∷ []) (enc.encoded c.arguments)

  -- The assistant's turn with its calls, and one message for each result.
  abbrev pub wire_turn : Text → List ToolCall → Payload
  wire_turn said calls =
      message_of (lit "assistant" ∷ []) (text_or_none said)
      ++ ("tool_calls", sequence (elements (map wire_call calls))) ∷ []

abbrev said_texts : Text → List Text
said_texts said = if is_empty_text said then [] else said ∷ []

abbrev pub wire_result : ToolResultBlock → Payload
wire_result b =
    tool_message (lit b.tool_call_id ∷ [])
      (if b.is_error then lit "Error: " ∷ b.content else b.content)

module _ {py : Builtins} (enc : Encodes py) (fault : ErrorFactory) where
  read_block-call :
      (c : ToolCall) (b : Blocks)
      → read_block py fault (as_mapping (call_block c)) b
        ≡ returned (record b { tool_calls = b.tool_calls ++ wire_call enc c ∷ [] })
  unfolding read_fields is_word flat string_of items as_fields get
  read_block-call c b =
      ap (λ p. tool_use_block py fault (items (as_fields (call_fields c))) b (py.dumps p))
        (items-as_fields c.arguments)
      ∙ ap (tool_use_block py fault (items (as_fields (call_fields c))) b) (enc.dumped c.arguments)

  read_blocks-calls :
      (calls : List ToolCall) (b : Blocks)
      → read_blocks py fault (map call_block calls) (returned b)
        ≡ returned (record b { tool_calls = b.tool_calls ++ map (wire_call enc) calls })
  unfolding read_blocks
  read_blocks-calls [] b = rw (append-nil b.tool_calls)
  read_blocks-calls (c ∷ calls) b =
      ap (λ r. read_blocks py fault (map call_block calls) r) (read_block-call c b)
      ∙ read_blocks-calls calls (record b { tool_calls = b.tool_calls ++ wire_call enc c ∷ [] })
      ∙ ap (λ r. returned (record b { tool_calls = r }))
          (append_assoc b.tool_calls (wire_call enc c ∷ []) (map (wire_call enc) calls))

  read_blocks-results :
      (results : List ToolResultBlock) (b : Blocks)
      → read_blocks py fault (map result_block results) (returned b)
        ≡ returned (record b { tool_results = b.tool_results ++ map wire_result results })
  unfolding read_blocks read_fields is_word flat string_of is_true items as_fields get
  read_blocks-results [] b = rw (append-nil b.tool_results)
  read_blocks-results (r ∷ results) b =
      read_blocks-results results (record b { tool_results = b.tool_results ++ wire_result r ∷ [] })
      ∙ ap (λ x. returned (record b { tool_results = x }))
          (append_assoc b.tool_results (wire_result r ∷ []) (map wire_result results))

  -- The blocks of a turn are the ones of its calls, behind its text if there is any.
  listed_message-turn :
      (said : Text) (calls : List ToolCall) (c : ToolCall)
      → listed_message py fault
          (lit "assistant" ∷ [])
          (some (text_block said ++ call_block c ∷ map call_block calls))
        ≡ blocks_message py fault (lit "assistant" ∷ []) (
            read_blocks py fault
              (map call_block (c ∷ calls))
              (returned (record no_blocks { texts = said_texts said })))
  unfolding read_blocks read_fields is_word flat string_of items as_fields get
  listed_message-turn said calls c = elim (Bool-cases (is_empty_text said)) [
    | inl e ↦ rw e refl
    | inr e ↦ rw e refl
  ]

  said_texts-concat : (said : Text) → text_or_none (concat (said_texts said)) ≡ text_or_none said
  unfolding is_empty_text
  said_texts-concat said = elim (Bool-cases (is_empty_text said)) [
    | inl e ↦ rw e refl
    | inr e ↦ rw (e, append-nil said, e) refl
  ]

  -- A turn with calls is one assistant message.
  pub message_to_chat-calls :
      (said : Text) (c : ToolCall) (calls : List ToolCall)
      → message_to_chat py fault (dict_value (assistant_message said (c ∷ calls)))
        ≡ returned (wire_turn enc said (c ∷ calls) ∷ [])
  unfolding message_to_chat assistant_message message_of_blocks is_word flat items as_fields get
      entries elements
  message_to_chat-calls said c calls =
      rw (entries-elements (text_block said ++ call_block c ∷ map call_block calls)) (
        listed_message-turn said calls c
        ∙ ap (blocks_message py fault (lit "assistant" ∷ []))
            (read_blocks-calls (c ∷ calls) (record no_blocks { texts = said_texts said }))
        ∙ ap
            (λ t. returned (
              (("role", word "assistant")
                ∷ ("content", t)
                ∷ ("tool_calls", sequence (elements (map (wire_call enc) (c ∷ calls))))
                ∷ [])
              ∷ []))
            (said_texts-concat said))

  -- A turn that has only a text is that text.
  pub message_to_chat-answer :
      (said : Text)
      → is_empty_text said ≡ false
      → message_to_chat py fault (dict_value (assistant_message said []))
        ≡ returned (message_of (lit "assistant" ∷ []) (str said) ∷ [])
  unfolding message_to_chat assistant_message read_blocks read_fields message_of_blocks is_word flat
      string_of items as_fields get entries elements
  message_to_chat-answer said h = rw (h, append-nil said) refl

  -- A turn of results is one tool message for each result.
  pub message_to_chat-results :
      (r : ToolResultBlock) (results : List ToolResultBlock)
      → message_to_chat py fault (dict_value (results_turn (r ∷ results)))
        ≡ returned (map wire_result (r ∷ results))
  unfolding message_to_chat read_blocks read_fields message_of_blocks is_word flat string_of is_true
      items as_fields get elements entries
  message_to_chat-results r results =
      rw (entries-elements (map result_block results)) (
        ap (blocks_message py fault (lit "user" ∷ []))
          (read_blocks-results (r ∷ results) no_blocks))
