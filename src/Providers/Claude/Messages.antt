-- ===== src/Providers/Claude/Messages.antt =====
-- src/mellivor_kernel/providers/claude.py: _messages_from, _tools_from and the translation of a message
use mellivor_kernel.Prelude.{
  String, true, not, ◌&&◌, ◌||◌, Option, none, some, List, [], ◌∷◌, ◌++◌, if◌then◌else◌,
}
use mellivor_kernel.Python.{
  Payload, Value, none_value, str, bool, mapping, sequence, tool_spec, items, as_fields, lit,
  is_blank_text, claude, provider_fault, Result, returned, raised, chain, Builtins, word,
  as_sequence, is_none, get_or, get_value, is_word, string_of, is_true,
}
use mellivor_kernel.Providers.ToolCalling.{dict_value, elements}
use mellivor_kernel.Providers.ChatCompletions.{ErrorFactory, collect, message_of, dict_of}
use mellivor_kernel.Providers.Vendor.{fault_of}

abbrev pub request_error : ErrorFactory
request_error = fault_of claude provider_fault

abbrev refuse : {A : Type 0} → String → Result A
refuse message = raised (request_error (lit message ∷ []))

abbrev pub tool_of : Value → Result Value
tool_of (tool_spec name description schema) = returned (
    dict_value (
      ("name", word name)
      ∷ ("description", word description)
      ∷ ("input_schema", mapping schema)
      ∷ []))
tool_of _ = refuse "request['tools'] entries must be ToolSpec instances."

-- definitions or None
abbrev pub some_definitions : List Value → Option (List Value)
some_definitions [] = none
some_definitions (v ∷ vs) = some (v ∷ vs)

abbrev pub listed_tools : Option (List Value) → Result (Option (List Value))
listed_tools none = refuse "request['tools'] must be a sequence of ToolSpec."
listed_tools (some specs) =
    chain (collect tool_of specs) λ definitions. returned (some_definitions definitions)

-- _tools_from, of the value of `tools`
unfoldable pub tools_from : Value → Result (Option (List Value))
unfolding collect
tools_from none_value = returned none
tools_from v = listed_tools (as_sequence v)

module _ (py : Builtins) where
  abbrev pub result_block : Payload → Payload
  result_block block =
      (("type", word "tool_result")
        ∷ ("tool_use_id", str (string_of py (get_or "tool_call_id" (word "") block)))
        ∷ ("content", str (string_of py (get_or "content" (word "") block)))
        ∷ [])
      ++ (if is_true py (get_value "is_error" block) then ("is_error", bool true) ∷ [] else [])

  -- _to_anthropic_block, of a mapping
  unfoldable pub block_of : Payload → Result Value
  unfolding is_word string_of is_true
  block_of block =
      let kind = get_value "type" block in
      if is_word py "text" kind
      then returned (
          dict_value (
            ("type", word "text")
            ∷ ("text", str (string_of py (get_or "text" (word "") block)))
            ∷ []))
      else if is_word py "tool_use" kind
      then returned (
          dict_value (
            ("type", word "tool_use")
            ∷ ("id", str (string_of py (get_or "id" (word "") block)))
            ∷ ("name", str (string_of py (get_or "name" (word "") block)))
            ∷ ("input", dict_value (dict_of (get_or "input" (mapping (as_fields [])) block)))
            ∷ []))
      else if is_word py "tool_result" kind
      then returned (dict_value (result_block block))
      else raised
          (request_error (lit "unsupported content block type: " ∷ (py.repr kind ++ lit "." ∷ [])))

  abbrev pub to_block : Value → Result Value
  to_block (mapping fields) = block_of (items fields)
  to_block _ = refuse "each content block must be a mapping."

  abbrev pub bad_content : Result Payload
  bad_content = refuse "message['content'] must be a string or a non-empty block list."

  abbrev pub listed_content : Value → Option (List Value) → Result Payload
  listed_content role none = bad_content
  listed_content role (some []) = bad_content
  listed_content role (some (v ∷ vs)) =
      chain (collect to_block (v ∷ vs))
        λ blocks. returned (("role", role) ∷ ("content", sequence (elements blocks)) ∷ [])

  abbrev pub content_message : Value → Value → Result Payload
  content_message role (str text) =
      if is_blank_text text
      then refuse "message['content'] must not be blank."
      else returned (("role", role) ∷ ("content", str text) ∷ [])
  content_message role content = listed_content role (as_sequence content)

  -- _to_anthropic_message
  unfoldable pub to_message : Value → Result Payload
  unfolding block_of is_word collect
  to_message (mapping fields) =
      let entry = items fields in
      let role = get_value "role" entry in
      if not (is_word py "user" role || is_word py "assistant" role)
      then refuse "message['role'] must be 'user' or 'assistant'."
      else content_message role (get_value "content" entry)
  to_message _ = refuse "each message must be a mapping with 'role' and 'content'."

  abbrev pub prompted : Value → Result (List Payload)
  prompted (str prompt) =
      if is_blank_text prompt
      then refuse "request['prompt'] must be a non-empty string."
      else returned (message_of (lit "user" ∷ []) (str prompt) ∷ [])
  prompted _ = refuse "request['prompt'] must be a non-empty string."

  abbrev pub listed_messages : Option (List Value) → Result (List Payload)
  listed_messages none = refuse "request['messages'] must be a non-empty sequence."
  listed_messages (some []) = refuse "request['messages'] must be a non-empty sequence."
  listed_messages (some (v ∷ vs)) = collect to_message (v ∷ vs)

  -- _messages_from
  unfoldable pub messages_from : Payload → Result (List Payload)
  unfolding to_message collect
  messages_from request =
      let prompt = get_value "prompt" request in
      let messages = get_value "messages" request in
      if not (is_none prompt) && not (is_none messages)
      then refuse "request must carry either 'prompt' or 'messages', not both."
      else if is_none messages
      then prompted prompt
      else listed_messages (as_sequence messages)
