-- ===== src/Providers/ChatCompletions.antt =====
-- src/mellivor_kernel/providers/_chat_completions.py
pub mod Conversation
pub mod Calls
pub mod Refused
pub mod Parsed
pub mod History
use mellivor_kernel.Prelude.{
  String, Bool, true, false, not, ◌&&◌, ◌||◌, Option, none, some, List, [], ◌∷◌, ◌++◌, map, is_nil,
  concat, get, if◌then◌else◌,
}
use mellivor_kernel.Python.{
  Payload, Value, none_value, str, mapping, sequence, tool_spec, items, as_fields, Text, lit,
  quoted, is_empty_text, is_blank_text, Exception, Result, returned, raised, Builtins, Loaded, word,
  as_mapping, as_sequence, as_text, is_none, get_or, get_value, flat, is_word, string_of, is_true,
  attribute_of,
}
use mellivor_kernel.Providers.ToolCalling.{ToolCall, make_call, dict_value, elements}

-- `error`, of the provider's own class
abbrev pub ErrorFactory : Type 0
ErrorFactory = Text → Exception

-- The lists that `_message_to_chat` sorts the blocks of a message into.
pub record Blocks : Type 0 where
  pub texts : List Text
  pub tool_calls : List Value
  pub tool_results : List Payload

abbrev pub no_blocks : Blocks
no_blocks = record { texts = []; tool_calls = []; tool_results = [] }

-- {"role": role, "content": content}
abbrev pub message_of : Text → Value → Payload
message_of role content = ("role", str role) ∷ ("content", content) ∷ []

-- {"id", "type": "function", "function": {"name", "arguments"}}
abbrev pub chat_call : Text → Text → Text → Value
chat_call id name arguments = dict_value (
    ("id", str id)
    ∷ ("type", word "function")
    ∷ ("function", dict_value (("name", str name) ∷ ("arguments", str arguments) ∷ []))
    ∷ [])

abbrev pub tool_message : Text → Text → Payload
tool_message id text = ("role", word "tool") ∷ ("tool_call_id", str id) ∷ ("content", str text) ∷ []

-- "".join(texts) or None
abbrev pub text_or_none : Text → Value
text_or_none t = if is_empty_text t then none_value else str t

abbrev pub put_first : {B : Type 0} → B → Result (List B) → Result (List B)
put_first y (raised e) = raised e
put_first y (returned ys) = returned (y ∷ ys)

abbrev pub gathered : {B : Type 0} → Result B → Result (List B) → Result (List B)
gathered (raised e) later = raised e
gathered (returned y) later = put_first y later

-- `out.append(f(x))` for each entry in turn, until one raises
unfoldable pub collect : {A B : Type 0} → (A → Result B) → List A → Result (List B)
collect f [] = returned []
collect f (x ∷ xs) = gathered (f x) (collect f xs)

-- dict(arguments) if isinstance(arguments, Mapping) else {}
abbrev pub dict_of : Value → Payload
dict_of (mapping fields) = items fields
dict_of _ = []

module _ (py : Builtins) (error : ErrorFactory) where
  abbrev pub tool_use_block : Payload → Blocks → Result Text → Result Blocks
  tool_use_block block b (raised e) = raised e
  tool_use_block block b (returned arguments) = returned (record b {
    tool_calls =
        b.tool_calls
        ++ chat_call (string_of py (get_or "id" (word "") block))
            (string_of py (get_or "name" (word "") block)) arguments
          ∷ [];
  })

  abbrev pub result_text : Payload → Text
  result_text block =
      let text = string_of py (get_or "content" (word "") block) in
      if is_true py (get_value "is_error" block) then lit "Error: " ∷ text else text

  -- The body of the loop over the blocks, behind the test that a block is a mapping.
  unfoldable pub read_fields : Payload → Blocks → Result Blocks
  unfolding is_word string_of is_true
  read_fields block b =
      let kind = get_value "type" block in
      if is_word py "text" kind
      then returned
          (record b { texts = b.texts ++ string_of py (get_or "text" (word "") block) ∷ [] })
      else if is_word py "tool_use" kind
      then tool_use_block block b
          (py.dumps (dict_of (get_or "input" (mapping (as_fields [])) block)))
      else if is_word py "tool_result" kind
      then returned (record b {
        tool_results =
            b.tool_results
            ++ tool_message (string_of py (get_or "tool_call_id" (word "") block))
                (result_text block)
              ∷ [];
      })
      else raised (error (lit "Unsupported content block type: " ∷ (py.repr kind ++ lit "." ∷ [])))

  abbrev pub read_block : Option Payload → Blocks → Result Blocks
  read_block none b = raised (error (lit "Each content block must be a mapping." ∷ []))
  read_block (some block) b = read_fields block b

  unfoldable pub read_blocks : List Value → Result Blocks → Result Blocks
  read_blocks vs (raised e) = raised e
  read_blocks [] (returned b) = returned b
  read_blocks (v ∷ vs) (returned b) = read_blocks vs (read_block (as_mapping v) b)

  -- The part of `_message_to_chat` behind the loop.
  unfoldable pub message_of_blocks : Text → Blocks → Result (List Payload)
  unfolding is_word
  message_of_blocks role b =
      if not (is_nil b.tool_results)
      then (if not (is_word py "user" (str role))
            || not (is_nil b.texts)
            || not (is_nil b.tool_calls)
          then raised (error (lit "tool_result blocks must be alone in a user message." ∷ []))
          else returned b.tool_results)
      else if not (is_nil b.tool_calls)
      then (if not (is_word py "assistant" (str role))
          then raised (error (lit "tool_use blocks are only valid in an assistant message." ∷ []))
          else returned (
              (message_of role (text_or_none (concat b.texts))
                ++ ("tool_calls", sequence (elements b.tool_calls)) ∷ [])
              ∷ []))
      else returned (message_of role (str (concat b.texts)) ∷ [])

  abbrev pub blocks_message : Text → Result Blocks → Result (List Payload)
  blocks_message role (raised e) = raised e
  blocks_message role (returned b) = message_of_blocks role b

  abbrev pub no_content : Result (List Payload)
  no_content =
      raised (error (lit "Each message must have string content or a non-empty block list." ∷ []))

  -- The content that is no string: a block list, or an error.
  abbrev pub listed_message : Text → Option (List Value) → Result (List Payload)
  listed_message role none = no_content
  listed_message role (some []) = no_content
  listed_message role (some (v ∷ vs)) =
      blocks_message role (read_blocks (v ∷ vs) (returned no_blocks))

  abbrev pub content_message : Text → Value → Result (List Payload)
  content_message role (str text) = returned (message_of role (str text) ∷ [])
  content_message role content = listed_message role (as_sequence content)

  abbrev pub bad_role : Result (List Payload)
  bad_role = raised (error (lit "Each message role must be one of: system, user, assistant." ∷ []))

  abbrev pub role_message : Value → Payload → Result (List Payload)
  role_message (str role) entry =
      if is_word py "system" (str role)
        || is_word py "user" (str role)
        || is_word py "assistant" (str role)
      then content_message role (get_value "content" entry)
      else bad_role
  role_message _ entry = bad_role

  -- _message_to_chat
  unfoldable pub message_to_chat : Value → Result (List Payload)
  unfolding read_blocks message_of_blocks is_word
  message_to_chat (mapping fields) =
      let entry = items fields in role_message (get_value "role" entry) entry
  message_to_chat _ =
      raised (error (lit "Each entry in request['messages'] must be a mapping." ∷ []))

  abbrev pub bad_messages : Result (List Payload)
  bad_messages = raised (error (lit "request['messages'] must be a non-empty sequence." ∷ []))

  abbrev pub with_system : List Payload → Result (List (List Payload)) → Result (List Payload)
  with_system system (raised e) = raised e
  with_system system (returned out) = returned (system ++ concat out)

  abbrev pub system_message : Value → Result (List Payload)
  system_message none_value = returned []
  system_message (str t) = returned (message_of (lit "system" ∷ []) (str t) ∷ [])
  system_message _ = raised (error (lit "request['system'] must be a string, if provided." ∷ []))

  abbrev pub opened : Result (List Payload) → List Value → Result (List Payload)
  opened (raised e) messages = raised e
  opened (returned system) messages = with_system system (collect message_to_chat messages)

  abbrev pub listed_to_chat : Option (List Value) → Value → Result (List Payload)
  listed_to_chat none system = bad_messages
  listed_to_chat (some []) system = bad_messages
  listed_to_chat (some (v ∷ vs)) system = opened (system_message system) (v ∷ vs)

  unfoldable pub messages_to_chat : Value → Value → Result (List Payload)
  unfolding collect message_to_chat
  messages_to_chat messages system = listed_to_chat (as_sequence messages) system

  abbrev pub tool_of : Value → Result Value
  tool_of (tool_spec name description schema) = returned (
      dict_value (
        ("type", word "function")
        ∷ (
          "function",
          dict_value (
              ("name", word name)
              ∷ ("description", word description)
              ∷ ("parameters", mapping schema)
              ∷ []),
        )
        ∷ []))
  tool_of _ = raised (error (lit "request['tools'] entries must be ToolSpec instances." ∷ []))

  -- out or None
  abbrev pub tools_or_none : Result (List Value) → Result (Option (List Value))
  tools_or_none (raised e) = raised e
  tools_or_none (returned []) = returned none
  tools_or_none (returned (v ∷ vs)) = returned (some (v ∷ vs))

  abbrev pub listed_tools : Option (List Value) → Result (Option (List Value))
  listed_tools none = raised (error (lit "request['tools'] must be a sequence of ToolSpec." ∷ []))
  listed_tools (some specs) = tools_or_none (collect tool_of specs)

  unfoldable pub tools_to_chat : Value → Result (Option (List Value))
  unfolding collect
  tools_to_chat none_value = returned none
  tools_to_chat v = listed_tools (as_sequence v)
