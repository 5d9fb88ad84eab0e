-- ===== src/Providers/ChatCompletions/Calls.antt =====
-- src/mellivor_kernel/providers/_chat_completions.py: tool_calls_from_chat, and what it returns
use mellivor_kernel.Prelude.{String, List, [], ◌∷◌, Option, none, some, if◌then◌else◌}
use mellivor_kernel.Python.{
  Value, none_value, str, mapping, items, as_fields, Text, lit, quoted, is_empty_text,
  is_blank_text, Result, returned, raised, Builtins, Loaded, loaded, malformed, failed, as_sequence,
  get_value, flat, attribute_of,
}
use mellivor_kernel.Providers.ToolCalling.{ToolCall, make_call}
use mellivor_kernel.Providers.ChatCompletions.{ErrorFactory, collect}

-- What `_read_call` reads.
pub record RawCall : Type 0 where
  pub call_id : Text
  pub name : Text
  pub arguments : Text

module _ (py : Builtins) where
  -- raw.get("id") of a mapping, getattr(raw, "id", None) of an object
  abbrev pub member : String → Value → Value
  member key (mapping fields) = get_value key (items fields)
  member key v = attribute_of py key v

  -- `function.get(key) if isinstance(function, Mapping) else None` beside a mapping, and getattr
  -- beside an object
  abbrev pub function_member : String → Value → Value → Value
  function_member key (mapping _) (mapping fields) = get_value key (items fields)
  function_member key (mapping _) function = none_value
  function_member key raw function = attribute_of py key function

  -- json.loads(arguments) if arguments.strip() else {}
  abbrev pub loads_or_empty : Text → Loaded
  loads_or_empty arguments =
      if is_blank_text arguments then loaded (mapping (as_fields [])) else py.loads arguments

module _ (py : Builtins) (error : ErrorFactory) where
  abbrev pub with_arguments : Text → Text → Value → Result RawCall
  with_arguments call_id name none_value =
      returned (record { call_id = call_id; name = name; arguments = [] })
  with_arguments call_id name (str arguments) =
      returned (record { call_id = call_id; name = name; arguments = arguments })
  with_arguments call_id name _ = raised (
      error (
        lit "Tool call " ∷ quoted (flat py call_id) ∷ lit " arguments must be a JSON string." ∷ []))

  abbrev pub nameless : Text → Result RawCall
  nameless call_id = raised (
      error (lit "Tool call " ∷ quoted (flat py call_id) ∷ lit " must carry a function name." ∷ []))

  abbrev pub with_name : Text → Value → Value → Result RawCall
  with_name call_id (str name) arguments =
      if is_empty_text name then nameless call_id else with_arguments call_id name arguments
  with_name call_id _ arguments = nameless call_id

  abbrev pub unidentified : Result RawCall
  unidentified = raised (error (lit "Each tool call must carry a non-empty string 'id'." ∷ []))

  abbrev pub with_id : Value → Value → Value → Result RawCall
  with_id (str call_id) name arguments =
      if is_empty_text call_id then unidentified else with_name call_id name arguments
  with_id _ name arguments = unidentified

  -- _read_call
  unfoldable pub read_call : Value → Result RawCall
  unfolding flat attribute_of
  read_call raw =
      let function = member py "function" raw in
      with_id (member py "id" raw) (function_member py "name" raw function)
        (function_member py "arguments" raw function)

  abbrev pub parsed_call : RawCall → Loaded → Result ToolCall
  parsed_call c (loaded (mapping fields)) =
      make_call (record { id = flat py c.call_id; name = flat py c.name; arguments = items fields })
  parsed_call c (loaded _) = raised (
      error (
        lit "Tool call "
        ∷ quoted (flat py c.call_id)
        ∷ lit " arguments must be a JSON object."
        ∷ []))
  parsed_call c malformed = raised (
      error
        (lit "Tool call " ∷ quoted (flat py c.call_id) ∷ lit " carried non-JSON arguments." ∷ []))
  parsed_call c (failed e) = raised e

  abbrev pub parse_raw : Result RawCall → Result ToolCall
  parse_raw (raised e) = raised e
  parse_raw (returned c) = parsed_call c (loads_or_empty py c.arguments)

  -- The body of the loop of `tool_calls_from_chat`.
  unfoldable pub parse_call : Value → Result ToolCall
  unfolding flat
  parse_call raw = parse_raw (read_call raw)

  abbrev pub listed_calls : Option (List Value) → Result (List ToolCall)
  listed_calls none = raised (error (lit "Response field 'tool_calls' must be a list." ∷ []))
  listed_calls (some raws) = collect parse_call raws

  unfoldable pub tool_calls_from_chat : Value → Result (List ToolCall)
  unfolding collect
  tool_calls_from_chat none_value = returned []
  tool_calls_from_chat raw_calls = listed_calls (as_sequence raw_calls)
