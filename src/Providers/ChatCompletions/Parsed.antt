-- ===== src/Providers/ChatCompletions/Parsed.antt =====
-- What `tool_calls_from_chat` returns and raises, and that it reads what the translation writes.
use mellivor_kernel.Prelude.{
  ◌≡◌, refl, Bool, true, false, Bool-cases, inl, inr, ap, List, [], ◌∷◌, map, All, get,
}
use mellivor_kernel.Python.{
  Payload, Value, none_value, str, strs, mapping, sequence, items, as_fields, entries, Text,
  is_blank, is_blank_text, is_blank_piece, is_empty_text, is_space, Exception, Result, returned,
  raised, Ends, Builtins, Loaded, loaded, malformed, failed, flat, items-as_fields,
  is_empty_text_of_word, get_value,
}
use mellivor_kernel.Providers.ToolCalling.{
  ToolCall, IsCall, make_call, dict_value, assistant_message,
}
use mellivor_kernel.Providers.ChatCompletions.{ErrorFactory, collect, put_first, message_to_chat}
use mellivor_kernel.Providers.ChatCompletions.Refused.{Admits, collect-Ends}
use mellivor_kernel.Providers.ChatCompletions.Conversation.{
  Encodes, wire_call, wire_turn, message_to_chat-calls, entries-elements,
}
use mellivor_kernel.Providers.ChatCompletions.Calls.{
  RawCall, with_arguments, with_name, with_id, read_call, parsed_call, loads_or_empty, parse_raw,
  parse_call, tool_calls_from_chat,
}

module _ (py : Builtins) (fault : ErrorFactory) (Q : Exception → Type 0)
    (admits : Admits py fault Q) where
  abbrev Any : RawCall → Type 0
  Any c = Unit

  with_arguments-Ends :
      (id name : Text) (v : Value) → Ends Any Q (with_arguments py fault id name v)
  unfolding is_blank_text is_blank_piece is_blank is_space
  with_arguments-Ends id name none_value = tt
  with_arguments-Ends id name (str t) = tt
  with_arguments-Ends id name _ = admits.made _ refl

  with_name-Ends : (id : Text) (name v : Value) → Ends Any Q (with_name py fault id name v)
  unfolding is_blank_text is_blank_piece is_blank is_space
  with_name-Ends id (str name) v = elim (Bool-cases (is_empty_text name)) [
    | inl e ↦ rw e (admits.made _ refl)
    | inr e ↦ rw e (with_arguments-Ends id name v)
  ]
  with_name-Ends id _ v = admits.made _ refl

  with_id-Ends : (id name v : Value) → Ends Any Q (with_id py fault id name v)
  unfolding is_blank_text is_blank_piece is_blank is_space
  with_id-Ends (str id) name v = elim (Bool-cases (is_empty_text id)) [
    | inl e ↦ rw e (admits.made _ refl)
    | inr e ↦ rw e (with_name-Ends id name v)
  ]
  with_id-Ends _ name v = admits.made _ refl

  pub make_call-Ends : (c : ToolCall) → Ends IsCall Q (make_call c)
  unfolding make_call is_blank_text is_blank_piece is_space
  make_call-Ends c = elim (Bool-cases (is_blank c.id)) [
    | inl e ↦ rw e (admits.refused _ refl)
    | inr e ↦ elim (Bool-cases (is_blank c.name)) [
      | inl e' ↦ rw (e, e') (admits.refused _ refl)
      | inr e' ↦ rw (e, e') (e, e')
    ]
  ]

  parsed_call-Ends :
      (c : RawCall) (l : Loaded)
      → ((e : Exception) → l ≡ failed e → Q e)
      → Ends IsCall Q (parsed_call py fault c l)
  unfolding is_blank_text is_blank_piece is_blank is_space
  parsed_call-Ends c (loaded (mapping _)) h = make_call-Ends _
  parsed_call-Ends c (loaded _) h = admits.made _ refl
  parsed_call-Ends c malformed h = admits.made _ refl
  parsed_call-Ends c (failed e) h = h e refl

  loads_or_empty-failed : (t : Text) (e : Exception) → loads_or_empty py t ≡ failed e → Q e
  loads_or_empty-failed t e h = go (is_blank_text t) refl h
    where
      go : (b : Bool) → is_blank_text t ≡ b → loads_or_empty py t ≡ failed e → Q e
      go true same h = absurd (let h' = rw same at h in cc)
      go false same h = admits.decoded t e (rw same at h)

  parse_raw-Ends : (r : Result RawCall) → Ends Any Q r → Ends IsCall Q (parse_raw py fault r)
  parse_raw-Ends (raised e) h = h
  parse_raw-Ends (returned c) h =
      parsed_call-Ends c (loads_or_empty py c.arguments) (loads_or_empty-failed c.arguments)

  parse_call-Ends : (raw : Value) → Ends IsCall Q (parse_call py fault raw)
  unfolding parse_call read_call
  parse_call-Ends raw = parse_raw-Ends (read_call py fault raw) (with_id-Ends _ _ _)

  -- Each call that is returned was constructed, and each exception is one of the factory's, of the
  -- constructor's or of the decoder's.
  pub tool_calls_from_chat-Ends :
      (raw_calls : Value) → Ends (All IsCall) Q (tool_calls_from_chat py fault raw_calls)
  unfolding tool_calls_from_chat is_blank_text is_blank_piece is_blank is_space
  tool_calls_from_chat-Ends none_value = tt
  tool_calls_from_chat-Ends (sequence vs) = collect-Ends IsCall Q _ (entries vs) parse_call-Ends
  tool_calls_from_chat-Ends (strs ss) = collect-Ends IsCall Q _ _ parse_call-Ends
  tool_calls_from_chat-Ends _ = admits.made _ refl

module _ {py : Builtins} (enc : Encodes py) where
  -- A call that its constructor accepts, and whose arguments json decodes as it has encoded them.
  pub record IsPortable (c : ToolCall) : Type 0 where
    pub call : IsCall c
    pub decoded : py.loads (enc.encoded c.arguments) ≡ loaded (dict_value c.arguments)
    pub visible : is_blank_text (enc.encoded c.arguments) ≡ false

module _ {py : Builtins} (enc : Encodes py) (fault : ErrorFactory) where
  parse_call-wire :
      (c : ToolCall) → IsPortable enc c → parse_call py fault (wire_call enc c) ≡ returned c
  unfolding parse_call read_call make_call flat items as_fields get
  parse_call-wire c h =
      rw
        (
          is_empty_text_of_word c.id h.call.0,
          is_empty_text_of_word c.name h.call.1,
          h.visible,
          h.decoded,
          items-as_fields c.arguments,
          h.call.0,
          h.call.1,
        )
        refl

  calls-collect :
      (calls : List ToolCall)
      → All (IsPortable enc) calls
      → collect (parse_call py fault) (map (wire_call enc) calls) ≡ returned calls
  unfolding collect
  calls-collect [] h = refl
  calls-collect (c ∷ calls) h =
      rw (parse_call-wire c h.0) (ap (put_first c) (calls-collect calls h.1))

  -- An assistant's turn with tool calls that its constructor accepts, and whose arguments json decodes
  -- as it has encoded them, is translated to one message, and its calls are read back from that
  -- message in order, with their identifiers, names and arguments.
  pub tool_calls_from_chat-message :
      (said : Text) (c : ToolCall) (calls : List ToolCall)
      → All (IsPortable enc) (c ∷ calls)
      → (message : Payload) × (message_to_chat py fault
            (dict_value (assistant_message said (c ∷ calls)))
          ≡ returned (message ∷ []))
        × (tool_calls_from_chat py fault (get_value "tool_calls" message) ≡ returned (c ∷ calls))
  unfolding tool_calls_from_chat get
  tool_calls_from_chat-message said c calls h = (
    wire_turn enc said (c ∷ calls),
    message_to_chat-calls enc fault said c calls,
    rw (entries-elements (map (wire_call enc) (c ∷ calls))) (calls-collect (c ∷ calls) h),
  )
