-- ===== src/Providers/ToolCalling.antt =====
-- src/mellivor_kernel/providers/tool_calling.py
use mellivor_kernel.Prelude.{
  String, ◌≡◌, Bool, false, not, Option, some, List, [], ◌∷◌, ◌++◌, get, is_nil, map, ◌==◌,
  if◌then◌else◌,
}
use mellivor_kernel.Python.{
  Payload, Value, word, str, bool, mapping, sequence, Elements, no_elements, cons_element,
  as_fields, Text, lit, is_blank, is_empty_text, Result, returned, raised, error,
  tool_calling_error,
}

pub record ToolSpec : Type 0 where
  pub name : String
  pub description : String
  pub input_schema : Payload

-- schema.get("type") == "object", for a type that is one literal
abbrev is_object : Option Value → Bool
is_object (some (str (lit s ∷ []))) = s == "object"
is_object _ = false

-- ToolSpec.__post_init__; a schema is a mapping by its type here.
unfoldable pub make_spec : ToolSpec → Result ToolSpec
make_spec spec =
    if is_blank spec.name
    then raised (error tool_calling_error (lit "ToolSpec.name must not be blank." ∷ []))
    else if is_blank spec.description
    then raised (error tool_calling_error (lit "ToolSpec.description must not be blank." ∷ []))
    else if not (is_object (get "type" spec.input_schema))
    then raised (
        error tool_calling_error
          (lit "ToolSpec.input_schema must be a JSON Schema object (type: 'object')." ∷ []))
    else returned spec

pub record ToolCall : Type 0 where
  pub id : String
  pub name : String
  pub arguments : Payload

-- ToolCall.__post_init__
unfoldable pub make_call : ToolCall → Result ToolCall
make_call c =
    if is_blank c.id
    then raised (error tool_calling_error (lit "ToolCall.id must not be blank." ∷ []))
    else if is_blank c.name
    then raised (error tool_calling_error (lit "ToolCall.name must not be blank." ∷ []))
    else returned c

-- A tool call that its constructor accepts.
abbrev pub IsCall : ToolCall → Type 0
IsCall c = (is_blank c.id ≡ false) × (is_blank c.name ≡ false)

pub record ToolResultBlock : Type 0 where
  pub tool_call_id : String
  pub content : Text
  pub is_error : Bool

-- ToolResultBlock.__post_init__
unfoldable pub make_block : ToolResultBlock → Result ToolResultBlock
make_block b =
    if is_blank b.tool_call_id
    then raised
        (error tool_calling_error (lit "ToolResultBlock.tool_call_id must not be blank." ∷ []))
    else returned b

unfoldable pub elements : List Value → Elements
elements [] = no_elements
elements (v ∷ vs) = cons_element v (elements vs)

abbrev pub dict_value : Payload → Value
dict_value p = mapping (as_fields p)

abbrev pub call_fields : ToolCall → Payload
call_fields c =
    ("type", word "tool_use")
    ∷ ("id", word c.id)
    ∷ ("name", word c.name)
    ∷ ("input", dict_value c.arguments)
    ∷ []

abbrev pub call_block : ToolCall → Value
call_block c = dict_value (call_fields c)

abbrev pub text_block : Text → List Value
text_block text =
    if is_empty_text text
    then []
    else dict_value (("type", word "text") ∷ ("text", str text) ∷ []) ∷ []

-- assistant_message
unfoldable pub assistant_message : Text → List ToolCall → Payload
unfolding elements
assistant_message text calls =
    ("role", word "assistant")
    ∷ ("content", sequence (elements (text_block text ++ map call_block calls)))
    ∷ []

abbrev pub result_block : ToolResultBlock → Value
result_block b = dict_value (
    ("type", word "tool_result")
    ∷ ("tool_call_id", word b.tool_call_id)
    ∷ ("content", str b.content)
    ∷ ("is_error", bool b.is_error)
    ∷ [])

abbrev pub results_turn : List ToolResultBlock → Payload
results_turn results =
    ("role", word "user") ∷ ("content", sequence (elements (map result_block results))) ∷ []

-- tool_results_message
unfoldable pub tool_results_message : List ToolResultBlock → Result Payload
unfolding elements
tool_results_message results =
    if is_nil results
    then raised
        (error tool_calling_error (lit "tool_results_message requires at least one result." ∷ []))
    else returned (results_turn results)
