-- ===== src/Python/Objects.antt =====
-- What Python gives on an object that the kernel only inspects: `isinstance` against the abstract
-- containers, `dict.get`, `str`, `repr`, `bool`, `getattr`, and the json module.
use Prim.Native.String.{◌++◌}
use mellivor_kernel.Prelude.{
  ℕ, zero, ℤ, pos, String, ◌≡◌, refl, ap, Bool, true, false, not, Option, none, some, List, [], ◌∷◌,
  map, is_nil, get, ◌==◌, if◌then◌else◌,
}
use mellivor_kernel.Python.Texts.{Piece, lit, Text, is_empty_text}
use mellivor_kernel.Python.Exceptions.{Exception, Result}
use mellivor_kernel.Python.Values.{
  Value, none_value, str, strs, bool, int, ticks, opaque, mapping, sequence, tool_call, tool_spec,
  no_fields, Elements, no_elements, cons_element, Payload, items, as_fields,
}

-- What `json.loads` or `Response.json` comes to: a value, a ValueError, or another exception.
pub data Loaded : Type 0 where
  loaded : Value → Loaded
  malformed : Loaded
  failed : Exception → Loaded

-- The interpreter's own code. `formatted` is how a part of an f-string that is no literal reads;
-- `to_str` and `repr` are of an object that is no `str`; `truth` and `attribute` are `bool` and
-- `getattr(..., None)` of an object that the kernel does not know.
pub record Builtins : Type 0 where
  pub formatted : Piece → String
  pub to_str : Value → Text
  pub repr : Value → Text
  pub truth : ℕ → Bool
  pub attribute : ℕ → String → Value
  pub dumps : Payload → Result Text
  pub loads : Text → Loaded

abbrev pub word : String → Value
word s = str (lit s ∷ [])

abbrev is_zero : ℤ → Bool
is_zero (pos zero) = true
is_zero _ = false

-- isinstance(v, Mapping); a value that is absent is None.
abbrev pub as_mapping : Value → Option Payload
as_mapping (mapping fields) = some (items fields)
as_mapping _ = none

unfoldable pub entries : Elements → List Value
entries no_elements = []
entries (cons_element v rest) = v ∷ entries rest

-- isinstance(v, Sequence) and not isinstance(v, str | bytes), with the entries
abbrev pub as_sequence : Value → Option (List Value)
as_sequence (sequence vs) = some (entries vs)
as_sequence (strs ss) = some (map word ss)
as_sequence _ = none

-- isinstance(v, str)
abbrev pub as_text : Value → Option Text
as_text (str t) = some t
as_text _ = none

abbrev pub is_none : Value → Bool
is_none none_value = true
is_none _ = false

-- request.get(key, default)
abbrev pub or_default : Value → Option Value → Value
or_default default none = default
or_default default (some v) = v

abbrev pub get_or : String → Value → Payload → Value
get_or key default p = or_default default (get key p)

-- request.get(key)
abbrev pub get_value : String → Payload → Value
get_value key p = get_or key none_value p

module _ (py : Builtins) where
  -- The characters of a text.
  unfoldable pub flat : Text → String
  flat [] = ""
  flat (lit s ∷ []) = s
  flat (lit s ∷ p ∷ ps) = s ++ flat (p ∷ ps)
  flat (p ∷ ps) = py.formatted p ++ flat ps

  -- v == s, for a literal s
  unfoldable pub is_word : String → Value → Bool
  unfolding flat
  is_word s (str t) = flat t == s
  is_word s _ = false

  -- str(v)
  unfoldable pub string_of : Value → Text
  string_of (str t) = t
  string_of v = py.to_str v

  -- bool(v)
  unfoldable pub is_true : Value → Bool
  is_true none_value = false
  is_true (str t) = not (is_empty_text t)
  is_true (strs ss) = not (is_nil ss)
  is_true (bool b) = b
  is_true (int n) = not (is_zero n)
  is_true (ticks n) = not (is_zero n)
  is_true (opaque n) = py.truth n
  is_true (mapping no_fields) = false
  is_true (sequence no_elements) = false
  is_true _ = true

  -- getattr(v, key, None): the kernel's own objects have their fields, a container has none of the
  -- names that the kernel asks for.
  unfoldable pub attribute_of : String → Value → Value
  attribute_of key (opaque n) = py.attribute n key
  attribute_of key (tool_call id name arguments) =
      if key == "id"
      then word id
      else if key == "name"
      then word name
      else if key == "arguments"
      then mapping arguments
      else none_value
  attribute_of key (tool_spec name description schema) =
      if key == "name"
      then word name
      else if key == "description"
      then word description
      else if key == "input_schema"
      then mapping schema
      else none_value
  attribute_of key _ = none_value

-- A mapping or a sequence that the kernel has built is read back as it was built.
pub items-as_fields : (p : Payload) → items (as_fields p) ≡ p
unfolding items as_fields
items-as_fields [] = refl
items-as_fields ((k, v) ∷ p) = ap (λ r. (k, v) ∷ r) (items-as_fields p)
