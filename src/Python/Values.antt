-- ===== src/Python/Values.antt =====
-- The `object` values that the kernel's own mappings hold (`Mapping[str, object]`).
use mellivor_kernel.Prelude.{ℕ, String, ℤ, Bool, List, [], ◌∷◌, Dict}
use mellivor_kernel.Python.Texts.{Text}

-- A float of seconds is a number of clock ticks; an object that the kernel passes on unread is
-- `opaque`, by its identity. The last two are objects of the kernel's own classes
-- (providers/tool_calling.py): ToolCall and ToolSpec.
mutual
  pub data Value : Type 0 where
    none_value : Value
    str : Text → Value
    strs : List String → Value
    bool : Bool → Value
    int : ℤ → Value
    ticks : ℤ → Value
    opaque : ℕ → Value
    mapping : Fields → Value
    sequence : Elements → Value
    tool_call : (id name : String) → Fields → Value
    tool_spec : (name description : String) → Fields → Value

  -- a mapping inside a value
  pub data Fields : Type 0 where
    no_fields : Fields
    cons_field : String → Value → Fields → Fields

  pub data Elements : Type 0 where
    no_elements : Elements
    cons_element : Value → Elements → Elements

abbrev pub Payload : Type 0
Payload = Dict Value

-- A mapping inside a value as a dict, and back.
unfoldable pub items : Fields → Payload
items no_fields = []
items (cons_field k v rest) = (k, v) ∷ items rest

unfoldable pub as_fields : Payload → Fields
as_fields [] = no_fields
as_fields ((k, v) ∷ rest) = cons_field k v (as_fields rest)
