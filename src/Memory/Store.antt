-- ===== src/Memory/Store.antt =====
-- src/mellivor_kernel/memory/in_memory.py and query.py
pub mod Laws
use mellivor_kernel.Prelude.{
  String, Bool, true, false, not, Option, none, some, List, [], ◌∷◌, Dict, get, put, remove, values,
  is_some, contains, all, keep, ◌==◌, if◌then◌else◌,
}
use mellivor_kernel.Python.{Text, Value, none_value, Payload}
use mellivor_kernel.Memory.Entry.{MemoryEntry}

pub record MemoryQuery : Type 0 where
  pub id : Option String
  pub tag : Option String
  pub metadata : Payload
  pub text : Option String

-- InMemoryStore._entries
abbrev pub Entries : Type 0
Entries = Dict MemoryEntry

unfoldable pub add : MemoryEntry → Entries → Entries
add entry entries = put entry.id entry entries

-- `delete` with its answer: `pop(entry_id, None) is not None`
unfoldable pub delete : String → Entries → Bool × Entries
delete id entries = (is_some (get id entries), remove id entries)

unfoldable pub clear : Entries → Entries
clear entries = []

-- InMemoryStore.get
abbrev pub find : String → Entries → Option MemoryEntry
find id entries = get id entries

-- A filter on a text that may be absent.
abbrev pub passes : (String → Bool) → Option String → Bool
passes test none = true
passes test (some wanted) = test wanted

-- `mapping.get(key)`
abbrev pub value_of : String → Payload → Value
value_of key payload = elim (get key payload) [ none ↦ none_value | some v ↦ v ]

-- `occurs` is `text in content`; `same` is `==` of two objects, whose `__eq__` their authors write.
module _ (occurs : String → Text → Bool) (same : Value → Value → Bool) where
  -- _matches
  unfoldable pub matches : MemoryEntry → MemoryQuery → Bool
  matches entry query =
      if not (passes (λ id. entry.id == id) query.id)
      then false
      else if not (passes (λ tag. contains tag entry.tags) query.tag)
      then false
      else if not (passes (λ text. occurs text entry.content) query.text)
      then false
      else all (λ wanted. same (value_of wanted.0 entry.metadata) wanted.1) query.metadata

  unfoldable pub search : MemoryQuery → Entries → List MemoryEntry
  search query entries = keep (λ entry. matches entry query) (values entries)
