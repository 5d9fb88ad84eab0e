-- ===== src/Memory/Entry.antt =====
-- src/mellivor_kernel/memory/entry.py. `created_at`, the time of construction, is left out: the
-- in-memory store never reads it.
use mellivor_kernel.Prelude.{String, List, [], ◌∷◌, if◌then◌else◌}
use mellivor_kernel.Python.{
  Payload, Text, lit, is_blank, is_blank_text, Result, returned, raised, error, memory_error,
}

pub record MemoryEntry : Type 0 where
  pub id : String
  pub content : Text
  pub tags : List String
  pub metadata : Payload

-- __post_init__
unfoldable pub make_entry : MemoryEntry → Result MemoryEntry
make_entry e =
    if is_blank e.id
    then raised (error memory_error (lit "MemoryEntry.id must not be blank." ∷ []))
    else if is_blank_text e.content
    then raised (error memory_error (lit "MemoryEntry.content must not be blank." ∷ []))
    else returned e
