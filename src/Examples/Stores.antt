-- ===== src/Examples/Stores.antt =====
-- The theorems about the in-memory store, on a store of two entries.
use mellivor_kernel.Prelude.{
  String, Bool, ◌≡◌, false, none, some, List, [], ◌∷◌, is_some, ◌==◌, if◌then◌else◌,
}
use mellivor_kernel.Python.{Text, lit, Value}
use mellivor_kernel.Memory.Entry.{MemoryEntry}
use mellivor_kernel.Memory.Store.{Entries, add, delete, clear, find}
use mellivor_kernel.Memory.Store.Laws.{Change, adds, deletes, find_lem}

-- A substring test for texts of one piece, and objects that equal nothing.
abbrev is_piece : String → Text → Bool
is_piece wanted (lit s ∷ []) = wanted == s
is_piece wanted _ = false

abbrev nothing_equal : Value → Value → Bool
nothing_equal a b = false

abbrev note_entry : String → MemoryEntry
note_entry id = record { id = id; content = lit "hello" ∷ []; tags = "note" ∷ []; metadata = [] }

abbrev two_entries : Entries
two_entries = ("a", note_entry "a") ∷ ("b", record (note_entry "b") { tags = [] }) ∷ []

find_lem_example :
    (find "c" (add (note_entry "c") two_entries)
      ≡ (if "c" == "c" then some (note_entry "c") else find "c" two_entries))
    × (find "c" (delete "a" two_entries).1 ≡ (if "a" == "c" then none else find "c" two_entries))
    × ((delete "a" two_entries).0 ≡ is_some (find "a" two_entries))
    × (find "c" (clear two_entries) ≡ none)
find_lem_example = find_lem (note_entry "c") "a" "c" two_entries

abbrev some_changes : List Change
some_changes = adds (note_entry "a") ∷ adds (note_entry "b") ∷ deletes "a" ∷ []
