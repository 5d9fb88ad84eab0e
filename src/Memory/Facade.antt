-- ===== src/Memory/Facade.antt =====
-- src/mellivor_kernel/memory: memory.py, store.py and result.py
use mellivor_kernel.Prelude.{ℕ, String, Bool, Option, List, length}
use mellivor_kernel.Python.{Text, Value, returned, Action}
use mellivor_kernel.Memory.Entry.{MemoryEntry}
use mellivor_kernel.Memory.Store.{MemoryQuery, Entries, find}
use mellivor_kernel.Memory.Store as Store

-- result.py
pub record MemoryResult : Type 0 where
  pub entries : List MemoryEntry

abbrev pub result_length : MemoryResult → ℕ
result_length r = length r.entries

-- store.py: the contract of a backend, over its state.
pub record MemoryStore (S : Type 0) : Type 0 where
  pub add : MemoryEntry → Action S Unit
  pub get : String → Action S (Option MemoryEntry)
  pub search : MemoryQuery → Action S MemoryResult
  pub delete : String → Action S Bool
  pub clear : Action S Unit

-- The in-memory store, as a backend. The parameters are those of its search.
unfoldable pub in_memory : (String → Text → Bool) → (Value → Value → Bool) → MemoryStore Entries
unfolding Store.add Store.delete Store.clear Store.search
in_memory occurs same = record {
  add = λ entry s. (returned tt, Store.add entry s);
  get = λ id s. (returned (find id s), s);
  search = λ query s. (returned (record { entries = Store.search occurs same query s }), s);
  delete = λ id s. let (removed, s') = Store.delete id s in (returned removed, s');
  clear = λ s. (returned tt, Store.clear s);
}

-- memory.py: the facade hands every call to its store, so it is a store as well.
pub record Memory (S : Type 0) : Type 0 where
  pub store : MemoryStore S

-- `Memory()`, with no store given
unfoldable pub new_memory : (String → Text → Bool) → (Value → Value → Bool) → Memory Entries
unfolding in_memory
new_memory occurs same = record { store = in_memory occurs same }

unfoldable pub as_store : {S : Type 0} → Memory S → MemoryStore S
as_store memory = record {
  add = λ entry. memory.store.add entry;
  get = λ id. memory.store.get id;
  search = λ query. memory.store.search query;
  delete = λ id. memory.store.delete id;
  clear = memory.store.clear;
}
