-- ===== src/Memory/Store/Laws.antt =====
-- What the in-memory store promises.
use mellivor_kernel.Prelude.{
  String, ◌≡◌, refl, ap, Bool, Option, none, some, List, [], ◌∷◌, arith, get, put, remove, values,
  keep, is_some, get-put, get-remove, HasUniqueKeys, put-HasUniqueKeys, remove-HasUniqueKeys,
  contains, ◌==◌, eq_iff, if◌then◌else◌,
}
use mellivor_kernel.Python.{Text, Value}
use mellivor_kernel.Memory.Entry.{MemoryEntry}
use mellivor_kernel.Memory.Store.{MemoryQuery, Entries, add, delete, clear, find, matches, search}

-- The store is a finite map: `get` behind `add` finds the new entry under its identifier, behind
-- `delete` it finds nothing under the deleted one, and every other identifier as before; behind
-- `clear` it finds nothing. `delete` answers whether there was an entry.
pub find_lem :
    (entry : MemoryEntry) (id k : String) (entries : Entries)
    → (find k (add entry entries) ≡ (if entry.id == k then some entry else find k entries))
      × (find k (delete id entries).1 ≡ (if id == k then none else find k entries))
      × ((delete id entries).0 ≡ is_some (find id entries))
      × (find k (clear entries) ≡ none)
unfolding add delete clear get
find_lem entry id k entries =
    (get-put entry.id k entry entries, get-remove id k entries, refl, refl)

-- A call that changes the store.
pub data Change : Type 0 where
  adds : MemoryEntry → Change
  deletes : String → Change
  clears : Change

unfoldable pub change : Change → Entries → Entries
change (adds entry) entries = add entry entries
change (deletes id) entries = (delete id entries).1
change clears entries = clear entries

unfoldable pub change_all : List Change → Entries → Entries
unfolding change
change_all [] entries = entries
change_all (c ∷ cs) entries = change_all cs (change c entries)

-- Every entry stands under its own identifier.
abbrev IsKeyed : Entries → Type 0
IsKeyed [] = Unit
IsKeyed ((k, entry) ∷ entries) = (entry.id ≡ k) × IsKeyed entries

record IsStore (entries : Entries) : Type 0 where
  unique : HasUniqueKeys entries
  keyed : IsKeyed entries

put-IsKeyed :
    (entry : MemoryEntry) (entries : Entries)
    → IsKeyed entries
    → IsKeyed (put entry.id entry entries)
unfolding put
put-IsKeyed entry [] h = (refl, tt)
put-IsKeyed entry ((k, e) ∷ entries) h =
    ground (arith, put-IsKeyed entry entries h.1, eq_iff k entry.id)

remove-IsKeyed : (id : String) (entries : Entries) → IsKeyed entries → IsKeyed (remove id entries)
unfolding remove
remove-IsKeyed id [] h = tt
remove-IsKeyed id ((k, e) ∷ entries) h = ground (arith, remove-IsKeyed id entries h.1)

change-IsStore : (c : Change) (entries : Entries) → IsStore entries → IsStore (change c entries)
unfolding change add delete clear
change-IsStore (adds entry) entries h = record {
  unique = put-HasUniqueKeys entry.id entry entries h.unique;
  keyed = put-IsKeyed entry entries h.keyed;
}
change-IsStore (deletes id) entries h = record {
  unique = remove-HasUniqueKeys id entries h.unique;
  keyed = remove-IsKeyed id entries h.keyed;
}
change-IsStore clears entries h = record { unique = tt; keyed = tt }

change_all-IsStore :
    (cs : List Change) (entries : Entries) → IsStore entries → IsStore (change_all cs entries)
unfolding change_all
change_all-IsStore [] entries h = h
change_all-IsStore (c ∷ cs) entries h = change_all-IsStore cs _ (change-IsStore c entries h)

-- The query by an identifier alone.
abbrev pub by_id : String → MemoryQuery
by_id k = record { id = some k; tag = none; metadata = []; text = none }

abbrev pub as_list : Option MemoryEntry → List MemoryEntry
as_list none = []
as_list (some entry) = entry ∷ []

-- The query with no filters.
abbrev pub everything : MemoryQuery
everything = record { id = none; tag = none; metadata = []; text = none }

module _ (occurs : String → Text → Bool) (same : Value → Value → Bool) where
  search_id :
      (k : String) (entries : Entries)
      → IsKeyed entries
      → HasUniqueKeys entries
      → search occurs same (by_id k) entries ≡ as_list (get k entries)
  unfolding search matches get values
  search_id k [] keyed unique = refl
  search_id k ((j, e) ∷ entries) keyed unique =
      ground (arith, search_id k entries keyed.1 unique.1, eq_iff j k)

  -- Whatever calls a new store gets, a search by an identifier alone finds what `get` finds.
  pub search-by_id :
      (cs : List Change) (k : String)
      → search occurs same (by_id k) (change_all cs []) ≡ as_list (find k (change_all cs []))
  search-by_id cs k =
      let h = change_all-IsStore cs [] (record { unique = tt; keyed = tt }) in
      search_id k (change_all cs []) h.keyed h.unique

  -- A search with no filters finds every entry, in insertion order.
  pub search-everything :
      (entries : Entries) → search occurs same everything entries ≡ values entries
  unfolding search matches values
  search-everything [] = refl
  search-everything ((k, e) ∷ entries) = ap (λ r. e ∷ r) (search-everything entries)

  -- A search for a tag as well finds what the search without it finds, less the entries that do not
  -- have the tag.
  pub search-tag :
      (query : MemoryQuery) (tag : String) (entries : Entries)
      → query.tag ≡ none
      → search occurs same (record query { tag = some tag }) entries
        ≡ keep (λ entry. contains tag entry.tags) (search occurs same query entries)
  unfolding search matches values
  search-tag query tag [] h = refl
  search-tag query tag ((k, e) ∷ entries) h = ground (arith, search-tag query tag entries)
