-- ===== src/Python/Sorting.antt =====
-- `sorted` on texts. UTF-8 keeps the order of code points, by which Python compares texts.
use Prim.Native.Nat.{Ordering}
use Prim.Native.String.{compare}
use mellivor_kernel.Prelude.{
  String, ◌≡◌, refl, Bool, true, false, ◌||◌, List, [], ◌∷◌, arith, contains, ◌==◌, if◌then◌else◌,
}

abbrev leb_text : String → String → Bool
leb_text s t = elim (compare s t) [ Ordering.gt ↦ false | _ ↦ true ]

insert_sorted : String → List String → List String
insert_sorted s [] = s ∷ []
insert_sorted s (t ∷ ts) =
    let rest = t ∷ insert_sorted s ts in if leb_text s t then s ∷ t ∷ ts else rest

unfoldable pub sorted : List String → List String
unfolding insert_sorted
sorted [] = []
sorted (s ∷ ss) = insert_sorted s (sorted ss)

contains-insert_sorted :
    (k s : String) (ss : List String) → contains k (insert_sorted s ss) ≡ (s == k || contains k ss)
unfolding insert_sorted
contains-insert_sorted k s [] = refl
contains-insert_sorted k s (t ∷ ts) = ground (arith, contains-insert_sorted k s ts)

-- Sorting keeps the members.
pub contains-sorted : (k : String) (ss : List String) → contains k (sorted ss) ≡ contains k ss
unfolding sorted
contains-sorted k [] = refl
contains-sorted k (s ∷ ss) = rw (contains-insert_sorted k s (sorted ss), contains-sorted k ss) refl

sorted_words : sorted ("b" ∷ "ab" ∷ "a" ∷ []) ≡ "a" ∷ "ab" ∷ "b" ∷ []
unfolding sorted
sorted_words = refl
