-- ===== src/Tools/Permissions/Pattern.antt =====
-- The pattern of a permission against an independent description: at least two segments between
-- dots, each an identifier, and perhaps one newline behind them.
use mellivor_kernel.Prelude.{
  ℕ, String, ◌≡◌, refl, ◌↔◌, Bool, true, false, ◌&&◌, List, [], ◌∷◌, arith, all, nat_eq,
  if◌then◌else◌,
}
use mellivor_kernel.Python.{returned}
use mellivor_kernel.Tools.Permissions.{
  codes, is_letter, is_word, Place, start, first, dot, later, pattern_match, make_permission,
}

-- The first segment and the later ones.
split_dots : List ℕ → List ℕ × List (List ℕ)
split_dots [] = ([], [])
split_dots (c ∷ cs) =
    let (head, tail) = split_dots cs in
    if nat_eq c b'.' then ([], head ∷ tail) else (c ∷ head, tail)

-- Without one newline at the end.
unfoldable pub chomp : List ℕ → List ℕ
chomp [] = []
chomp (c ∷ []) = if nat_eq c 10 then [] else c ∷ []
chomp (c ∷ d ∷ cs) = c ∷ chomp (d ∷ cs)

is_identifier : List ℕ → Bool
is_identifier [] = false
is_identifier (c ∷ cs) = is_letter c && all is_word cs

is_cons {ℓ} : {A : Type ℓ} → List A → Bool
is_cons [] = false
is_cons (x ∷ xs) = true

segments_match : Place → List ℕ × List (List ℕ) → Bool
unfolding is_identifier is_cons
segments_match start (head, tail) = is_identifier head && is_cons tail && all is_identifier tail
segments_match first (head, tail) = all is_word head && is_cons tail && all is_identifier tail
segments_match dot (head, tail) = is_identifier head && all is_identifier tail
segments_match later (head, tail) = all is_word head && all is_identifier tail

pattern_match-eq-segments_match :
    (p : Place) (cs : List ℕ) → pattern_match p cs ≡ segments_match p (split_dots (chomp cs))
unfolding pattern_match segments_match split_dots chomp
pattern_match-eq-segments_match start [] = refl
pattern_match-eq-segments_match first [] = refl
pattern_match-eq-segments_match dot [] = refl
pattern_match-eq-segments_match later [] = refl
pattern_match-eq-segments_match start (c ∷ []) = ground arith
pattern_match-eq-segments_match first (c ∷ []) = ground arith
pattern_match-eq-segments_match dot (c ∷ []) = ground arith
pattern_match-eq-segments_match later (c ∷ []) = ground arith
pattern_match-eq-segments_match start (c ∷ d ∷ cs) =
    ground (arith, pattern_match-eq-segments_match first (d ∷ cs))
pattern_match-eq-segments_match first (c ∷ d ∷ cs) = ground (
  arith,
  pattern_match-eq-segments_match first (d ∷ cs),
  pattern_match-eq-segments_match dot (d ∷ cs),
)
pattern_match-eq-segments_match dot (c ∷ d ∷ cs) =
    ground (arith, pattern_match-eq-segments_match later (d ∷ cs))
pattern_match-eq-segments_match later (c ∷ d ∷ cs) = ground (
  arith,
  pattern_match-eq-segments_match later (d ∷ cs),
  pattern_match-eq-segments_match dot (d ∷ cs),
)

-- At least two segments, all of them identifiers.
unfoldable pub is_dotted : List ℕ → Bool
unfolding split_dots segments_match
is_dotted cs = segments_match start (split_dots cs)

-- A permission is accepted exactly if its value, less one newline at its end, is two or more
-- identifiers with dots between them; the permission then holds the value as it was given.
pub make_permission_iff :
    (value : String)
    → (make_permission value ≡ returned (record { value = value }))
      ↔ (is_dotted (chomp (codes value)) ≡ true)
unfolding make_permission is_dotted
make_permission_iff value = ground (arith, pattern_match-eq-segments_match start (codes value))
