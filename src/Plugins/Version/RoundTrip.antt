-- ===== src/Plugins/Version/RoundTrip.antt =====
-- Versions as they are written, and as they are read.
use mellivor_kernel.Prelude.{
  ℕ, zero, suc, ◌+◌, ◌*◌, ◌≤◌, ◌<◌, String, ◌≡◌, refl, ap, ◌∙◌, true, false, some, List, [], ◌∷◌,
  ◌++◌, length, is_nil, nat_eq, ltb, All, arith, if◌then◌else◌, Bool-cases, Option-cases, inl, inr,
}
use Prim.Native.Nat.{◌/◌, ◌%◌}
use mellivor_kernel.Python.{Text, is_space, returned}
use mellivor_kernel.Plugins.Version.{
  Unicode, codes, strip_left, strip_right, dot, split, all_digits, is_number, scan, int_of,
  parse_parts, parse_version,
}

-- The ASCII digits are digits, of their own values.
abbrev pub ReadsAscii : Unicode → Type 0
ReadsAscii unicode =
    (d : ℕ) → d < 10 → (unicode.is_digit (48 + d) ≡ true) × (unicode.decimal (48 + d) ≡ some d)

-- `str` of a number, on fuel that is larger than it.
unfoldable pub digits : ℕ → ℕ → List ℕ
digits zero n = []
digits (suc fuel) n =
    let front = digits fuel (n / 10) in
    if ltb n 10 then (48 + n) ∷ [] else front ++ (48 + n % 10) ∷ []

abbrev pub print : ℕ → List ℕ
print n = digits (suc n) n

-- f"{major}.{minor}.{patch}"
abbrev pub print_version : ℕ × ℕ × ℕ → List ℕ
print_version (major, minor, patch) = print major ++ dot ∷ (print minor ++ dot ∷ print patch)

abbrev IsAscii : ℕ → Type 0
IsAscii c = (d : ℕ) × (d < 10) × (c ≡ 48 + d)

abbrev IsWritten : ℕ → Type 0
IsWritten c = is_space c ≡ false

All-join : (P : ℕ → Type 0) (xs ys : List ℕ) → All P xs → All P ys → All P (xs ++ ys)
All-join P [] ys h k = k
All-join P (x ∷ xs) ys h k = (h.0, All-join P xs ys h.1 k)

digits-IsAscii : (fuel n : ℕ) → All IsAscii (digits fuel n)
unfolding digits
digits-IsAscii zero n = tt
digits-IsAscii (suc fuel) n = elim (Bool-cases (ltb n 10)) [
  | inl small ↦ rw small ((n, ground arith, refl), tt)
  | inr large ↦ rw large (
      All-join IsAscii (digits fuel (n / 10)) _ (digits-IsAscii fuel (n / 10))
        ((n % 10, omega arith, refl), tt))
]

snoc_some : (xs : List ℕ) (x : ℕ) → is_nil (xs ++ x ∷ []) ≡ false
snoc_some [] x = refl
snoc_some (y ∷ ys) x = refl

digits-some : (fuel n : ℕ) → n < fuel → is_nil (digits fuel n) ≡ false
unfolding digits
digits-some zero n h = absurd (omega arith)
digits-some (suc fuel) n h = elim (Bool-cases (ltb n 10)) [
  | inl small ↦ rw small refl
  | inr large ↦ rw large (snoc_some (digits fuel (n / 10)) (48 + n % 10))
]

ascii-IsWritten : (c : ℕ) → IsAscii c → IsWritten c
unfolding is_space
ascii-IsWritten c (d, small, same) = ground arith

ascii_apart : (c : ℕ) → IsAscii c → nat_eq c dot ≡ false
ascii_apart c (d, small, same) = ground arith

split-digits : (xs ys : List ℕ) → All IsAscii xs → split (xs ++ dot ∷ ys) ≡ xs ∷ split ys
unfolding split
split-digits [] ys h = refl
split-digits (x ∷ xs) ys h = rw (ascii_apart x h.0, split-digits xs ys h.1) refl

split-last : (xs : List ℕ) → All IsAscii xs → split xs ≡ xs ∷ []
unfolding split
split-last [] h = refl
split-last (x ∷ xs) h = rw (ascii_apart x h.0, split-last xs h.1) refl

strip_right-written : (xs : List ℕ) → All IsWritten xs → strip_right xs ≡ xs
unfolding strip_right
strip_right-written [] h = refl
strip_right-written (x ∷ xs) h = rw (strip_right-written xs h.1) (ground arith)

strip_left-written : (xs : List ℕ) → All IsWritten xs → strip_left xs ≡ xs
unfolding strip_left
strip_left-written [] h = refl
strip_left-written (x ∷ xs) h = ground arith

module _ (unicode : Unicode) (ascii : ReadsAscii unicode) where
  all_digits-ascii : (xs : List ℕ) → All IsAscii xs → all_digits unicode xs ≡ true
  all_digits-ascii [] h = refl
  all_digits-ascii (x ∷ xs) ((d, small, same), later) =
      let digit = (ascii d small).0 in rw (same, digit) (all_digits-ascii xs later)

  scan-snoc :
      (xs : List ℕ) (d n m : ℕ)
      → d < 10
      → scan unicode xs n ≡ some m
      → scan unicode (xs ++ (48 + d) ∷ []) n ≡ some (m * 10 + d)
  unfolding scan
  scan-snoc [] d n m small h = rw (ascii d small).1 (ground arith)
  scan-snoc (x ∷ xs) d n m small h = elim (Option-cases (unicode.decimal x)) [
    | inl nothing ↦ absurd (ground arith)
    | inr (k, e) ↦ rw e (scan-snoc xs d (n * 10 + k) m small (ground arith))
  ]

  scan-digits : (fuel n : ℕ) → n < fuel → scan unicode (digits fuel n) 0 ≡ some n
  unfolding digits scan
  scan-digits zero n h = absurd (omega arith)
  scan-digits (suc fuel) n h = elim (Bool-cases (ltb n 10)) [
    | inl small ↦ rw (small, (ascii n (ground arith)).1) (ap some (omega arith))
    | inr large ↦
        let front = scan-digits fuel (n / 10) (ground arith) in
        let whole : n / 10 * 10 + n % 10 ≡ n = omega arith in
        rw large
          (scan-snoc (digits fuel (n / 10)) (n % 10) 0 (n / 10) (omega arith) front ∙ ap some whole)
  ]

  -- A number that has as many digits as `int` reads at most.
  abbrev pub IsShort : ℕ → Type 0
  IsShort n = length (print n) ≤ 4300

  int_of-print : (n : ℕ) → IsShort n → int_of unicode (print n) ≡ returned n
  unfolding int_of
  int_of-print n short =
      let fits : ltb 4300 (length (print n)) ≡ false = ground arith in
      rw (fits, scan-digits (suc n) n (omega arith)) refl

  is_number-print : (n : ℕ) → is_number unicode (print n) ≡ true
  is_number-print n =
      rw
        (digits-some (suc n) n (omega arith), all_digits-ascii (print n) (digits-IsAscii (suc n) n))
        refl

  written : (xs : List ℕ) → All IsAscii xs → All IsWritten xs
  written [] h = tt
  written (x ∷ xs) h = (ascii-IsWritten x h.0, written xs h.1)

  print_version-IsWritten : (v : ℕ × ℕ × ℕ) → All IsWritten (print_version v)
  unfolding is_space
  print_version-IsWritten (a, b, c) =
      let part = λ (n : ℕ). written (print n) (digits-IsAscii (suc n) n) in
      All-join IsWritten (print a) _ (part a)
        (refl, All-join IsWritten (print b) _ (part b) (refl, part c))

  -- With the tables of Unicode reading the ASCII digits as they are, a version that is written with its
  -- three numbers, of at most 4300 digits each, is parsed as these numbers.
  pub parse_version-print :
      (major minor patch : ℕ) (value : String) (field_name : Text)
      → codes value ≡ print_version (major, minor, patch)
      → IsShort major
      → IsShort minor
      → IsShort patch
      → parse_version unicode value field_name ≡ returned (major, minor, patch)
  unfolding parse_version parse_parts
  parse_version-print a b c value field_name same short_a short_b short_c =
      let v = print_version (a, b, c) in
      let free = print_version-IsWritten (a, b, c) in
      let ascii_of = λ (n : ℕ). digits-IsAscii (suc n) n in
      let cut : split v ≡ print a ∷ print b ∷ print c ∷ [] =
        split-digits (print a) _ (ascii_of a)
        ∙ ap (λ r. print a ∷ r)
            (split-digits (print b) _ (ascii_of b)
              ∙ ap (λ r. print b ∷ r) (split-last (print c) (ascii_of c))) in
      let stripped : strip_right (strip_left v) ≡ v =
        ap strip_right (strip_left-written v free) ∙ strip_right-written v free in
      let parts : split (strip_right (strip_left (codes value)))
          ≡ print a ∷ print b ∷ print c ∷ [] =
        ap (λ r. split (strip_right (strip_left r))) same ∙ ap split stripped ∙ cut in
      ap (parse_parts unicode value field_name) parts
      ∙ (rw
          (
            is_number-print a,
            is_number-print b,
            is_number-print c,
            int_of-print a short_a,
            int_of-print b short_b,
            int_of-print c short_c,
          )
          refl)
