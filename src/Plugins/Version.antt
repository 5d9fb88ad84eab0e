-- ===== src/Plugins/Version.antt =====
-- src/mellivor_kernel/plugins/versioning.py
pub mod RoundTrip
use Prim.Native.Char.{code}
use mellivor_kernel.Prelude.{
  ℕ, zero, suc, ◌+◌, ◌*◌, String, Bool, true, false, not, ◌&&◌, ◌||◌, Option, none, some, List, [],
  ◌∷◌, ◌++◌, length, is_nil, nat_eq, ltb, if◌then◌else◌,
}
use mellivor_kernel.Python.{
  Text, lit, quoted, is_space, Result, returned, raised, error, plugin_validation_error,
  other_error,
}

-- The tables of Unicode: whether `str.isdigit` holds of a code point, and the value that `int` reads
-- in it, if it is a decimal digit.
pub record Unicode : Type 0 where
  pub is_digit : ℕ → Bool
  pub decimal : ℕ → Option ℕ

unfoldable pub codes : String → List ℕ
codes String.[] = []
codes (String.◌∷◌ c s) = code c ∷ codes s

-- value.strip()
unfoldable pub strip_left : List ℕ → List ℕ
strip_left [] = []
strip_left (c ∷ cs) = let rest = strip_left cs in if is_space c then rest else c ∷ cs

unfoldable pub strip_right : List ℕ → List ℕ
strip_right [] = []
strip_right (c ∷ cs) =
    let rest = strip_right cs in if is_nil rest && is_space c then [] else c ∷ rest

-- A code point in front of the first part.
abbrev pub onto : ℕ → List (List ℕ) → List (List ℕ)
onto c [] = (c ∷ []) ∷ []
onto c (part ∷ parts) = (c ∷ part) ∷ parts

-- The code point of ".".
abbrev pub dot : ℕ
dot = 46

-- value.split(".")
unfoldable pub split : List ℕ → List (List ℕ)
split [] = [] ∷ []
split (c ∷ cs) = let rest = split cs in if nat_eq c dot then [] ∷ rest else onto c rest

module _ (unicode : Unicode) where
  abbrev pub all_digits : List ℕ → Bool
  all_digits [] = true
  all_digits (c ∷ cs) = unicode.is_digit c && all_digits cs

  -- part.isdigit()
  abbrev pub is_number : List ℕ → Bool
  is_number part = not (is_nil part) && all_digits part

  -- `int` reads a digit behind the number so far.
  unfoldable pub scan : List ℕ → ℕ → Option ℕ
  scan [] n = some n
  scan (c ∷ cs) n = elim (unicode.decimal c) [ none ↦ none | some d ↦ scan cs (n * 10 + d) ]

  abbrev value_error : Result ℕ
  value_error = raised (error other_error (lit "invalid literal for int() with base 10" ∷ []))

  -- int(part), for a part that `isdigit` holds of: a digit that is no decimal one is a ValueError, and
  -- so are more than 4300 digits.
  unfoldable pub int_of : List ℕ → Result ℕ
  unfolding scan
  int_of part =
      if ltb 4300 (length part)
      then value_error
      else elim (scan part 0) [ none ↦ value_error | some n ↦ returned n ]

  abbrev pub malformed : String → Text → Result (ℕ × ℕ × ℕ)
  malformed value field_name = raised (
      error plugin_validation_error (
        field_name
        ++ lit " must be a MAJOR.MINOR.PATCH version string, got " ∷ quoted value ∷ lit "." ∷ []))

  -- major, minor, patch = (int(part) for part in parts): the first error is raised.
  abbrev pub in_order : Result ℕ → Result ℕ → Result ℕ → Result (ℕ × ℕ × ℕ)
  in_order (raised e) b c = raised e
  in_order (returned a) (raised e) c = raised e
  in_order (returned a) (returned b) (raised e) = raised e
  in_order (returned a) (returned b) (returned c) = returned (a, b, c)

  unfoldable pub parse_parts : String → Text → List (List ℕ) → Result (ℕ × ℕ × ℕ)
  unfolding int_of
  parse_parts value field_name (a ∷ b ∷ c ∷ []) =
      if is_number a && (is_number b && is_number c)
      then in_order (int_of a) (int_of b) (int_of c)
      else malformed value field_name
  parse_parts value field_name _ = malformed value field_name

  unfoldable pub parse_version : String → Text → Result (ℕ × ℕ × ℕ)
  unfolding codes strip_left strip_right split parse_parts
  parse_version value field_name =
      parse_parts value field_name (split (strip_right (strip_left (codes value))))
