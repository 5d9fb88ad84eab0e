-- ===== src/Tools/Permissions.antt =====
-- src/mellivor_kernel/tools/permissions.py
pub mod Pattern
pub mod Sets
pub mod Claims
use Prim.Native.Char.{code}
use mellivor_kernel.Prelude.{
  ℕ, String, Bool, true, false, not, ◌&&◌, ◌||◌, List, [], ◌∷◌, map, leb, nat_eq, contains, keep,
  if◌then◌else◌,
}
use mellivor_kernel.Python.{
  lit, quoted, Exception, Result, returned, raised, error, tool_validation_error,
}

-- The code points of a text.
abbrev pub codes : String → List ℕ
codes String.[] = []
codes (String.◌∷◌ c s) = code c ∷ codes s

-- [a-z]
abbrev pub is_letter : ℕ → Bool
is_letter c = leb b'a' c && leb c b'z'

-- [a-z0-9_]
abbrev pub is_word : ℕ → Bool
is_word c = leb b'a' c && leb c b'z' || leb b'0' c && leb c b'9' || nat_eq c b'_'

-- Where a match of `_PERMISSION_PATTERN` stands: before the first segment, in it, behind a dot, or
-- in a later segment.
pub data Place : Type 0 where
  start first dot later : Place

-- `re.match` of `^[a-z][a-z0-9_]*(\.[a-z][a-z0-9_]*)+$`: no choice in the pattern overlaps another,
-- so it is matched without backtracking. `$` also matches before a newline that ends the text.
unfoldable pub pattern_match : Place → List ℕ → Bool
pattern_match later [] = true
pattern_match _ [] = false
pattern_match start (c ∷ cs) = let rest = pattern_match first cs in is_letter c && rest
pattern_match first (c ∷ cs) =
    let word = pattern_match first cs in
    let next = pattern_match dot cs in if nat_eq c b'.' then next else is_word c && word
pattern_match dot (c ∷ cs) = let rest = pattern_match later cs in is_letter c && rest
pattern_match later (c ∷ []) = is_word c || nat_eq c 10
pattern_match later (c ∷ d ∷ cs) =
    let word = pattern_match later (d ∷ cs) in
    let next = pattern_match dot (d ∷ cs) in if nat_eq c b'.' then next else is_word c && word

pub record Permission : Type 0 where
  pub value : String

abbrev pub invalid_permission : String → Exception
invalid_permission value = error tool_validation_error (
    lit "Invalid permission "
    ∷ quoted value
    ∷ lit "; expected a dotted, lowercase identifier such as 'filesystem.read'."
    ∷ [])

-- __post_init__
unfoldable pub make_permission : String → Result Permission
make_permission value =
    if not (pattern_match start (codes value))
    then raised (invalid_permission value)
    else returned (record { value = value })

abbrev pub permission_values : List Permission → List String
permission_values = map (λ p. p.value)

-- required - granted
unfoldable pub missing_permissions : List Permission → List Permission → List Permission
missing_permissions required granted =
    keep (λ p. not (contains p.value (permission_values granted))) required

-- `frozenset(Permission(value) for value in values)`, in the iteration order of `values`. The first
-- value that is no permission raises.
unfoldable pub make_permissions : List String → Result (List Permission)
unfolding make_permission
make_permissions [] = returned []
make_permissions (v ∷ vs) =
    let rest = make_permissions vs in
    elim (make_permission v) [
      | raised e ↦ raised e
      | returned p ↦ elim rest [ raised e ↦ raised e | returned ps ↦ returned (p ∷ ps) ]
    ]
