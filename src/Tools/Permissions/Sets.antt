-- ===== src/Tools/Permissions/Sets.antt =====
-- The set difference behind every permission check.
use mellivor_kernel.Prelude.{
  String, ◌≡◌, refl, ◌↔◌, true, false, not, ◌&&◌, List, [], ◌∷◌, arith, contains, eq_iff, eq_refl,
}
use mellivor_kernel.Tools.Permissions.{Permission, permission_values, missing_permissions}

-- `required <= granted`, value by value
abbrev pub Covers : (granted required : List Permission) → Type 0
Covers granted required =
    (v : String)
    → contains v (permission_values required) ≡ true
    → contains v (permission_values granted) ≡ true

pub contains-missing_permissions :
    (v : String) (required granted : List Permission)
    → contains v (permission_values (missing_permissions required granted))
      ≡ (contains v (permission_values required) && not (contains v (permission_values granted)))
unfolding missing_permissions
contains-missing_permissions v [] granted = refl
contains-missing_permissions v (p ∷ required) granted =
    ground (arith, eq_iff p.value v, contains-missing_permissions v required granted)

not_contains→nil :
    (ps : List Permission) → ((v : String) → contains v (permission_values ps) ≡ false) → ps ≡ []
not_contains→nil [] h = refl
not_contains→nil (p ∷ ps) h = ground (arith, h p.value, eq_refl p.value)

-- No permission is missing exactly if the granted ones cover the required ones.
pub missing_permissions-nil_iff :
    (required granted : List Permission)
    → (missing_permissions required granted ≡ []) ↔ Covers granted required
missing_permissions-nil_iff required granted = (
  λ none_missing v needed. ground (arith, contains-missing_permissions v required granted),
  λ covers.
      not_contains→nil (missing_permissions required granted)
        (λ v. ground (arith, contains-missing_permissions v required granted, covers v)),
)
