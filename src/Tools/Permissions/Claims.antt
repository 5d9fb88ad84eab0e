-- ===== src/Tools/Permissions/Claims.antt =====
-- Raw texts as permissions.
use mellivor_kernel.Prelude.{
  String, ◌≡◌, ap, ◌⊎◌, inl, inr, refl, Bool, true, false, List, [], ◌∷◌, map, all, arith,
  Bool-cases,
}
use mellivor_kernel.Python.{
  Exception, Result, returned, raised, is_tool_validation_error, is_blank_text, is_blank,
}
use mellivor_kernel.Tools.Permissions.{
  codes, start, pattern_match, Permission, permission_values, make_permission, make_permissions,
  invalid_permission,
}

-- The texts that are permissions.
abbrev pub is_permission : String → Bool
is_permission value = pattern_match start (codes value)

abbrev pub as_permission : String → Permission
as_permission value = record { value = value }

-- A refusal of a claim: a ToolValidationError with a text.
pub record IsRefusal (e : Exception) : Type 0 where
  pub class : is_tool_validation_error e.class ≡ true
  pub message : is_blank_text e.message ≡ false

abbrev pub Claims : List String → Result (List Permission) → Type 0
Claims values r =
    (all is_permission values ≡ true) × (r ≡ returned (map as_permission values))
    ⊎ (all is_permission values ≡ false) × ((e : Exception) × (r ≡ raised e) × IsRefusal e)

invalid_permission-IsRefusal : (v : String) → IsRefusal (invalid_permission v)
unfolding is_blank_text is_blank
invalid_permission-IsRefusal v = ground arith

-- The claims are permissions, one for each text, or one of them is refused.
pub make_permissions_cases : (values : List String) → Claims values (make_permissions values)
unfolding make_permissions make_permission
make_permissions_cases [] = inl (refl, refl)
make_permissions_cases (v ∷ vs) = elim (Bool-cases (is_permission v)) [
  | inl good ↦ elim (make_permissions_cases vs) [
    | inl (g, e) ↦ inl (ground arith, ground arith)
    | inr (b, (e, p, q)) ↦ inr (ground arith, (e, ground arith, q))
  ]
  | inr bad ↦
      inr (ground arith, (invalid_permission v, ground arith, invalid_permission-IsRefusal v))
]

pub permission_values-map :
    (values : List String) → permission_values (map as_permission values) ≡ values
permission_values-map [] = refl
permission_values-map (v ∷ vs) = ap (λ r. v ∷ r) (permission_values-map vs)
