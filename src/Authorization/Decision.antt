-- ===== src/Authorization/Decision.antt =====
-- When a request is authorized.
use mellivor_kernel.Prelude.{
  String, ◌≡◌, ◌↔◌, subst, sym, true, false, none, some, List, [], ◌∷◌, arith, get, if◌then◌else◌,
}
use mellivor_kernel.Python.{has_text, is_blank_text, returned, Returns, Returns-map}
use mellivor_kernel.Execution.Request.{ExecutionTarget, is_tool}
use mellivor_kernel.Tools.Permissions.{Permission, missing_permissions}
use mellivor_kernel.Tools.Permissions.Sets.{Covers, missing_permissions-nil_iff}
use mellivor_kernel.Tools.Registry.{ToolRegistry, lookup}
use mellivor_kernel.Registry
use mellivor_kernel.Authorization.{
  AuthorizationRequest, AuthorizationResult, AuthorizationEngine, make_authorization_result,
  resolve_required_permissions, decide_missing, authorize,
}

-- What an operation needs: the permissions of a registered tool, and nothing otherwise.
abbrev pub required : {E : Type 0} → ToolRegistry E → ExecutionTarget → String → List Permission
required tools target operation =
    if is_tool target then elim (get operation tools) [ none ↦ [] | some t ↦ t.permissions ] else []

resolve-eq-required :
    {E : Type 0} (tools : ToolRegistry E) (target : ExecutionTarget) (operation : String)
    → resolve_required_permissions tools target operation
      ≡ returned (required tools target operation)
unfolding resolve_required_permissions lookup Registry.lookup
resolve-eq-required tools target operation = ground arith

-- What the constructor of a decision guarantees.
pub record IsDecision (r : AuthorizationResult) : Type 0 where
  pub denied_reason : r.granted ≡ false → has_text r.reason ≡ true
  pub granted_reason : r.granted ≡ true → r.reason ≡ none
  pub denied_permissions : r.granted ≡ false → r.granted_permissions ≡ []

-- The value of a decision, by what is missing.
decide_missing-eq :
    (request : AuthorizationRequest) (missing : List Permission)
    → Returns
        (λ r. IsDecision r × ((r.granted ≡ true) ↔ (missing ≡ [])))
        (decide_missing request missing)
unfolding decide_missing make_authorization_result has_text is_blank_text
decide_missing-eq request [] = ground arith
decide_missing-eq request (p ∷ ps) = ground arith

module _ {E : Type 0} (engine : AuthorizationEngine E) where
  abbrev needed : AuthorizationRequest → List Permission
  needed request = required engine.tool_registry request.target request.operation

  authorize-eq :
      (request : AuthorizationRequest)
      → authorize engine request
        ≡ decide_missing request (missing_permissions (needed request) request.granted_permissions)
  unfolding authorize
  authorize-eq request =
      rw (resolve-eq-required engine.tool_registry request.target request.operation, authorize)

  -- `authorize` always decides, with a reason exactly for a denial, and grants exactly if the claimed
  -- permissions cover what the tool registry declares for the operation.
  pub authorize_iff :
      (request : AuthorizationRequest)
      → Returns
          (λ r.
            IsDecision r
            × ((r.granted ≡ true)
                ↔ Covers request.granted_permissions
                    (required engine.tool_registry request.target request.operation)))
          (authorize engine request)
  authorize_iff request =
      let missing = missing_permissions (needed request) request.granted_permissions in
      let covers = missing_permissions-nil_iff (needed request) request.granted_permissions in
      subst (Returns _) (sym (authorize-eq request)) (
        Returns-map (decide_missing request missing)
          (λ r h. (h.0, (λ g. covers.0 (h.1.0 g), λ c. h.1.1 (covers.1 c))))
          (decide_missing-eq request missing))
