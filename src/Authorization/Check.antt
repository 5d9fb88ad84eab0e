-- ===== src/Authorization/Check.antt =====
-- What `check` answers, publishes and records.
use mellivor_kernel.Prelude.{
  String, ◌≡◌, ◌↔◌, inl, inr, ap, ◌∙◌, subst, sym, all, true, false, List, map, arith, contains,
  if◌then◌else◌,
}
use mellivor_kernel.Python.{
  has_text, is_blank, Exception, Result, returned, raised, Returns, Returns-map, >>=-returned, ◌>>◌,
  pure, lift, ◌>>=◌, is_tool_validation_error,
}
use mellivor_kernel.World.{World, NeverRaises, notify_lem, note, publish, audited, published}
use mellivor_kernel.Execution.Request.{ExecutionRequest}
use mellivor_kernel.Tools.Permissions.{Permission, permission_values, make_permissions}
use mellivor_kernel.Authorization.{
  AuthorizationResult, AuthorizationEngine, make_authorization_result, make_authorization_request,
  denied, authorize, conclude, check_claimed, check, decision_event, audit_record, audit,
}
use mellivor_kernel.Tools.Permissions.Claims.{
  is_permission, as_permission, IsRefusal, make_permissions_cases, permission_values-map,
}
use mellivor_kernel.Authorization.Decision.{required, authorize_iff, IsDecision}

module _ {E : Type 0} (engine : AuthorizationEngine E) where
  -- Each decision is published and recorded once, in this order, where there is a bus and a sink.
  conclude_lem :
      (request : ExecutionRequest) (r : AuthorizationResult) (w : World E)
      → NeverRaises engine.event_bus
      → NeverRaises engine.audit_sink
      → ((conclude engine request r w).0 ≡ returned r)
        × ((conclude engine request r w).1.trace
            ≡ note engine.audit_sink
                (audited (audit_record engine request r))
                (note engine.event_bus (published (decision_event engine request r)) w.trace))
  unfolding conclude
  conclude_lem request r w quiet_bus quiet_sink =
      let event = decision_event engine request r in
      let entry = audit_record engine request r in
      let (sent, sent_trace) = notify_lem engine.event_bus published event w quiet_bus in
      let w' = (publish engine.event_bus event w).1 in
      let (kept, kept_trace) = notify_lem engine.audit_sink audited entry w' quiet_sink in
      let run =
        >>=-returned (publish engine.event_bus event) (λ _. audit engine request r >> pure r) w sent
        ∙ >>=-returned (audit engine request r) (λ _. pure r) w' kept in
      (
        ap (λ p. p.0) run,
        ap (λ p. p.1.trace) run
            ∙ kept_trace
            ∙ ap (note engine.audit_sink (audited entry)) sent_trace,
      )

  -- The claims are permissions, and they hold every permission that the operation needs.
  abbrev pub IsAllowed : ExecutionRequest → List String → Type 0
  IsAllowed request claims =
      (all is_permission claims ≡ true)
      × ((v : String)
          → contains v
              (permission_values (required engine.tool_registry request.target request.operation))
            ≡ true
          → contains v claims ≡ true)

  -- The decision that `check` comes to, with no effect.
  decision : ExecutionRequest → Result (List Permission) → Result AuthorizationResult
  decision request (raised e) =
      if is_tool_validation_error e.class
      then make_authorization_result (denied e.message)
      else raised e
  decision request (returned claimed) = authorize engine (record {
    target = request.target;
    operation = request.operation;
    granted_permissions = claimed;
  })

  -- A decision with its reason, that grants exactly if the request is allowed.
  abbrev pub Answers : ExecutionRequest → List String → AuthorizationResult → Type 0
  Answers request claims r = IsDecision r × ((r.granted ≡ true) ↔ IsAllowed request claims)

  denied_iff :
      (request : ExecutionRequest) (claims : List String) (e : Exception)
      → all is_permission claims ≡ false
      → IsRefusal e
      → Returns (Answers request claims) (decision request (raised e))
  unfolding decision make_authorization_result has_text
  denied_iff request claims e bad refusal = ground arith

  concluded :
      (P : AuthorizationResult → Type 0) (request : ExecutionRequest)
      (d : Result AuthorizationResult) (w : World E)
      → NeverRaises engine.event_bus
      → NeverRaises engine.audit_sink
      → Returns P d
      → Returns
          (λ r.
            P r
            × (((lift d >>= conclude engine request) w).1.trace
                ≡ note engine.audit_sink
                    (audited (audit_record engine request r))
                    (note engine.event_bus (published (decision_event engine request r)) w.trace)))
          ((lift d >>= conclude engine request) w).0
  concluded P request (raised e) w quiet_bus quiet_sink h = h
  concluded P request (returned r) w quiet_bus quiet_sink h =
      let (value, trace) = conclude_lem request r w quiet_bus quiet_sink in
      subst (Returns _) (sym value) (h, trace)

  decision_iff :
      (request : ExecutionRequest) (claims : List String)
      → Returns (Answers request claims) (decision request (make_permissions claims))
  unfolding decision
  decision_iff request claims = elim (make_permissions_cases claims) [
    | inl (good, e) ↦
        let held = permission_values-map claims in
        subst (λ x. Returns (Answers request claims) (decision request x)) (sym e)
          (Returns-map (authorize engine _)
            (λ r h. (
              h.0,
              (
                λ granted. (good, λ v needs. rw held at (h.1.0 granted v needs)),
                λ allowed. h.1.1 (λ v needs. rw held (allowed.1 v needs)),
              ),
            ))
            (authorize_iff engine (record {
              target = request.target;
              operation = request.operation;
              granted_permissions = map as_permission claims;
            })))
    | inr (bad, (refused, e, refusal)) ↦
        subst (λ x. Returns (Answers request claims) (decision request x)) (sym e)
          (denied_iff request claims refused bad refusal)
  ]

  check_claimed-eq :
      (request : ExecutionRequest) (claimed : Result (List Permission)) (w : World E)
      → is_blank request.operation ≡ false
      → check_claimed engine request claimed w
        ≡ (lift (decision request claimed) >>= conclude engine request) w
  unfolding check_claimed decision make_authorization_request
  check_claimed-eq request (raised e) w h = ground arith
  check_claimed-eq request (returned claimed) w h = rw h

  -- For a request whose operation is not blank, and with a bus and a sink that never raise, `check`
  -- decides, with a reason exactly for a denial. It grants exactly if every claim is a permission
  -- and the claims hold all that the operation needs; and where there is a bus it publishes one
  -- event, and where there is a sink it records one audit entry, with that decision.
  pub check_lem :
      (request : ExecutionRequest) (claims : List String) (w : World E)
      → is_blank request.operation ≡ false
      → NeverRaises engine.event_bus
      → NeverRaises engine.audit_sink
      → Returns
          (λ r.
            Answers request claims r
            × ((check engine request claims w).1.trace
                ≡ note engine.audit_sink
                    (audited (audit_record engine request r))
                    (note engine.event_bus (published (decision_event engine request r)) w.trace)))
          (check engine request claims w).0
  unfolding check
  check_lem request claims w h quiet_bus quiet_sink =
      rw (check_claimed-eq request (make_permissions claims) w h) (
        concluded _ request (decision request (make_permissions claims)) w quiet_bus quiet_sink
          (decision_iff request claims))
