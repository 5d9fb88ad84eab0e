-- ===== src/Authorization/Authorizer.antt =====
-- The authorization engine as the authorizer of an execution engine: it has the two fields that
-- execution/contracts.py asks for.
use mellivor_kernel.Prelude.{
  String, ◌≡◌, refl, sym, subst, ◌⊎◌, inl, inr, Bool, true, false, none, some, List, [], Bool-cases,
}
use mellivor_kernel.Python.{
  returned, Returns, Returns-witness, Text, is_blank, has_text, pure, ◌>>=◌, >>=-returned,
}
use mellivor_kernel.World.{World, Effect, NeverRaises, AuditRecord, note, audited, published}
use mellivor_kernel.Events.Event.{authorization_granted, authorization_denied}
use mellivor_kernel.Execution.Request.{ExecutionTarget, ExecutionRequest}
use mellivor_kernel.Execution.Engine.{Authorizer, AuthorizationOutcome}
use mellivor_kernel.Execution.Engine.Closed.{note-Grew, Decides, Grew, KeepsApart}
use mellivor_kernel.Authorization.{
  AuthorizationEngine, AuthorizationResult, check, audit_record, decision_event,
}
use mellivor_kernel.Authorization.Check.{check_lem, Answers}
use mellivor_kernel.Authorization.Decision.{IsDecision}

unfoldable pub as_authorizer : {E : Type 0} → AuthorizationEngine E → Authorizer E
as_authorizer engine request claims = do
  r ← check engine request claims
  pure (record { granted = r.granted; reason = r.reason })

-- Effects that no decision makes.
pub record IsForeign (kind : Effect → Bool) : Type 0 where
  pub no_record : (a : AuditRecord) → kind (audited a) ≡ false
  pub no_grant :
      (id : String) (t : ExecutionTarget) (o : String) (ps : List String)
      → kind (published (authorization_granted id t o ps)) ≡ false
  pub no_denial :
      (id : String) (t : ExecutionTarget) (o : String) (reason : Text)
      → kind (published (authorization_denied id t o reason)) ≡ false

module _ {E : Type 0} (engine : AuthorizationEngine E) (request : ExecutionRequest)
    (quiet_bus : NeverRaises engine.event_bus) (quiet_sink : NeverRaises engine.audit_sink)
    (named : is_blank request.operation ≡ false) where
  -- What `check` answers, and what it leaves in the trace.
  Checked : List String → World E → AuthorizationResult → Type 0
  Checked claims w r =
      Answers engine request claims r
      × ((check engine request claims w).1.trace
          ≡ note engine.audit_sink (audited (audit_record engine request r))
              (note engine.event_bus (published (decision_event engine request r)) w.trace))

  checked :
      (claims : List String) (w : World E)
      → (r : AuthorizationResult) × ((check engine request claims w).0 ≡ returned r)
        × Checked claims w r
  unfolding Checked
  checked claims w =
      Returns-witness (check engine request claims w).0
        (check_lem engine request claims w named quiet_bus quiet_sink)

  abbrev outcome : AuthorizationResult → AuthorizationOutcome
  outcome r = record { granted = r.granted; reason = r.reason }

  as_authorizer-eq :
      (claims : List String) (w : World E) (r : AuthorizationResult)
      → (check engine request claims w).0 ≡ returned r
      → as_authorizer engine request claims w
        ≡ (returned (outcome r), (check engine request claims w).1)
  unfolding as_authorizer
  as_authorizer-eq claims w r e =
      >>=-returned (check engine request claims)
        (λ r. pure (record { granted = r.granted; reason = r.reason })) w e

  decision_reason :
      (r : AuthorizationResult) → IsDecision r → (r.reason ≡ none) ⊎ (has_text r.reason ≡ true)
  decision_reason r h = elim (Bool-cases r.granted) [
    | inl g ↦ inl (h.granted_reason g)
    | inr d ↦ inr (h.denied_reason d)
  ]

  as_authorizer-Decides : Decides (as_authorizer engine) request
  unfolding Checked
  as_authorizer-Decides = record {
    at = λ claims w.
        let (r, value, facts) = checked claims w in
        subst (λ p. Returns (λ o. (o.reason ≡ none) ⊎ (has_text o.reason ≡ true)) p.0)
          (sym (as_authorizer-eq claims w r value)) (decision_reason r facts.0.0);
  }

  event_foreign :
      (kind : Effect → Bool) (r : AuthorizationResult)
      → IsForeign kind
      → kind (published (decision_event engine request r)) ≡ false
  event_foreign kind r foreign = elim (Bool-cases r.granted) [
    | inl g ↦ rw g (foreign.no_grant _ _ _ _)
    | inr d ↦ rw d (foreign.no_denial _ _ _ _)
  ]

  -- With a bus and a sink that never raise, and for an operation that is not blank, the authorization
  -- engine keeps the contract of an authorizer: it decides, and all that it adds to the trace are
  -- events and records of its own.
  pub as_authorizer-KeepsApart :
      (kind : Effect → Bool) (claims : List String)
      → IsForeign kind
      → KeepsApart kind (some (as_authorizer engine)) request claims
  unfolding Checked
  as_authorizer-KeepsApart kind claims foreign = (
    as_authorizer-Decides,
    λ w.
        let (r, value, facts) = checked claims w in
        subst (λ p. Grew kind w.trace p.1.trace) (sym (as_authorizer-eq claims w r value))
          (rw facts.1 (
            note-Grew kind engine.audit_sink _ w.trace _ (foreign.no_record _) (
              note-Grew kind engine.event_bus _ w.trace w.trace (event_foreign kind r foreign)
                ([], refl, refl)))),
  )
