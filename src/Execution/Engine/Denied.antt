-- ===== src/Execution/Engine/Denied.antt =====
-- A request that the authorizer denies.
use mellivor_kernel.Prelude.{
  String, ◌≡◌, ◌⊎◌, ap, ◌∙◌, true, false, none, some, List, [], ◌∷◌, arith,
}
use mellivor_kernel.Python.{lit, has_text, text_or_not_blank, returned, resume, >>=-returned}
use mellivor_kernel.World.{World}
use mellivor_kernel.Execution.Request.{ExecutionRequest}
use mellivor_kernel.Execution.Result.{make_result, make_result-IsValidResult}
use mellivor_kernel.Execution.Engine.{
  ExecutionEngine, Authorizer, AuthorizationOutcome, denial, finish, start, after_decision,
  authorized, execute,
}
use mellivor_kernel.Execution.Engine.Finish.{
  IsSound, closing, default_not_blank, finish_lem, after_denied, execute-authorized,
}

denial_returned :
    (request : ExecutionRequest) (o : AuthorizationOutcome)
    → (o.reason ≡ none) ⊎ (has_text o.reason ≡ true)
    → make_result (denial request o) ≡ returned (denial request o)
unfolding make_result has_text
denial_returned request o h =
    ground
      (arith, text_or_not_blank o.reason (lit "Authorization denied." ∷ []) h default_not_blank)

module _ {E : Type 0} (engine : ExecutionEngine E) (request : ExecutionRequest)
    (sound : IsSound engine request) (authorizer : Authorizer E)
    (there : engine.authorizer ≡ some authorizer) where
  denied_run :
      (claims : List String) (w : World E) (o : AuthorizationOutcome)
      → (authorizer request claims (start engine request w).1).0 ≡ returned o
      → o.granted ≡ false
      → (o.reason ≡ none) ⊎ (has_text o.reason ≡ true)
      → execute engine request claims w
        ≡ finish engine request
            (denial request o)
            (authorizer request claims (start engine request w).1).1
  unfolding authorized
  denied_run claims w o decided denied reason =
      let s = (start engine request w).1 in
      let s' = (authorizer request claims s).1 in
      execute-authorized engine request sound claims w
      ∙ ap (λ a. authorized engine a request claims s) there
      ∙ >>=-returned (authorizer request claims) (after_decision engine request claims) s decided
      ∙ after_denied engine request claims o s' denied
      ∙ ap (λ r. resume r (finish engine request) s') (denial_returned request o reason)

  -- Where the authorizer denies, with a reason that is absent or not blank, and the bus and the sink
  -- never raise, `execute` returns the denial, and behind the authorizer's own calls it makes the
  -- closing ones only.
  pub execute_denied :
      (claims : List String) (w : World E) (o : AuthorizationOutcome)
      → (authorizer request claims (start engine request w).1).0 ≡ returned o
      → o.granted ≡ false
      → (o.reason ≡ none) ⊎ (has_text o.reason ≡ true)
      → ((execute engine request claims w).0 ≡ returned (denial request o))
        × ((execute engine request claims w).1.trace
            ≡ closing engine request
                (denial request o)
                (authorizer request claims (start engine request w).1).1.trace)
  execute_denied claims w o decided denied reason =
      let s' = (authorizer request claims (start engine request w).1).1 in
      let run = denied_run claims w o decided denied reason in
      let (same, valid) =
        make_result-IsValidResult (denial request o) (denial_returned request o reason) in
      let (value, trace) = finish_lem engine request sound (denial request o) s' valid in
      (ap (λ p. p.0) run ∙ value, ap (λ p. p.1.trace) run ∙ trace)
