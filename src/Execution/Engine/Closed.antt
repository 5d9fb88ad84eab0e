-- ===== src/Execution/Engine/Closed.antt =====
-- An execution from its start to its end, for any kind of call that must not stand between.
use mellivor_kernel.Prelude.{
  String, ◌≡◌, refl, sym, ap, subst, ◌∙◌, ◌⊎◌, inl, inr, Bool, true, false, Option, none, some,
  List, [], ◌∷◌, ◌++◌, any, any-append, arith, Bool-cases, append_assoc,
}
use mellivor_kernel.Python.{
  lit, text_or_not_blank, has_text, Result, returned, raised, Returns, resume,
}
use mellivor_kernel.World.{note, World, Effect}
use mellivor_kernel.Execution.Request.{ExecutionRequest}
use mellivor_kernel.Execution.Result.{ExecutionResult, IsValidResult, make_result}
use mellivor_kernel.Execution.Dispatch.{dispatch}
use mellivor_kernel.Execution.Dispatch.Reach.{Reached, dispatch-Reached}
use mellivor_kernel.Execution.Dispatch.Total.{IsWellBehavedHost, dispatch_total}
use mellivor_kernel.Execution.Engine.{
  ExecutionEngine, Authorizer, AuthorizationOutcome, denial, finish, start, dispatch_and_finish,
  after_decision, authorized, execute,
}
use mellivor_kernel.Execution.Engine.Finish.{
  IsSound, closing, default_not_blank, opening, finish_lem, start_lem, after_granted, after_denied,
  execute-authorized,
}

-- A trace that grew, and by no effect of this kind.
abbrev pub Grew : (Effect → Bool) → (before after : List Effect) → Type 0
Grew kind before after =
    (between : List Effect) × (after ≡ between ++ before) × (any kind between ≡ false)

Grew-trans :
    (kind : Effect → Bool) {a b c : List Effect} → Grew kind a b → Grew kind b c → Grew kind a c
Grew-trans kind {a} (m, e, q) (n, f, r) =
    (n ++ m, f ∙ ap (λ t. n ++ t) e ∙ sym (append_assoc n m a), ground (arith, any-append kind n m))

-- A call that a collaborator may get.
pub note-Grew :
    {A : Type 0} (kind : Effect → Bool) (f : Option A) (e : Effect) (before after : List Effect)
    → kind e ≡ false
    → Grew kind before after
    → Grew kind before (note f e after)
note-Grew kind none e before after h grew = grew
note-Grew kind (some f) e before after h (between, same, free) =
    (e ∷ between, ap (λ t. e ∷ t) same, ground arith)

-- What an authorizer decides: a denial has a reason that is absent or not blank.
pub record Decides {E : Type 0} (authorizer : Authorizer E) (request : ExecutionRequest)
    : Type 0 where
  pub at :
      (claims : List String) (w : World E)
      → Returns
          (λ o. (o.reason ≡ none) ⊎ (has_text o.reason ≡ true))
          (authorizer request claims w).0

-- The permissions that reach the dispatcher: with no authorizer the claims are dropped.
abbrev pub effective : {E : Type 0} → Option (Authorizer E) → List String → List String
effective none claims = []
effective (some authorizer) claims = claims

-- An authorizer, if there is one, decides, and makes no call of this kind.
abbrev pub KeepsApart :
    {E : Type 0} → (Effect → Bool) → Option (Authorizer E) → ExecutionRequest → List String → Type 0
KeepsApart kind none request claims = Unit
KeepsApart {E} kind (some authorizer) request claims =
    Decides authorizer request
    × ((w : World E) → Grew kind w.trace (authorizer request claims w).1.trace)

module _ {E : Type 0} (engine : ExecutionEngine E) (request : ExecutionRequest)
    (sound : IsSound engine request) (host : IsWellBehavedHost engine.dispatcher)
    (kind : Effect → Bool) where
  -- A dispatch with these permissions makes no call of the kind.
  abbrev pub DispatchesApart : List String → Type 0
  DispatchesApart granted =
      (before after : List Effect)
      → Reached engine.dispatcher request granted before after
      → Grew kind before after

  -- An execution that has come from `before` to an end with this trace.
  abbrev pub Closed : List Effect → List Effect → ExecutionResult → Type 0
  Closed before after r =
      IsValidResult r
      × ((middle : List Effect) × Grew kind before middle
          × (after ≡ closing engine request r middle))

  finish-Closed :
      (d : Result ExecutionResult) (before : List Effect) (w : World E)
      → Returns IsValidResult d
      → Grew kind before w.trace
      → Returns
          (Closed before (resume d (finish engine request) w).1.trace)
          (resume d (finish engine request) w).0
  finish-Closed (raised e) before w h grew = h
  finish-Closed (returned r) before w valid grew =
      let (value, trace) = finish_lem engine request sound r w valid in
      subst (Returns _) (sym value) (valid, (w.trace, grew, trace))

  dispatch-Closed :
      (granted : List String) (before : List Effect) (w : World E)
      → DispatchesApart granted
      → Grew kind before w.trace
      → Returns
          (Closed before (dispatch_and_finish engine request granted w).1.trace)
          (dispatch_and_finish engine request granted w).0
  unfolding dispatch_and_finish
  dispatch-Closed granted before w apart grew =
      finish-Closed (dispatch engine.dispatcher request granted w).0 before
        (dispatch engine.dispatcher request granted w).1
        (dispatch_total engine.dispatcher request granted w host)
        (Grew-trans kind grew (apart _ _ (dispatch-Reached engine.dispatcher request granted w)))

  denial_accepted :
      (o : AuthorizationOutcome)
      → (o.reason ≡ none) ⊎ (has_text o.reason ≡ true)
      → Returns IsValidResult (make_result (denial request o))
  unfolding make_result has_text
  denial_accepted o h =
      ground
        (arith, text_or_not_blank o.reason (lit "Authorization denied." ∷ []) h default_not_blank)

  after_decision-Closed :
      (claims : List String) (d : Result AuthorizationOutcome) (before : List Effect) (w : World E)
      → Returns (λ o. (o.reason ≡ none) ⊎ (has_text o.reason ≡ true)) d
      → DispatchesApart claims
      → Grew kind before w.trace
      → Returns
          (Closed before (resume d (after_decision engine request claims) w).1.trace)
          (resume d (after_decision engine request claims) w).0
  after_decision-Closed claims (raised e) before w h apart grew = h
  after_decision-Closed claims (returned o) before w h apart grew = elim (Bool-cases o.granted) [
    | inl yes_granted ↦
        rw (after_granted engine request claims o w yes_granted)
          (dispatch-Closed claims before w apart grew)
    | inr not_granted ↦
        rw (after_denied engine request claims o w not_granted)
          (finish-Closed (make_result (denial request o)) before w (denial_accepted o h) grew)
  ]

  authorized-Closed :
      (a : Option (Authorizer E)) (claims : List String) (before : List Effect) (w : World E)
      → KeepsApart kind a request claims
      → DispatchesApart (effective a claims)
      → Grew kind before w.trace
      → Returns
          (Closed before (authorized engine a request claims w).1.trace)
          (authorized engine a request claims w).0
  unfolding authorized
  authorized-Closed none claims before w h apart grew = dispatch-Closed [] before w apart grew
  authorized-Closed (some authorizer) claims before w h apart grew =
      after_decision-Closed claims (authorizer request claims w).0 before
        (authorizer request claims w).1 (h.0.at claims w) apart (Grew-trans kind grew (h.1 w))

  -- `execute` comes to an end, with no call of the kind between its start and its end.
  pub execute-Closed :
      (claims : List String) (w : World E)
      → KeepsApart kind engine.authorizer request claims
      → DispatchesApart (effective engine.authorizer claims)
      → Returns
          (Closed (opening engine request w.trace) (execute engine request claims w).1.trace)
          (execute engine request claims w).0
  execute-Closed claims w h apart = rw (execute-authorized engine request sound claims w) (
      authorized-Closed engine.authorizer claims (opening engine request w.trace)
        (start engine request w).1 h apart ([], (start_lem engine request sound w).1, refl))
