-- ===== src/Providers/Local/Retries.antt =====
-- How often LocalProvider posts, and what decides.
use mellivor_kernel.Prelude.{
  ℕ, zero, suc, ◌+◌, ◌≤◌, pos, ◌≡◌, ◌≢◌, refl, sym, ap, subst, Bool-cases, inl, inr, nat_eq, arith,
}
use mellivor_kernel.Python.{Result, returned, raised}
use mellivor_kernel.Tools.Pipeline.{Timer}
use mellivor_kernel.Providers.Local.Answers.{Response}
use mellivor_kernel.Providers.Local.Post.{
  LocalPost, Posted, responded, post_timed_out, transport_failed, broke, Client, attempts_of,
  timed_out_error, unreachable_error, settle, post_from, post,
}

-- An outcome after which the provider posts again.
abbrev pub IsTransient : Posted → Type 0
IsTransient post_timed_out = Unit
IsTransient transport_failed = Unit
IsTransient _ = ⊥

-- What `_post` makes of the last outcome.
unfoldable pub verdict : ℕ → Posted → Result Response
verdict attempts (responded r) = returned r
verdict attempts (broke e) = raised e
verdict attempts post_timed_out = raised (timed_out_error attempts)
verdict attempts transport_failed = raised (unreachable_error attempts)

module _ {E : Type 0} (client : Client E) (arguments : LocalPost) where
  -- Posts in a row, each but the last with a transient outcome.
  pub data Posts : ℕ → E → Posted → E → Type 0 where
    last : (env : E) → Posts 1 env (client arguments env).0 (client arguments env).1
    again :
        {count : ℕ} {outcome : Posted} {env' : E} (env : E)
        → IsTransient (client arguments env).0
        → Posts count (client arguments env).1 outcome env'
        → Posts (suc count) env outcome env'

  -- What a loop of posts comes to, with so many rounds left.
  pub record IsPosted (attempts left : ℕ) (env : E) (r : Result Response) (env' : E) : Type 0 where
    pub count : ℕ
    pub outcome : Posted
    pub posts : Posts count env outcome env'
    pub bounded : count ≤ left
    pub persistent : IsTransient outcome → count ≡ left
    pub result : r ≡ verdict attempts outcome

  -- A timer that each post takes forward, forward over all of them.
  pub Posts-forward :
      (timer : Timer E)
      → ((env : E) → (timer env).0 ≤ (timer (client arguments env).1).0)
      → {count : ℕ} {env env' : E} {outcome : Posted} → Posts count env outcome env'
      → (timer env).0 ≤ (timer env').0
  Posts-forward timer each (last env) = each env
  Posts-forward timer each (again env transient later) =
      omega (arith, each env, Posts-forward timer each later)

  -- The last outcome is one that the client has come to.
  pub Posts-outcome :
      {count : ℕ} {env env' : E} {outcome : Posted}
      → Posts count env outcome env'
      → (env'' : E) × ((client arguments env'').0 ≡ outcome)
  Posts-outcome (last env) = (env, refl)
  Posts-outcome (again env transient later) = Posts-outcome later

  final-IsPosted :
      (attempts left : ℕ) (env : E) (p : Posted)
      → (client arguments env).0 ≡ p
      → (IsTransient p → left ≡ 0)
      → IsPosted attempts (suc left) env (verdict attempts p) (client arguments env).1
  final-IsPosted attempts left env p same spent = record {
    count = 1;
    outcome = (client arguments env).0;
    posts = last env;
    bounded = omega arith;
    persistent = λ t. omega (arith, spent (subst IsTransient same t));
    result = ap (verdict attempts) (sym same);
  }

  retried-IsPosted :
      (attempts left : ℕ) (env env' : E) (p : Posted) (r : Result Response)
      → (client arguments env).0 ≡ p
      → IsTransient p
      → IsPosted attempts left (client arguments env).1 r env'
      → IsPosted attempts (suc left) env r env'
  retried-IsPosted attempts left env env' p r same transient later = record {
    count = suc later.count;
    outcome = later.outcome;
    posts = again env (subst IsTransient (sym same) transient) later.posts;
    bounded = omega (arith, later.bounded);
    persistent = λ t. ap suc (later.persistent t);
    result = later.result;
  }

  settle-IsPosted :
      (attempts left attempt : ℕ) (env : E) (p : Posted)
      → (client arguments env).0 ≡ p
      → attempt + suc left ≡ attempts
      → ((env' : E)
          → left ≢ 0
          → IsPosted attempts left env'
              (post_from client attempts arguments left (attempt + 1) env').0
              (post_from client attempts arguments left (attempt + 1) env').1)
      → IsPosted attempts
          (suc left)
          env
          (settle attempts attempt p
            (post_from client attempts arguments left (attempt + 1))
            (client arguments env).1).0
          (settle attempts attempt p
            (post_from client attempts arguments left (attempt + 1))
            (client arguments env).1).1
  unfolding verdict
  settle-IsPosted attempts left attempt env (responded r) same total later =
      final-IsPosted attempts left env (responded r) same (λ t. absurd t)
  settle-IsPosted attempts left attempt env (broke e) same total later =
      final-IsPosted attempts left env (broke e) same (λ t. absurd t)
  settle-IsPosted attempts left attempt env post_timed_out same total later =
      elim (Bool-cases (nat_eq (attempt + 1) attempts)) [
        | inl done ↦
            rw done (final-IsPosted attempts left env post_timed_out same (λ t. ground arith))
        | inr more ↦ rw more (
            retried-IsPosted attempts left env _ post_timed_out _ same tt
              (later (client arguments env).1 (ground arith)))
      ]
  settle-IsPosted attempts left attempt env transport_failed same total later =
      elim (Bool-cases (nat_eq (attempt + 1) attempts)) [
        | inl done ↦
            rw done (final-IsPosted attempts left env transport_failed same (λ t. ground arith))
        | inr more ↦ rw more (
            retried-IsPosted attempts left env _ transport_failed _ same tt
              (later (client arguments env).1 (ground arith)))
      ]

  post_from-IsPosted :
      (attempts left attempt : ℕ) (env : E)
      → attempt + left ≡ attempts
      → left ≢ 0
      → IsPosted attempts left env
          (post_from client attempts arguments left attempt env).0
          (post_from client attempts arguments left attempt env).1
  unfolding post_from
  post_from-IsPosted attempts zero attempt env total some_left = absurd (some_left refl)
  post_from-IsPosted attempts (suc left) attempt env total some_left =
      settle-IsPosted attempts left attempt env (client arguments env).0 refl total
        (λ env' more. post_from-IsPosted attempts left (attempt + 1) env' (omega arith) more)

  -- With a bound on retries that is not negative, the loop posts at least once and at most once more
  -- than the bound: each post but the last timed out or failed in transport, the outcome of the last
  -- decides, and if that is transient too, the bound is used up. So the assertion behind the loop
  -- is not reached.
  pub post-IsPosted :
      (max_retries : ℕ) (env : E)
      → IsPosted
          (max_retries + 1)
          (max_retries + 1)
          env
          (post client (attempts_of (pos max_retries)) arguments env).0
          (post client (attempts_of (pos max_retries)) arguments env).1
  unfolding post attempts_of
  post-IsPosted max_retries env =
      post_from-IsPosted (max_retries + 1) (max_retries + 1) 0 env (omega arith) (ground arith)
