-- ===== src/Providers/Local/Post.antt =====
-- src/mellivor_kernel/providers/local.py: LocalProvider._post
use mellivor_kernel.Prelude.{
  ℕ, zero, suc, ◌+◌, ℤ, pos, negsuc, String, Option, List, [], ◌∷◌, nat_eq, if◌then◌else◌,
}
use mellivor_kernel.Python.{
  Payload, Text, lit, num, Exception, error, other_error, local_endpoint, timeout_fault,
  connection_fault, returned, raised,
}
use mellivor_kernel.World.{Call}
use mellivor_kernel.Providers.Vendor.{fault_of}
use mellivor_kernel.Providers.Local.Answers.{Response}

-- The arguments of `self._client.post`.
pub record LocalPost : Type 0 where
  pub endpoint : Text
  pub json : Payload
  pub headers : Option (List (String × Text))

-- What a post comes to: a response, `httpx.TimeoutException`, another `httpx.TransportError`, or
-- another exception.
pub data Posted : Type 0 where
  responded : Response → Posted
  post_timed_out transport_failed : Posted
  broke : Exception → Posted

abbrev pub Client : Type 0 → Type 0
Client E = LocalPost → E → Posted × E

-- self.configuration.max_retries + 1; a range that is empty for a negative bound
unfoldable pub attempts_of : ℤ → ℕ
attempts_of (pos n) = n + 1
attempts_of (negsuc n) = 0

abbrev pub timed_out_error : ℕ → Exception
timed_out_error attempts =
    fault_of local_endpoint timeout_fault
      (lit "Local inference endpoint timed out after " ∷ num attempts ∷ lit " attempt(s)." ∷ [])

abbrev pub unreachable_error : ℕ → Exception
unreachable_error attempts =
    fault_of local_endpoint connection_fault (
      lit "Could not reach local inference endpoint after "
      ∷ num attempts
      ∷ lit " attempt(s)."
      ∷ [])

-- The AssertionError behind the loop.
abbrev pub exhausted_error : Exception
exhausted_error =
    error other_error (lit "bounded local-provider retry loop exhausted unexpectedly" ∷ [])

module _ {E : Type 0} where
  -- One round of the loop, for the outcome of its post, and the rounds behind it.
  abbrev pub settle : ℕ → ℕ → Posted → Call E Response → Call E Response
  settle attempts attempt (responded r) rest env = (returned r, env)
  settle attempts attempt (broke e) rest env = (raised e, env)
  settle attempts attempt post_timed_out rest env =
      if nat_eq (attempt + 1) attempts then (raised (timed_out_error attempts), env) else rest env
  settle attempts attempt transport_failed rest env =
      if nat_eq (attempt + 1) attempts then (raised (unreachable_error attempts), env) else rest env

  -- The rounds that are left of `for attempt in range(attempts)`, from the given one on.
  unfoldable pub post_from : Client E → ℕ → LocalPost → ℕ → ℕ → Call E Response
  post_from client attempts arguments zero attempt env = (raised exhausted_error, env)
  post_from client attempts arguments (suc left) attempt env =
      let (outcome, env') = client arguments env in
      settle attempts attempt outcome (post_from client attempts arguments left (attempt + 1)) env'

  unfoldable pub post : Client E → ℕ → LocalPost → Call E Response
  unfolding post_from
  post client attempts arguments = post_from client attempts arguments attempts 0
