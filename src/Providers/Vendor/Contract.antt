-- ===== src/Providers/Vendor/Contract.antt =====
-- What the concrete providers promise, and what they rely on: shared by the providers' contracts.
use mellivor_kernel.Prelude.{
  ◌≤◌, String, ◌≡◌, refl, false, subst, inl, inr, ◌⊎◌, ◌≢◌, ap, ◌&&◌, is_nil, List, [], ◌∷◌, map,
  All, get,
}
use mellivor_kernel.Python.{
  Payload, str, items-as_fields, Text, is_empty_text, Exception, Vendor, Fault, vendor_error, error,
  Result, returned, raised, Ends, Builtins, is_blank, is_blank_text, is_blank_piece,
  tool_calling_error, failed,
}
use mellivor_kernel.Providers.ToolCalling.{ToolCall, IsCall, elements}
use mellivor_kernel.Providers.Registry.{BaseProvider}
use mellivor_kernel.Tools.Pipeline.{Timer}
use mellivor_kernel.Execution.Dispatch.Total.{IsWellBehavedProvider}
use mellivor_kernel.Providers.ChatCompletions.Refused.{Admits}
use mellivor_kernel.Execution.ToolLoop.{parse, calls_of, calls_in}
use mellivor_kernel.Providers.Vendor.{
  SdkError, unauthenticated, timed_out, unreachable, escaped, fault_of, of_sdk_error, transact,
  call_value, calls_value,
}

-- A class of exceptions that holds what a vendor's provider raises by itself, and what json raises.
pub record Covers (py : Builtins) (vendor : Vendor) (Q : Exception → Type 0) : Type 0 where
  pub own : (f : Fault) (t : Text) → is_blank_text t ≡ false → Q (fault_of vendor f t)
  pub refused : (t : Text) → is_blank_text t ≡ false → Q (error tool_calling_error t)
  pub encoded : (p : Payload) (e : Exception) → py.dumps p ≡ raised e → Q e
  pub decoded : (t : Text) (e : Exception) → py.loads t ≡ failed e → Q e

module _ {py : Builtins} {vendor : Vendor} (Q : Exception → Type 0)
    (covers : Covers py vendor Q) where
  pub covers-Admits : (f : Fault) → Admits py (fault_of vendor f) Q
  covers-Admits f = record {
    made = covers.own f;
    refused = covers.refused;
    encoded = covers.encoded;
    decoded = covers.decoded;
  }

  -- The message of a translated error says more than the name of the API.
  pub of_sdk_error-Covers :
      (api : String) (e : SdkError)
      → is_blank api ≡ false
      → ((x : Exception) → e ≡ escaped x → Q x)
      → Q (of_sdk_error vendor api e)
  unfolding of_sdk_error is_blank_text is_blank_piece
  of_sdk_error-Covers api (unauthenticated t) named h = covers.own _ _ (rw named refl)
  of_sdk_error-Covers api (timed_out t) named h = covers.own _ _ refl
  of_sdk_error-Covers api (unreachable t) named h = covers.own _ _ refl
  of_sdk_error-Covers api (SdkError.refused t) named h = covers.own _ _ (rw named refl)
  of_sdk_error-Covers api (escaped e) named h = h e refl

-- What a provider answers: calls that were constructed, and a text or a call.
pub record IsReply (p : Payload) : Type 0 where
  pub constructed : All IsCall (parse p).1
  pub told : (is_empty_text (parse p).0 && is_nil (parse p).1) ≡ false

calls_in-elements : (calls : List ToolCall) → calls_in (elements (map call_value calls)) ≡ calls
unfolding calls_in elements
calls_in-elements [] = refl
calls_in-elements (c ∷ calls) =
    rw (items-as_fields c.arguments) (ap (λ r. c ∷ r) (calls_in-elements calls))

pub payload-IsReply :
    (text : Text) (calls : List ToolCall) (rest : Payload)
    → All IsCall calls
    → (is_empty_text text && is_nil calls) ≡ false
    → IsReply (("text", str text) ∷ ("tool_calls", calls_value calls) ∷ rest)
unfolding get calls_of
payload-IsReply text calls rest h told =
    let same = calls_in-elements calls in record { constructed = rw same h; told = rw same told }

abbrev pub IsReadable : Exception → Type 0
IsReadable e = is_blank_text e.message ≡ false

-- What the json module raises, if it raises, has a message.
pub record Explains (py : Builtins) : Type 0 where
  pub encoding : (p : Payload) (e : Exception) → py.dumps p ≡ raised e → IsReadable e
  pub decoding : (t : Text) (e : Exception) → py.loads t ≡ failed e → IsReadable e

pub any-Covers : (py : Builtins) (vendor : Vendor) → Covers py vendor (λ e. Unit)
any-Covers py vendor = record {
  own = λ f t visible. tt;
  refused = λ t visible. tt;
  encoded = λ p e raises. tt;
  decoded = λ t e raises. tt;
}

pub IsReadable-Covers :
    (py : Builtins) (vendor : Vendor) → Explains py → Covers py vendor IsReadable
IsReadable-Covers py vendor h = record {
  own = λ f t visible. visible;
  refused = λ t visible. visible;
  encoded = h.encoding;
  decoded = h.decoding;
}

-- A json module that encodes each dict, and raises nothing but ValueError for a text.
pub record Converts (py : Builtins) : Type 0 where
  pub encodes : (p : Payload) (e : Exception) → py.dumps p ≢ raised e
  pub decodes : (t : Text) (e : Exception) → py.loads t ≢ failed e

-- An error of a vendor's provider, or of the constructor of a tool call.
abbrev pub IsOwnError : Vendor → Exception → Type 0
IsOwnError vendor e =
    ((f : Fault) × (e.class ≡ vendor_error vendor f)) ⊎ (e.class ≡ tool_calling_error)

pub own-Covers :
    (py : Builtins) (vendor : Vendor) → Converts py → Covers py vendor (IsOwnError vendor)
own-Covers py vendor h = record {
  own = λ f t visible. inl (f, refl);
  refused = λ t visible. inr refl;
  encoded = λ p e raises. absurd (h.encodes p e raises);
  decoded = λ t e raises. absurd (h.decodes t e raises);
}

module _ {E R A : Type 0} (create : R → E → A × E) (conclude : A → Result Payload) (P : R → Type 0)
    (Q : Exception → Type 0) where
  pub transact-Ends :
      (T : Payload → Type 0) (r : Result R) (env : E)
      → Ends P Q r
      → ((request : R) → P request → Ends T Q (conclude (create request env).0))
      → Ends T Q (transact create conclude r env).0
  transact-Ends T (raised e) env h f = h
  transact-Ends T (returned r) env h f = f r h

  -- The client is called at most once, with a request that has the property.
  pub transact_once :
      (r : Result R) (env : E)
      → Ends P Q r
      → ((transact create conclude r env).1 ≡ env)
        ⊎ ((request : R) × P request
            × ((transact create conclude r env).1 ≡ (create request env).1))
  transact_once (raised e) env h = inl refl
  transact_once (returned r) env h = inr (r, h, refl)

-- A timer that goes forward by itself and over each call of a client.
pub record GoesForward {E R A : Type 0} (timer : Timer E) (create : R → E → A × E) : Type 0 where
  pub waits : (env : E) → (timer env).0 ≤ (timer (timer env).1).0
  pub answers : (r : R) (env : E) → (timer env).0 ≤ (timer (create r (timer env).1).1).0

pub transact_forward :
    {E R A : Type 0} (timer : Timer E) (create : R → E → A × E) (conclude : A → Result Payload)
    (r : Result R) (env : E)
    → GoesForward timer create
    → (timer env).0 ≤ (timer (transact create conclude r (timer env).1).1).0
transact_forward timer create conclude (raised e) env h = h.waits env
transact_forward timer create conclude (returned r) env h = h.answers r env

-- The contract of a provider that its callers rely on.
pub record KeepsContract {E : Type 0} (timer : Timer E) (p : BaseProvider E) : Type 0 where
  pub well_behaved : IsWellBehavedProvider timer p
  pub replies :
      (sent answer : Payload) (env : E) → (p.invoke sent env).0 ≡ returned answer → IsReply answer

pub KeepsContract-Ends :
    {E : Type 0} (timer : Timer E) (p : BaseProvider E)
    → ((sent : Payload) (env : E) → Ends IsReply IsReadable (p.invoke sent env).0)
    → ((sent : Payload) (env : E) → (timer env).0 ≤ (timer (p.invoke sent (timer env).1).1).0)
    → KeepsContract timer p
KeepsContract-Ends timer p ends forward = record {
  well_behaved = record {
    invoke_error = λ sent env e same. subst (Ends IsReply IsReadable) same (ends sent env);
    timer_monotone = forward;
  };
  replies = λ sent answer env same. subst (Ends IsReply IsReadable) same (ends sent env);
}
