-- ===== src/Python/Exceptions.antt =====
-- Exception classes of the kernel (`*/exceptions.py`) and results of code that may raise. A class
-- outside the kernel is `other_error`; what is no `Exception` (KeyboardInterrupt) is left out.
use mellivor_kernel.Prelude.{◌≡◌, refl, Bool, true, false, if◌then◌else◌}
use mellivor_kernel.Python.Texts.{Text}

-- The vendors of the concrete providers (providers/claude.py, openai.py, local.py), and the classes
-- that each declares: its base class, and those for authentication, timeouts, connections, responses.
pub data Vendor : Type 0 where
  claude openai gemini local_endpoint : Vendor

pub data Fault : Type 0 where
  provider_fault authentication_fault timeout_fault connection_fault response_fault : Fault

pub data ExceptionClass : Type 0 where
  vendor_error : Vendor → Fault → ExceptionClass
  service_registration_error startup_error event_dispatch_error : ExceptionClass
  tool_registration_error tool_validation_error provider_registration_error : ExceptionClass
  execution_validation_error dispatch_error authorization_error memory_error : ExceptionClass
  tool_loop_error provider_capability_error tool_calling_error : ExceptionClass
  workflow_error agent_error plugin_registration_error plugin_lifecycle_error : ExceptionClass
  plugin_validation_error plugin_load_error provider_configuration_error ai_engine_error
        other_error :
      ExceptionClass

-- `message` is `str(exc)`.
pub record Exception : Type 0 where
  pub class : ExceptionClass
  pub message : Text

abbrev pub error : ExceptionClass → Text → Exception
error class message = record { class = class; message = message }

pub data Result (A : Type 0) : Type 0 where
  returned : A → Result A
  raised : Exception → Result A

-- What holds of a value that is returned, and of an exception that is raised.
abbrev pub Ends : {A : Type 0} → (A → Type 0) → (Exception → Type 0) → Result A → Type 0
Ends P Q (returned a) = P a
Ends P Q (raised e) = Q e

-- A call that may raise, and the code that uses what it returns.
abbrev pub chain : {A B : Type 0} → Result A → (A → Result B) → Result B
chain (returned a) k = k a
chain (raised e) k = raised e

pub chain-Ends :
    {A B : Type 0} (P : A → Type 0) (R : B → Type 0) (Q : Exception → Type 0) (r : Result A)
    (k : A → Result B)
    → Ends P Q r
    → ((a : A) → P a → Ends R Q (k a))
    → Ends R Q (chain r k)
chain-Ends P R Q (returned a) k h f = f a h
chain-Ends P R Q (raised e) k h f = h

pub chain-returned :
    {A B : Type 0} (r : Result A) (k : A → Result B) (b : B)
    → chain r k ≡ returned b
    → (a : A) × (r ≡ returned a) × (k a ≡ returned b)
chain-returned (returned a) k b h = (a, refl, h)
chain-returned (raised e) k b h = cc

pub if-Ends :
    {A : Type 0} (P : A → Type 0) (Q : Exception → Type 0) (b : Bool) (r s : Result A)
    → (b ≡ true → Ends P Q r)
    → (b ≡ false → Ends P Q s)
    → Ends P Q (if b then r else s)
if-Ends P Q true r s h k = h refl
if-Ends P Q false r s h k = k refl

-- A check that may raise, and the code behind it.
infixr 4 ◌and_then◌
abbrev pub ◌and_then◌ : {A B : Type 0} → Result A → Result B → Result B
returned _ and_then r = r
raised e and_then r = raised e

pub raised_apart : {A : Type 0} {e : Exception} {a : A} → raised e ≡ returned a → ⊥
raised_apart h = cc

pub and_then-returned :
    {A B : Type 0} (r : Result A) (s : Result B) (b : B)
    → (r and_then s) ≡ returned b
    → ((a : A) × (r ≡ returned a)) × (s ≡ returned b)
and_then-returned (returned a) s b h = ((a, refl), h)
and_then-returned (raised e) s b h = absurd (raised_apart h)

pub returned-injective : {A : Type 0} {a b : A} → returned a ≡ returned b → a ≡ b
returned-injective e = cc

-- `except ToolValidationError`, `except ToolRegistrationError`, `except ProviderRegistrationError`
abbrev pub is_tool_validation_error : ExceptionClass → Bool
is_tool_validation_error tool_validation_error = true
is_tool_validation_error _ = false

abbrev pub is_tool_registration_error : ExceptionClass → Bool
is_tool_registration_error tool_registration_error = true
is_tool_registration_error _ = false

abbrev pub is_provider_registration_error : ExceptionClass → Bool
is_provider_registration_error provider_registration_error = true
is_provider_registration_error _ = false

-- `except PluginValidationError`
abbrev pub is_plugin_validation_error : ExceptionClass → Bool
is_plugin_validation_error plugin_validation_error = true
is_plugin_validation_error _ = false
