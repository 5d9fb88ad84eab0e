-- ===== src/Providers/Registry.antt =====
-- src/mellivor_kernel/providers/base.py and registry.py: the shared registry code over providers.
use mellivor_kernel.Prelude.{String, Bool, List, Dict, keys}
use mellivor_kernel.Python.{Payload, Result, Action, provider_registration_error}
use mellivor_kernel.World.{Call}
use mellivor_kernel.Registry
use mellivor_kernel.Registry.{Kind}

-- What the kernel reads of a provider: its name, one of its capabilities, and `invoke`.
pub record BaseProvider (E : Type 0) : Type 0 where
  pub name : String
  pub supports_tool_calls : Bool
  pub invoke : Payload → Call E Payload

abbrev pub ProviderRegistry : Type 0 → Type 0
ProviderRegistry E = Dict (BaseProvider E)

module _ {E : Type 0} where
  abbrev pub provider_kind : Kind (BaseProvider E)
  provider_kind = record {
    ident = λ p. p.name;
    class = provider_registration_error;
    noun = "Provider ";
  }

  unfoldable pub register : BaseProvider E → Action (ProviderRegistry E) Unit
  register = Registry.register provider_kind

  unfoldable pub get : String → ProviderRegistry E → Result (BaseProvider E)
  get = Registry.lookup provider_kind

  unfoldable pub is_registered : String → ProviderRegistry E → Bool
  is_registered = Registry.exists provider_kind

  unfoldable pub list_providers : ProviderRegistry E → List String
  list_providers providers = keys providers
