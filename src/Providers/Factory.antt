-- ===== src/Providers/Factory.antt =====
-- src/mellivor_kernel/providers/configuration.py and factory.py
use mellivor_kernel.Prelude.{
  ℤ, zero, pos, negsuc, is_negative, String, Bool, true, false, not, Option, none, some, [], ◌∷◌,
  ◌++◌, Dict, get, put, has, if◌then◌else◌,
}
use mellivor_kernel.Python.{
  Payload, lit, quoted, number_pieces, seconds, is_blank, Result, returned, raised, error,
  provider_configuration_error, provider_registration_error, Action,
}
use mellivor_kernel.World.{Call}
use mellivor_kernel.Providers.Registry.{BaseProvider}

-- The timeout is a number of clock ticks.
pub record ProviderConfiguration : Type 0 where
  pub provider_name : String
  pub default_model : Option String
  pub api_key : Option String
  pub base_url : Option String
  pub timeout : ℤ
  pub max_retries : ℤ
  pub extra : Payload

abbrev is_positive : ℤ → Bool
is_positive (pos zero) = false
is_positive (pos _) = true
is_positive (negsuc _) = false

-- ProviderConfiguration.__post_init__
unfoldable pub make_configuration : ProviderConfiguration → Result ProviderConfiguration
make_configuration c =
    if is_blank c.provider_name
    then raised (error provider_configuration_error (lit "provider_name must not be empty." ∷ []))
    else if not (is_positive c.timeout)
    then raised (
        error provider_configuration_error
          (lit "timeout_seconds must be positive, got " ∷ seconds c.timeout ∷ lit "." ∷ []))
    else if is_negative c.max_retries
    then raised (
        error provider_configuration_error (
          lit "max_retries must be non-negative, got "
          ∷ (number_pieces c.max_retries ++ lit "." ∷ [])))
    else returned c

-- ProviderFactory._constructors
abbrev pub ProviderFactory : Type 0 → Type 0
ProviderFactory E = Dict (ProviderConfiguration → Call E (BaseProvider E))

module _ {E : Type 0} where
  unfoldable pub register_provider_type :
      String → (ProviderConfiguration → Call E (BaseProvider E)) → Action (ProviderFactory E) Unit
  register_provider_type name constructor factory =
      if has name factory
      then (
        raised (
            error provider_registration_error (
              lit "Provider type "
              ∷ quoted name
              ∷ lit " is already registered with the factory."
              ∷ [])),
        factory,
      )
      else (returned tt, put name constructor factory)

  unfoldable pub create : ProviderFactory E → ProviderConfiguration → Call E (BaseProvider E)
  create factory c env = elim (get c.provider_name factory) [
    | none ↦ (
      raised (
          error provider_registration_error
            (lit "No provider type registered for " ∷ quoted c.provider_name ∷ lit "." ∷ [])),
      env,
    )
    | some constructor ↦ constructor c env
  ]

  unfoldable pub is_type_registered : ProviderFactory E → String → Bool
  is_type_registered factory name = has name factory
