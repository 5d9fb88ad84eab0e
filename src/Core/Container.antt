-- ===== src/Core/Container.antt =====
-- src/mellivor_kernel/core/container.py. A service type is its name; its `repr` is kept as `quoted`.
-- A factory runs code outside the container; one that itself calls the container is left out.
pub mod Laws
use mellivor_kernel.Prelude.{
  String, Bool, true, false, ◌||◌, Option, none, some, List, [], ◌∷◌, Dict, get, put, has,
  if◌then◌else◌,
}
use mellivor_kernel.Python.{
  lit, quoted, Exception, Result, returned, raised, error, service_registration_error, other_error,
  Action,
}
use mellivor_kernel.World.{Call}

pub record ServiceContainer (E A : Type 0) : Type 0 where
  pub factories : Dict (Call E A)
  pub singletons : Dict Bool
  pub instances : Dict A

abbrev pub service_registered : String → Exception
service_registered t =
    error service_registration_error
      (lit "Service " ∷ quoted t ∷ lit " is already registered." ∷ [])

abbrev pub service_missing : String → Exception
service_missing t =
    error service_registration_error (lit "Service " ∷ quoted t ∷ lit " is not registered." ∷ [])

module _ {E A : Type 0} where
  -- __init__
  abbrev pub new_container : ServiceContainer E A
  new_container = record { factories = []; singletons = []; instances = [] }

  unfoldable pub is_registered : String → ServiceContainer E A → Bool
  is_registered t c = has t c.factories || has t c.instances

  -- `register`
  unfoldable pub register_factory : String → Call E A → Bool → Action (ServiceContainer E A) Unit
  unfolding is_registered
  register_factory t factory singleton c =
      if is_registered t c then (raised (service_registered t), c) else (
        returned tt,
        record c {
          factories = put t factory c.factories;
          singletons = put t singleton c.singletons;
        },
      )

  unfoldable pub register_instance : String → A → Action (ServiceContainer E A) Unit
  unfolding is_registered
  register_instance t instance c =
      if is_registered t c then (raised (service_registered t), c) else (
        returned tt,
        record c { instances = put t instance c.instances; singletons = put t true c.singletons },
      )

  -- The end of `resolve`, by the outcome of the factory and the entry of `_singletons`; a missing
  -- entry is a KeyError.
  built : String → Result A → Option Bool → Action (ServiceContainer E A × E) A
  built t (raised e) singleton s = (raised e, s)
  built t (returned a) none s = (raised (error other_error (quoted t ∷ [])), s)
  built t (returned a) (some true) s =
      (returned a, (record s.0 { instances = put t a s.0.instances }, s.1))
  built t (returned a) (some false) s = (returned a, s)

  unfoldable pub resolve : String → Action (ServiceContainer E A × E) A
  unfolding built
  resolve t s = elim (get t s.0.instances) [
    | some instance ↦ (returned instance, s)
    | none ↦ elim (get t s.0.factories) [
      | none ↦ (raised (service_missing t), s)
      | some factory ↦ built t (factory s.1).0 (get t s.0.singletons) (s.0, (factory s.1).1)
    ]
  ]
