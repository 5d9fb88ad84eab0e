-- ===== src/AiEngine/Owners.antt =====
-- src/mellivor_kernel/ai_engine/engine.py: `_registry_owners`, by which a live engine has its plugin
-- registry for itself.
pub mod Exclusive
use mellivor_kernel.Prelude.{
  String, Bool, false, Option, none, some, List, ◌∷◌, [], ◌++◌, Dict, get, put, is_some,
  if◌then◌else◌,
}
use mellivor_kernel.Python.{Text, lit, Result, returned, raised, error, ai_engine_error, Action}

-- Registries and engines by their identities: `owners` is `_registry_owners`, whose values are weak
-- references, and `engines` has the engines that are alive, with the registries they hold.
pub record Owners : Type 0 where
  pub owners : Dict String
  pub engines : Dict String

-- `existing_owner is not None and existing_owner() is not None`
unfoldable pub is_alive : Option String → Dict String → Bool
is_alive none engines = false
is_alive (some engine) engines = is_some (get engine engines)

-- AIEngine.__init__, as far as it is about the registry; `shown` is the registry's `repr`.
unfoldable pub own : (engine registry : String) (shown : Text) → Action Owners Unit
unfolding is_alive
own engine registry shown s =
    if is_alive (get registry s.owners) s.engines
    then (
      raised (
          error ai_engine_error (
            shown
            ++ lit " is already owned by another live AIEngine. "
              ∷ lit "Each AIEngine must be built with an exclusive PluginRegistry."
              ∷ [])),
      s,
    )
    else (
      returned tt,
      record { owners = put registry engine s.owners; engines = put engine registry s.engines },
    )
