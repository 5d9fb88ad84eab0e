-- ===== src/Plugins/Capability.antt =====
-- src/mellivor_kernel/plugins/capability.py
use mellivor_kernel.Prelude.{String, Bool, ◌&&◌, List, [], ◌∷◌, ◌++◌, any, ◌==◌, if◌then◌else◌}
use mellivor_kernel.Python.{lit, is_blank, Result, returned, raised, error, plugin_validation_error}

pub record PluginCapability : Type 0 where
  pub name : String
  pub description : String

-- PluginCapability.__post_init__
unfoldable pub make_capability : PluginCapability → Result PluginCapability
make_capability c =
    if is_blank c.name
    then raised
        (error plugin_validation_error (lit "PluginCapability.name must not be blank." ∷ []))
    else returned c

-- c == d, of two capabilities
abbrev same_capability : PluginCapability → PluginCapability → Bool
same_capability c d = c.name == d.name && c.description == d.description

-- capabilities | {c}
unfoldable pub with_one : PluginCapability → List PluginCapability → List PluginCapability
with_one c capabilities =
    if any (same_capability c) capabilities then capabilities else capabilities ++ c ∷ []

with_each : List PluginCapability → List PluginCapability → List PluginCapability
unfolding with_one
with_each found [] = found
with_each found (c ∷ cs) = with_each (with_one c found) cs

-- frozenset(capabilities)
unfoldable pub frozen : List PluginCapability → List PluginCapability
unfolding with_each
frozen capabilities = with_each [] capabilities
