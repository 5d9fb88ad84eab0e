-- ===== src/Plugins/Registry.antt =====
-- src/mellivor_kernel/plugins/metadata.py and registry.py: the shared registry code over plugins.
use mellivor_kernel.Prelude.{String, Bool, List, [], ◌∷◌, map, Dict, if◌then◌else◌}
use mellivor_kernel.Python.{
  lit, is_blank, Result, returned, raised, error, plugin_validation_error,
  plugin_registration_error, Action,
}
use mellivor_kernel.World.{Call}
use mellivor_kernel.Plugins.Capability.{PluginCapability}
use mellivor_kernel.Registry
use mellivor_kernel.Registry.{Kind}

pub record PluginMetadata : Type 0 where
  pub id : String
  pub name : String
  pub version : String
  pub description : String
  pub capabilities : List PluginCapability

-- __post_init__
unfoldable pub make_plugin_metadata : PluginMetadata → Result PluginMetadata
make_plugin_metadata m =
    if is_blank m.id
    then raised (error plugin_validation_error (lit "PluginMetadata.id must not be blank." ∷ []))
    else if is_blank m.name
    then raised (error plugin_validation_error (lit "PluginMetadata.name must not be blank." ∷ []))
    else if is_blank m.version
    then raised
        (error plugin_validation_error (lit "PluginMetadata.version must not be blank." ∷ []))
    else returned m

-- plugins/base.py: the metadata and the four methods that a plugin's author writes.
pub record Plugin (E : Type 0) : Type 0 where
  pub metadata : PluginMetadata
  pub initialize : Call E Unit
  pub start : Call E Unit
  pub stop : Call E Unit
  pub dispose : Call E Unit

abbrev pub PluginRegistry : Type 0 → Type 0
PluginRegistry E = Dict (Plugin E)

module _ {E : Type 0} where
  abbrev pub plugin_kind : Kind (Plugin E)
  plugin_kind = record {
    ident = λ p. p.metadata.id;
    class = plugin_registration_error;
    noun = "Plugin ";
  }

  unfoldable pub register : Plugin E → Action (PluginRegistry E) Unit
  register = Registry.register plugin_kind

  unfoldable pub unregister : String → Action (PluginRegistry E) Unit
  unregister = Registry.unregister plugin_kind

  unfoldable pub lookup : String → PluginRegistry E → Result (Plugin E)
  lookup = Registry.lookup plugin_kind

  unfoldable pub exists : String → PluginRegistry E → Bool
  exists = Registry.exists plugin_kind

  unfoldable pub enumerate : PluginRegistry E → List PluginMetadata
  enumerate plugins = map (λ p. p.metadata) (Registry.items_of plugin_kind plugins)
