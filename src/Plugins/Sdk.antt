-- ===== src/Plugins/Sdk.antt =====
-- src/mellivor_kernel/plugin_sdk: builder.py, helpers.py and validation.py
use mellivor_kernel.Prelude.{String, Bool, true, false, List, [], if◌then◌else◌}
use mellivor_kernel.Python.{Result, returned, raised, is_plugin_validation_error, Action}
use mellivor_kernel.Plugins.Capability.{PluginCapability, make_capability, with_one, frozen}
use mellivor_kernel.Plugins.Version.{Unicode}
use mellivor_kernel.Plugins.Registry.{PluginMetadata, make_plugin_metadata}
use mellivor_kernel.Plugins.Loader.{PluginManifest, make_manifest}

-- The fields of the builder are those of a manifest.
pub record PluginBuilder : Type 0 where
  pub id : String
  pub name : String
  pub version : String
  pub author : String
  pub description : String
  pub capabilities : List PluginCapability
  pub minimum_kernel_version : String

-- `__init__`
abbrev pub new_builder : PluginBuilder
new_builder = record {
  id = "";
  name = "";
  version = "";
  author = "";
  description = "";
  capabilities = [];
  minimum_kernel_version = "0.0.0";
}

unfoldable pub with_id : String → PluginBuilder → PluginBuilder
with_id value builder = record builder { id = value }

unfoldable pub with_name : String → PluginBuilder → PluginBuilder
with_name value builder = record builder { name = value }

unfoldable pub with_version : String → PluginBuilder → PluginBuilder
with_version value builder = record builder { version = value }

unfoldable pub with_author : String → PluginBuilder → PluginBuilder
with_author value builder = record builder { author = value }

unfoldable pub with_description : String → PluginBuilder → PluginBuilder
with_description value builder = record builder { description = value }

-- A capability that is refused leaves the builder as it is.
unfoldable pub with_capability : String → String → Action PluginBuilder Unit
with_capability name description builder =
    elim (make_capability (record { name = name; description = description })) [
      | raised e ↦ (raised e, builder)
      | returned c ↦
          (returned tt, record builder { capabilities = with_one c builder.capabilities })
    ]

unfoldable pub with_capabilities : List PluginCapability → PluginBuilder → PluginBuilder
with_capabilities capabilities builder = record builder { capabilities = frozen capabilities }

unfoldable pub with_minimum_kernel_version : String → PluginBuilder → PluginBuilder
with_minimum_kernel_version value builder = record builder { minimum_kernel_version = value }

unfoldable pub build_manifest : Unicode → PluginBuilder → Result PluginManifest
build_manifest unicode b = make_manifest unicode (record {
  id = b.id;
  name = b.name;
  version = b.version;
  description = b.description;
  author = b.author;
  capabilities = b.capabilities;
  minimum_kernel_version = b.minimum_kernel_version;
})

unfoldable pub build_metadata : PluginBuilder → Result PluginMetadata
build_metadata b = make_plugin_metadata (record {
  id = b.id;
  name = b.name;
  version = b.version;
  description = b.description;
  capabilities = b.capabilities;
})

-- helpers.py
unfoldable pub create_capability : String → String → Result PluginCapability
create_capability name description =
    make_capability (record { name = name; description = description })

unfoldable pub create_manifest : Unicode → PluginManifest → Result PluginManifest
create_manifest unicode fields =
    make_manifest unicode (record fields { capabilities = frozen fields.capabilities })

unfoldable pub create_metadata : PluginMetadata → Result PluginMetadata
create_metadata fields =
    make_plugin_metadata (record fields { capabilities = frozen fields.capabilities })

-- `try: …; except PluginValidationError: return False`, and `return True`. Another exception goes on.
abbrev pub is_accepted : {A : Type 0} → Result A → Result Bool
is_accepted (returned a) = returned true
is_accepted (raised e) = if is_plugin_validation_error e.class then returned false else raised e

-- validation.py
unfoldable pub is_valid_capability : String → String → Result Bool
unfolding create_capability
is_valid_capability name description = is_accepted (create_capability name description)

unfoldable pub is_valid_metadata : PluginMetadata → Result Bool
unfolding create_metadata
is_valid_metadata fields = is_accepted (create_metadata fields)

unfoldable pub is_valid_manifest : Unicode → PluginManifest → Result Bool
unfolding create_manifest
is_valid_manifest unicode fields = is_accepted (create_manifest unicode fields)
