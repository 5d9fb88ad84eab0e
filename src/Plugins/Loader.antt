-- ===== src/Plugins/Loader.antt =====
-- src/mellivor_kernel/plugins: manifest.py and loader.py
pub mod Checks
use mellivor_kernel.Prelude.{
  ℕ, String, Bool, true, false, not, ◌&&◌, ◌||◌, List, [], ◌∷◌, ltb, nat_eq, ◌==◌, if◌then◌else◌,
}
use mellivor_kernel.Python.{
  Text, lit, quoted, is_blank, Exception, Result, returned, raised, error, ◌and_then◌,
  plugin_validation_error, plugin_load_error,
}
use mellivor_kernel.World.{Call}
use mellivor_kernel.Plugins.Version.{Unicode, parse_version}
use mellivor_kernel.Plugins.Capability.{PluginCapability}
use mellivor_kernel.Plugins.Registry.{Plugin}

pub record PluginManifest : Type 0 where
  pub id : String
  pub name : String
  pub version : String
  pub description : String
  pub author : String
  pub capabilities : List PluginCapability
  pub minimum_kernel_version : String

abbrev minimum_field : Text
minimum_field = lit "PluginManifest.minimum_kernel_version" ∷ []

-- PluginManifest.__post_init__
unfoldable pub make_manifest : Unicode → PluginManifest → Result PluginManifest
make_manifest unicode m =
    if is_blank m.id
    then raised (error plugin_validation_error (lit "PluginManifest.id must not be blank." ∷ []))
    else if is_blank m.name
    then raised (error plugin_validation_error (lit "PluginManifest.name must not be blank." ∷ []))
    else if is_blank m.author
    then raised
        (error plugin_validation_error (lit "PluginManifest.author must not be blank." ∷ []))
    else parse_version unicode m.version (lit "PluginManifest.version" ∷ [])
      and_then parse_version unicode m.minimum_kernel_version minimum_field
      and_then returned m

-- required > running, of tuples
abbrev pub is_newer : ℕ × ℕ × ℕ → ℕ × ℕ × ℕ → Bool
is_newer (major, minor, patch) (major', minor', patch') =
    ltb major' major
    || nat_eq major' major && (ltb minor' minor || nat_eq minor' minor && ltb patch' patch)

module _ (unicode : Unicode) (kernel_version : String) where
  abbrev too_new : PluginManifest → Exception
  too_new m = error plugin_load_error (
      lit "Plugin "
      ∷ quoted m.id
      ∷ lit " requires kernel >= "
      ∷ lit m.minimum_kernel_version
      ∷ lit ", but the running kernel is "
      ∷ lit kernel_version
      ∷ lit "."
      ∷ [])

  compare_versions : PluginManifest → Result (ℕ × ℕ × ℕ) → Result (ℕ × ℕ × ℕ) → Result Unit
  compare_versions m (raised e) running = raised e
  compare_versions m (returned required) (raised e) = raised e
  compare_versions m (returned required) (returned running) =
      if is_newer required running then raised (too_new m) else returned tt

  -- _check_compatibility
  unfoldable pub check_compatibility : PluginManifest → Result Unit
  unfolding compare_versions
  check_compatibility m =
      compare_versions m (parse_version unicode m.minimum_kernel_version minimum_field)
        (parse_version unicode kernel_version (lit "kernel_version" ∷ []))

  module _ {E : Type 0} where
    -- The part of `load` behind the call of the factory.
    unfoldable pub checked_plugin : PluginManifest → Result (Plugin E) → Result (Plugin E)
    checked_plugin m (raised e) = raised (
        error plugin_load_error
          (lit "Plugin " ∷ quoted m.id ∷ lit " failed to instantiate: " ∷ e.message))
    checked_plugin m (returned plugin) =
        if not (plugin.metadata.id == m.id)
        then raised (
            error plugin_load_error (
              lit "Plugin instance id "
              ∷ quoted plugin.metadata.id
              ∷ lit " does not match the manifest it was loaded from ("
              ∷ quoted m.id
              ∷ lit ")."
              ∷ []))
        else returned plugin

    -- The part of `load` behind the check.
    abbrev pub load_checked : Result Unit → PluginManifest → Call E (Plugin E) → Call E (Plugin E)
    load_checked (raised e) m factory env = (raised e, env)
    load_checked (returned _) m factory env =
        let (plugin, env') = factory env in (checked_plugin m plugin, env')

    -- PluginLoader.load
    unfoldable pub load : PluginManifest → Call E (Plugin E) → Call E (Plugin E)
    unfolding check_compatibility checked_plugin
    load m factory env = load_checked (check_compatibility m) m factory env
