-- ===== src/Plugins/Loader/Checks.antt =====
-- When a plugin is loaded.
use mellivor_kernel.Prelude.{
  ℕ, String, ◌≡◌, ◌↔◌, refl, sym, ap, ◌∙◌, false, Bool-cases, inl, inr, ◌==◌, eq_iff, [], ◌∷◌,
}
use mellivor_kernel.Python.{lit, Result, returned, raised, returned-injective, raised_apart}
use mellivor_kernel.World.{Call}
use mellivor_kernel.Plugins.Version.{Unicode, parse_version}
use mellivor_kernel.Plugins.Registry.{Plugin}
use mellivor_kernel.Plugins.Loader.{
  PluginManifest, is_newer, compare_versions, check_compatibility, checked_plugin, load,
}

module _ {E : Type 0} (unicode : Unicode) (kernel_version : String) (m : PluginManifest) where
  checked_plugin_iff :
      (r : Result (Plugin E)) (plugin : Plugin E)
      → (checked_plugin unicode kernel_version m r ≡ returned plugin)
        ↔ ((r ≡ returned plugin) × (plugin.metadata.id ≡ m.id))
  unfolding checked_plugin
  checked_plugin_iff (raised e) plugin =
      (λ h. absurd (raised_apart h), λ h. absurd (raised_apart h.0))
  checked_plugin_iff (returned p) plugin = elim (Bool-cases (p.metadata.id == m.id)) [
    | inl same ↦ rw same (
      (λ h. (
        h,
        ap (λ q. q.metadata.id) (sym (returned-injective h)) ∙ (eq_iff p.metadata.id m.id).0 same,
      )),
      (λ h. h.0),
    )
    | inr other ↦ rw other (
      (λ h. absurd (raised_apart h)),
      (λ h.
          let same =
            (eq_iff p.metadata.id m.id).1
              (ap (λ q. q.metadata.id) (returned-injective h.0) ∙ h.1) in
          absurd (cc)),
    )
  ]

  module _ (factory : Call E (Plugin E)) (required running : ℕ × ℕ × ℕ)
      (required_read : parse_version unicode m.minimum_kernel_version
          (lit "PluginManifest.minimum_kernel_version" ∷ [])
        ≡ returned required)
      (running_read : parse_version unicode kernel_version (lit "kernel_version" ∷ [])
        ≡ returned running) where
    -- For versions that can be read, a plugin is loaded exactly if the kernel is not older than its
    -- manifest requires, the factory constructs it, and it has the identifier of the manifest.
    pub load_iff :
        (env : E) (plugin : Plugin E)
        → ((load unicode kernel_version m factory env).0 ≡ returned plugin) ↔ (
            (is_newer required running ≡ false)
            × (((factory env).0 ≡ returned plugin) × (plugin.metadata.id ≡ m.id)))
    unfolding load check_compatibility compare_versions
    load_iff env plugin = elim (Bool-cases (is_newer required running)) [
      | inl newer ↦
          rw (required_read, running_read, newer)
            ((λ h. absurd (raised_apart h)), (λ h. absurd (cc)))
      | inr compatible ↦
          rw (required_read, running_read, compatible)
            (
              (λ h. (refl, (checked_plugin_iff (factory env).0 plugin).0 h)),
              (λ h. (checked_plugin_iff (factory env).0 plugin).1 h.1),
            )
    ]
