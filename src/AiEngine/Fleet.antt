-- ===== src/AiEngine/Fleet.antt =====
-- src/mellivor_kernel/ai_engine/engine.py: the lifecycles of the plugins
pub mod Settled
pub mod Order
pub mod Starts
use mellivor_kernel.Prelude.{
  String, Bool, true, false, Option, none, some, List, [], ◌∷◌, map, Dict, get, put, if◌then◌else◌,
}
use mellivor_kernel.Python.{Result, returned, raised, Action, pure, ◌>>=◌, ◌>>◌}
use mellivor_kernel.World.{Call}
use mellivor_kernel.Plugins.Registry.{Plugin, PluginRegistry, lookup, enumerate}
use mellivor_kernel.Plugins.Lifecycle.{
  PluginLifecycle, PluginLifecycleState, registered, Method, initialize, start, stop, dispose,
  manage, allowed, perform,
}

-- A PluginLifecycle, with the plugin that it was made for.
pub record Managed (E : Type 0) : Type 0 where
  pub plugin : Plugin E
  pub lifecycle : PluginLifecycle

-- What the engine's plugin methods read and change: the environment of the plugins' own code, the
-- registry, which other code changes too, and `_plugin_lifecycles`.
pub record Fleet (E : Type 0) : Type 0 where
  pub env : E
  pub registry : PluginRegistry E
  pub lifecycles : Dict (Managed E)

abbrev pub is_new : PluginLifecycleState → Bool
is_new registered = true
is_new _ = false

module _ {E : Type 0} where
  unfoldable pub method_of : Method → Plugin E → Call E Unit
  method_of initialize p = p.initialize
  method_of start p = p.start
  method_of stop p = p.stop
  method_of dispose p = p.dispose

  -- What the plugin's own method answers, if its lifecycle calls it.
  unfoldable pub answer_of : Method → Managed E → Call E Unit
  unfolding method_of
  answer_of m one env =
      if allowed m one.lifecycle.state then method_of m one.plugin env else (returned tt, env)

  -- A method of a PluginLifecycle.
  unfoldable pub apply : Method → String → Managed E → Action (Fleet E) Unit
  unfolding answer_of
  apply m id one f =
      let (outcome, env') = answer_of m one f.env in
      let (r, l) = perform m outcome one.lifecycle in
      (r, record f { env = env'; lifecycles = put id (record one { lifecycle = l }) f.lifecycles })

  abbrev pub managed_new : String → Result (Plugin E) → Action (Fleet E) (Managed E)
  managed_new id (raised e) f = (raised e, f)
  managed_new id (returned p) f =
      let one : Managed E = record { plugin = p; lifecycle = manage p.metadata.id } in
      (returned one, record f { lifecycles = put id one f.lifecycles })

  abbrev pub managed : String → Option (Managed E) → Action (Fleet E) (Managed E)
  managed id (some one) f = (returned one, f)
  managed id none f = managed_new id (lookup id f.registry) f

  -- _lifecycle_for
  unfoldable pub lifecycle_for : String → Action (Fleet E) (Managed E)
  lifecycle_for id f = managed id (get id f.lifecycles) f

  unfoldable pub run_method : Method → String → Action (Fleet E) Unit
  unfolding lifecycle_for apply
  run_method m id = lifecycle_for id >>= apply m id

  abbrev pub initialize_new : String → Managed E → Action (Fleet E) Unit
  initialize_new id one = if is_new one.lifecycle.state then apply initialize id one else pure tt

  -- The body of the loop of `start_plugins`.
  unfoldable pub start_one : String → Action (Fleet E) Unit
  unfolding lifecycle_for apply run_method
  start_one id = (lifecycle_for id >>= initialize_new id) >> run_method start id

  unfoldable pub for_each : (String → Action (Fleet E) Unit) → List String → Action (Fleet E) Unit
  for_each step [] = pure tt
  for_each step (id ∷ ids) = step id >> for_each step ids

  abbrev pub plugin_ids : Fleet E → List String
  plugin_ids f = map (λ m. m.id) (enumerate f.registry)

  unfoldable pub start_plugins : Action (Fleet E) Unit
  unfolding for_each start_one
  start_plugins f = for_each start_one (plugin_ids f) f

  unfoldable pub stop_plugins : Action (Fleet E) Unit
  unfolding for_each run_method
  stop_plugins f = for_each (run_method stop) (plugin_ids f) f

  unfoldable pub dispose_plugins : Action (Fleet E) Unit
  unfolding for_each run_method
  dispose_plugins f = for_each (run_method dispose) (plugin_ids f) f
