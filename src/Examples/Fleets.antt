-- ===== src/Examples/Fleets.antt =====
-- The theorems about the plugins of an AI engine and about who owns their registry.
use mellivor_kernel.Prelude.{
  some-injective, subst, eq_iff, arith, ℕ, suc, String, ◌≡◌, ◌≢◌, ◌↔◌, refl, [], ◌∷◌, All, none,
  some, get, put, remove, values, ◌==◌, eq_iff, Bool, true, false, if◌then◌else◌,
}
use mellivor_kernel.Python.{returned, lit}
use mellivor_kernel.Plugins.Registry.{Plugin, lookup, enumerate}
use mellivor_kernel.Plugins.Lifecycle.{running, stopped, initialize, start, stop, perform}
use mellivor_kernel.Plugins.Lifecycle.Protocol.{InOrder}
use mellivor_kernel.Registry
use mellivor_kernel.AiEngine.Fleet.{Managed, Fleet, start_plugins, stop_plugins, plugin_ids}
use mellivor_kernel.AiEngine.Fleet.Settled.{state_in}
use mellivor_kernel.AiEngine.Fleet.Starts.{IsQuiet, Indexed, start_plugins-starts}
use mellivor_kernel.AiEngine.Fleet.Order as Order
use mellivor_kernel.AiEngine.Fleet.Order.{Reached-InOrder}
use mellivor_kernel.AiEngine.Owners.{Owners, own, is_alive}
use mellivor_kernel.AiEngine.Owners.Exclusive as Exclusive
use mellivor_kernel.AiEngine.Owners.Exclusive.{engines_apart, own_exactly}

abbrev notes : Plugin ℕ
notes = record {
  metadata = record {
    id = "notes";
    name = "Notes";
    version = "1.0.0";
    description = "Takes notes.";
    capabilities = [];
  };
  initialize = λ now. (returned tt, suc now);
  start = λ now. (returned tt, suc now);
  stop = λ now. (returned tt, suc now);
  dispose = λ now. (returned tt, suc now);
}

abbrev new_fleet : Fleet ℕ
new_fleet = record { env = 0; registry = ("notes", notes) ∷ []; lifecycles = [] }

new_fleet-Indexed : Indexed new_fleet.registry
unfolding get
new_fleet-Indexed = record {
  unique = (refl, tt);
  named = λ k p found. ground (arith, eq_iff "notes" k);
}

notes-IsQuiet : IsQuiet notes
notes-IsQuiet = record { initializes = λ now. refl; starts = λ now. refl }

only_notes : (id : String) (p : Plugin ℕ) → get id new_fleet.registry ≡ some p → IsQuiet p
unfolding get
only_notes id p found = go ("notes" == id) found
  where
    go : (b : Bool) → (if b then some notes else none) ≡ some p → IsQuiet p
    go true same = subst IsQuiet (some-injective same) notes-IsQuiet
    go false same = absurd (cc)

start_plugins-starts_example :
    ((start_plugins new_fleet).0 ≡ returned tt)
    × All (λ id. state_in id (start_plugins new_fleet).1 ≡ some running) (plugin_ids new_fleet)
start_plugins-starts_example = start_plugins-starts new_fleet new_fleet-Indexed refl only_notes

abbrev started_fleet : Fleet ℕ
started_fleet = (start_plugins new_fleet).1

abbrev stopped_fleet : Fleet ℕ
stopped_fleet = (stop_plugins started_fleet).1

stopped_fleet-Reached : Order.Reached stopped_fleet
stopped_fleet-Reached =
    Order.next (Order.next (Order.new new_fleet.registry 0) (Order.starts new_fleet))
      (Order.stops started_fleet)

abbrev kept : Managed ℕ
kept = record {
  plugin = notes;
  lifecycle = record {
    plugin_id = "notes";
    state = stopped;
    calls = stop ∷ start ∷ initialize ∷ [];
  };
}

notes_kept : get "notes" stopped_fleet.lifecycles ≡ some kept
unfolding start_plugins stop_plugins enumerate Registry.items_of values get lookup Registry.lookup
    perform put
notes_kept = refl

Reached-InOrder_example : InOrder kept.lifecycle.calls
Reached-InOrder_example = Reached-InOrder "notes" kept stopped_fleet-Reached notes_kept

abbrev former : String
former = "engine1"

abbrev owner : String
owner = "engine2"

-- An engine goes, and another gets its registry.
abbrev taken : Owners
taken =
    (own "engine1" "plugins" (lit "<PluginRegistry>" ∷ []) (record { owners = []; engines = [] })).1

abbrev freed : Owners
freed = record taken { engines = remove "engine1" taken.engines }

abbrev retaken : Owners
retaken = (own "engine2" "plugins" (lit "<PluginRegistry>" ∷ []) freed).1

only_engine1 : (registry : String) → get registry freed.owners ≢ some "engine2"
unfolding own is_alive get put remove
only_engine1 registry h = go ("plugins" == registry) h
  where
    go : (b : Bool) → (if b then some former else none) ≡ some owner → ⊥
    go true h =
        let same : former ≡ owner = cc in
        let found : false ≡ true = (eq_iff former owner).1 same in cc
    go false h = cc

retaken-Reached : Exclusive.Reached retaken
unfolding get
retaken-Reached =
    Exclusive.next
      (Exclusive.next
        (Exclusive.next Exclusive.new
          (Exclusive.makes "engine1" "plugins" (lit "<PluginRegistry>" ∷ []) _ (λ r h. cc)))
        (Exclusive.collects_engine "engine1" taken))
      (Exclusive.makes "engine2" "plugins" (lit "<PluginRegistry>" ∷ []) freed only_engine1)

engine2_holds : get "engine2" retaken.engines ≡ some "plugins"
unfolding own is_alive get put remove
engine2_holds = refl

engines_apart_example : owner ≡ owner
engines_apart_example =
    engines_apart owner owner "plugins" retaken-Reached engine2_holds engine2_holds

own_exactly_example :
    ((own "engine3" "plugins" (lit "<PluginRegistry>" ∷ []) retaken).0 ≡ returned tt)
    ↔ ((other : String) → get other retaken.engines ≢ some "plugins")
own_exactly_example = own_exactly "engine3" "plugins" (lit "<PluginRegistry>" ∷ []) retaken-Reached
