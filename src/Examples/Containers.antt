-- ===== src/Examples/Containers.antt =====
-- The theorems about the service container, on a container with one factory.
use mellivor_kernel.Prelude.{ℕ, suc, ◌≡◌, refl, true, some, [], ◌∷◌, get}
use mellivor_kernel.Python.{returned}
use mellivor_kernel.World.{Call}
use mellivor_kernel.Core.Container.{ServiceContainer, new_container, register_factory, resolve}
use mellivor_kernel.Core.Container.Laws.{
  Reach, new, next, registers, IsConsistent, Reach-IsConsistent, resolve-singleton,
}

-- A factory that numbers its instances.
abbrev numbered : Call ℕ ℕ
numbered made = (returned made, suc made)

abbrev clock_container : ServiceContainer ℕ ℕ
clock_container = record {
  factories = ("Clock", numbered) ∷ [];
  singletons = ("Clock", true) ∷ [];
  instances = [];
}

abbrev registered_container : ServiceContainer ℕ ℕ
registered_container = (register_factory "Clock" numbered true new_container).1

registered-Reach : Reach (registered_container, 0)
registered-Reach = next (new 0) (registers "Clock" numbered true new_container 0)

Reach-IsConsistent_example : IsConsistent registered_container
Reach-IsConsistent_example = Reach-IsConsistent registered-Reach

is_singleton : get "Clock" clock_container.singletons ≡ some true
unfolding get
is_singleton = refl

resolved : (resolve "Clock" (clock_container, 3)).0 ≡ returned 3
unfolding resolve get
resolved = refl

resolve-singleton_example :
    resolve "Clock" (resolve "Clock" (clock_container, 3)).1
    ≡ (returned 3, (resolve "Clock" (clock_container, 3)).1)
resolve-singleton_example = resolve-singleton "Clock" clock_container 3 3 is_singleton resolved
