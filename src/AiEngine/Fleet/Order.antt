-- ===== src/AiEngine/Fleet/Order.antt =====
-- Each plugin sees its lifecycle in order, whatever calls the engine gets.
use mellivor_kernel.Prelude.{
  some-injective, String, ◌≡◌, refl, subst, inl, inr, Bool-cases, Option, none, some, Dict, List,
  [], ◌∷◌, get, put, get-put, ◌==◌,
}
use mellivor_kernel.Python.{Result, returned, raised, Action, resume, ◌>>=◌, ◌>>◌}
use mellivor_kernel.Plugins.Registry.{Plugin, PluginRegistry, lookup}
use mellivor_kernel.Plugins.Lifecycle.{Method, initialize, start, stop, dispose}
use mellivor_kernel.Plugins.Lifecycle.Protocol.{InOrder, Follows, perform-Follows}
use mellivor_kernel.AiEngine.Fleet.{
  Managed, Fleet, answer_of, apply, managed, managed_new, lifecycle_for, run_method, is_new,
  initialize_new, start_one, for_each, start_plugins, stop_plugins, dispose_plugins,
}

module _ {E : Type 0} where
  -- The calls that an engine gets, and what other code does to the registry and to the environment.
  pub data Happens : Fleet E → Fleet E → Type 0 where
    starts : (f : Fleet E) → Happens f (start_plugins f).1
    stops : (f : Fleet E) → Happens f (stop_plugins f).1
    disposes : (f : Fleet E) → Happens f (dispose_plugins f).1
    changes :
        (f : Fleet E) (registry : PluginRegistry E) (env : E)
        → Happens f (record f { registry = registry; env = env })

  -- A fleet that a new engine has come to.
  pub data Reached : Fleet E → Type 0 where
    new :
        (registry : PluginRegistry E) (env : E)
        → Reached (record { env = env; registry = registry; lifecycles = [] })
    next : {f g : Fleet E} → Reached f → Happens f g → Reached g

  -- Each lifecycle that is kept has called its plugin in order, and its state tells the last call.
  record IsOrderly (lifecycles : Dict (Managed E)) : Type 0 where
    at : (id : String) (one : Managed E) → get id lifecycles ≡ some one → Follows one.lifecycle

  put-IsOrderly :
      (id : String) (one : Managed E) (lifecycles : Dict (Managed E))
      → IsOrderly lifecycles
      → Follows one.lifecycle
      → IsOrderly (put id one lifecycles)
  put-IsOrderly id one lifecycles h follows = record {
    at = λ j other found. elim (Bool-cases (id == j)) [
      | inl e ↦
          let same : some one ≡ some other = rw (get-put id j one lifecycles, e) at found in
          subst (λ (x : Managed E). Follows x.lifecycle) (some-injective same) follows
      | inr e ↦ h.at j other (rw (get-put id j one lifecycles, e) at found)
    ];
  }

  apply-IsOrderly :
      (m : Method) (id : String) (one : Managed E) (f : Fleet E)
      → Follows one.lifecycle
      → IsOrderly f.lifecycles
      → IsOrderly (apply m id one f).1.lifecycles
  unfolding apply
  apply-IsOrderly m id one f follows h =
      let l = one.lifecycle in
      put-IsOrderly id _ f.lifecycles h (
        perform-Follows m (answer_of m one f.env).0 l.plugin_id l.state l.calls follows.order
          follows.last)

  -- `_lifecycle_for`, and a statement that uses the lifecycle.
  found-IsOrderly :
      (id : String) (f : Fleet E) (k : Managed E → Action (Fleet E) Unit)
      → IsOrderly f.lifecycles
      → ((one : Managed E) (f' : Fleet E)
          → Follows one.lifecycle
          → IsOrderly f'.lifecycles
          → IsOrderly (k one f').1.lifecycles)
      → IsOrderly ((lifecycle_for id >>= k) f).1.lifecycles
  unfolding lifecycle_for
  found-IsOrderly id f k h later = go (get id f.lifecycles) refl
    where
      fresh :
          (r : Result (Plugin E))
          → IsOrderly (resume (managed_new id r f).0 k (managed_new id r f).1).1.lifecycles
      fresh (raised e) = h
      fresh (returned p) =
          later _ _ (record { order = tt; last = refl })
            (put-IsOrderly id _ f.lifecycles h (record { order = tt; last = refl }))

      go :
          (o : Option (Managed E))
          → get id f.lifecycles ≡ o
          → IsOrderly (resume (managed id o f).0 k (managed id o f).1).1.lifecycles
      go (some one) same = later one f (h.at id one same) h
      go none same = fresh (lookup id f.registry)

  run_method-IsOrderly :
      (m : Method) (id : String) (f : Fleet E)
      → IsOrderly f.lifecycles
      → IsOrderly (run_method m id f).1.lifecycles
  unfolding run_method
  run_method-IsOrderly m id f h = found-IsOrderly id f (apply m id) h (apply-IsOrderly m id)

  initialize_new-IsOrderly :
      (id : String) (one : Managed E) (f : Fleet E)
      → Follows one.lifecycle
      → IsOrderly f.lifecycles
      → IsOrderly (initialize_new id one f).1.lifecycles
  initialize_new-IsOrderly id one f follows h = elim (Bool-cases (is_new one.lifecycle.state)) [
    | inl e ↦ rw e (apply-IsOrderly initialize id one f follows h)
    | inr e ↦ rw e h
  ]

  then-IsOrderly :
      {A : Type 0} (m : Action (Fleet E) A) (n : Action (Fleet E) Unit) (f : Fleet E)
      → IsOrderly (m f).1.lifecycles
      → ((f' : Fleet E) → IsOrderly f'.lifecycles → IsOrderly (n f').1.lifecycles)
      → IsOrderly ((m >> n) f).1.lifecycles
  then-IsOrderly {A = A} m n f h later = go (m f).0
    where
      go : (r : Result A) → IsOrderly (resume r (λ _. n) (m f).1).1.lifecycles
      go (returned a) = later (m f).1 h
      go (raised e) = h

  start_one-IsOrderly :
      (id : String) (f : Fleet E) → IsOrderly f.lifecycles → IsOrderly (start_one id f).1.lifecycles
  unfolding start_one
  start_one-IsOrderly id f h =
      then-IsOrderly (lifecycle_for id >>= initialize_new id) (run_method start id) f
        (found-IsOrderly id f (initialize_new id) h (initialize_new-IsOrderly id))
        (run_method-IsOrderly start id)

  for_each-IsOrderly :
      (step : String → Action (Fleet E) Unit)
      → ((id : String) (f : Fleet E) → IsOrderly f.lifecycles → IsOrderly (step id f).1.lifecycles)
      → (ids : List String) (f : Fleet E) → IsOrderly f.lifecycles
      → IsOrderly (for_each step ids f).1.lifecycles
  unfolding for_each
  for_each-IsOrderly step each [] f h = h
  for_each-IsOrderly step each (id ∷ ids) f h =
      then-IsOrderly (step id) (for_each step ids) f (each id f h)
        (for_each-IsOrderly step each ids)

  Happens-IsOrderly :
      {f g : Fleet E} → Happens f g → IsOrderly f.lifecycles → IsOrderly g.lifecycles
  unfolding start_plugins stop_plugins dispose_plugins
  Happens-IsOrderly (starts f) h = for_each-IsOrderly start_one start_one-IsOrderly _ f h
  Happens-IsOrderly (stops f) h =
      for_each-IsOrderly (run_method stop) (run_method-IsOrderly stop) _ f h
  Happens-IsOrderly (disposes f) h =
      for_each-IsOrderly (run_method dispose) (run_method-IsOrderly dispose) _ f h
  Happens-IsOrderly (changes f registry env) h = h

  Reached-IsOrderly : {f : Fleet E} → Reached f → IsOrderly f.lifecycles
  unfolding get
  Reached-IsOrderly (new registry env) = record { at = λ id one found. absurd (cc) }
  Reached-IsOrderly (next before happens) = Happens-IsOrderly happens (Reached-IsOrderly before)

  -- Whatever calls an engine gets, whatever its plugins answer, and whatever other code does to the
  -- registry, each lifecycle that the engine keeps calls its plugin's methods in order: `initialize`
  -- once at most and before all others, `start` next behind `initialize` or `stop`, and `stop` next
  -- behind `start`.
  pub Reached-InOrder :
      {f : Fleet E} (id : String) (one : Managed E)
      → Reached f
      → get id f.lifecycles ≡ some one
      → InOrder one.lifecycle.calls
  Reached-InOrder id one reached found = ((Reached-IsOrderly reached).at id one found).order
