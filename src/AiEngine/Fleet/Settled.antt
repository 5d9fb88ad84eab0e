-- ===== src/AiEngine/Fleet/Settled.antt =====
-- Where the lifecycles of the plugins are behind `start_plugins`, `stop_plugins` and `dispose_plugins`.
use mellivor_kernel.Prelude.{
  String, ◌≡◌, refl, sym, ◌∙◌, ap, subst, inl, inr, false, Bool-cases, Option, none, some, List, [],
  ◌∷◌, All, get, put, get-put, ◌==◌, eq_iff, eq_refl, if◌then◌else◌, arith,
}
use mellivor_kernel.Python.{Result, returned, raised, Action, resume, ◌>>=◌, raised_apart}
use mellivor_kernel.Plugins.Registry.{Plugin, lookup}
use mellivor_kernel.Plugins.Lifecycle.{
  PluginLifecycle, PluginLifecycleState, running, stopped, disposed, initialize, start, stop,
  dispose, Method, target, allowed, run, guarded, perform,
}
use mellivor_kernel.AiEngine.Fleet.{
  Managed, Fleet, answer_of, apply, managed, managed_new, lifecycle_for, run_method, is_new,
  initialize_new, start_one, for_each, plugin_ids, start_plugins, stop_plugins, dispose_plugins,
}

abbrev pub state_of_managed : {E : Type 0} → Option (Managed E) → Option PluginLifecycleState
state_of_managed none = none
state_of_managed (some one) = some one.lifecycle.state

-- The state of the lifecycle that is kept for an identifier.
abbrev pub state_in : {E : Type 0} → String → Fleet E → Option PluginLifecycleState
state_in id f = state_of_managed (get id f.lifecycles)

abbrev pub IsDone : Result Unit → Type 0
IsDone r = r ≡ returned tt

-- A statement in two parts that returns: both do.
>>=-done :
    {S A B : Type 0} (m : Action S A) (k : A → Action S B) (s : S) (b : B)
    → ((m >>= k) s).0 ≡ returned b
    → (a : A) × ((m s).0 ≡ returned a)
      × ((k a (m s).1).0 ≡ returned b)
      × (((m >>= k) s).1 ≡ (k a (m s).1).1)
>>=-done {S} {A} {B} m k s b h = go (m s).0 refl h
  where
    go :
        (r : Result A)
        → (m s).0 ≡ r
        → (resume r k (m s).1).0 ≡ returned b
        → (a : A) × ((m s).0 ≡ returned a)
          × ((k a (m s).1).0 ≡ returned b)
          × (((m >>= k) s).1 ≡ (k a (m s).1).1)
    go (returned a) same h = (a, same, h, ap (λ x. (resume x k (m s).1).1) same)
    go (raised e) same h = absurd (raised_apart h)

-- A method that returns leaves the lifecycle in its target.
perform-target :
    (m : Method) (outcome : Result Unit) (l : PluginLifecycle)
    → IsDone (perform m outcome l).0
    → (perform m outcome l).1.state ≡ target m
unfolding perform guarded run allowed target
perform-target initialize (returned _) l h = ground arith
perform-target initialize (raised e) l h = ground arith
perform-target start (returned _) l h = ground arith
perform-target start (raised e) l h = ground arith
perform-target stop (returned _) l h = ground arith
perform-target stop (raised e) l h = ground arith
perform-target dispose (returned _) l h = ground arith
perform-target dispose (raised e) l h = ground arith

module _ {E : Type 0} where
  -- A step for an identifier brings its lifecycle to a state if it returns, and leaves the others.
  pub record Settles (s : PluginLifecycleState) (step : String → Action (Fleet E) Unit)
      : Type 0 where
    pub reaches :
        (id : String) (f : Fleet E) → IsDone (step id f).0 → state_in id (step id f).1 ≡ some s
    pub keeps :
        (id j : String) (f : Fleet E) → (id == j) ≡ false → state_in j (step id f).1 ≡ state_in j f

  state_in-put :
      (id j : String) (one : Managed E) (f : Fleet E)
      → state_of_managed (get j (put id one f.lifecycles))
        ≡ (if id == j then some one.lifecycle.state else state_in j f)
  state_in-put id j one f =
      rw (get-put id j one f.lifecycles)
        (elim (Bool-cases (id == j)) [ inl e ↦ rw e refl | inr e ↦ rw e refl ])

  lifecycle_for-keeps :
      (id j : String) (f : Fleet E)
      → (id == j) ≡ false
      → state_in j (lifecycle_for id f).1 ≡ state_in j f
  unfolding lifecycle_for
  lifecycle_for-keeps id j f other = go (get id f.lifecycles)
    where
      fresh : (r : Result (Plugin E)) → state_in j (managed_new id r f).1 ≡ state_in j f
      fresh (raised e) = refl
      fresh (returned p) = state_in-put id j _ f ∙ rw other refl

      go : (o : Option (Managed E)) → state_in j (managed id o f).1 ≡ state_in j f
      go (some one) = refl
      go none = fresh (lookup id f.registry)

  apply-keeps :
      (m : Method) (id j : String) (one : Managed E) (f : Fleet E)
      → (id == j) ≡ false
      → state_in j (apply m id one f).1 ≡ state_in j f
  unfolding apply
  apply-keeps m id j one f other = state_in-put id j _ f ∙ rw other refl

  apply-reaches :
      (m : Method) (id : String) (one : Managed E) (f : Fleet E)
      → IsDone (apply m id one f).0
      → state_in id (apply m id one f).1 ≡ some (target m)
  unfolding apply
  apply-reaches m id one f h =
      state_in-put id id _ f
      ∙ rw (eq_refl id) (ap some (perform-target m (answer_of m one f.env).0 one.lifecycle h))

  >>=-keeps :
      {A : Type 0} (m : Action (Fleet E) A) (k : A → Action (Fleet E) Unit) (j : String)
      (f : Fleet E)
      → state_in j (m f).1 ≡ state_in j f
      → ((a : A) (f' : Fleet E) → state_in j (k a f').1 ≡ state_in j f')
      → state_in j ((m >>= k) f).1 ≡ state_in j f
  >>=-keeps {A = A} m k j f h later = go (m f).0
    where
      go : (r : Result A) → state_in j (resume r k (m f).1).1 ≡ state_in j f
      go (returned a) = later a (m f).1 ∙ h
      go (raised e) = h

  run_method-Settles : (m : Method) → Settles (target m) (run_method m)
  unfolding run_method
  run_method-Settles m = record {
    reaches = λ id f done.
        let (one, found, applied, same) = >>=-done (lifecycle_for id) (apply m id) f tt done in
        ap (state_in id) same ∙ apply-reaches m id one (lifecycle_for id f).1 applied;
    keeps = λ id j f other.
        >>=-keeps (lifecycle_for id) (apply m id) j f (lifecycle_for-keeps id j f other)
          (λ one f'. apply-keeps m id j one f' other);
  }

  initialize_new-keeps :
      (id j : String) (one : Managed E) (f : Fleet E)
      → (id == j) ≡ false
      → state_in j (initialize_new id one f).1 ≡ state_in j f
  initialize_new-keeps id j one f other = elim (Bool-cases (is_new one.lifecycle.state)) [
    | inl e ↦ rw e (apply-keeps initialize id j one f other)
    | inr e ↦ rw e refl
  ]

  pub start_one-Settles : Settles running start_one
  unfolding start_one target
  start_one-Settles = record {
    reaches = λ id f done.
        let first = lifecycle_for id >>= initialize_new id in
        let (u, found, started, same) = >>=-done first (λ _. run_method start id) f tt done in
        ap (state_in id) same ∙ (run_method-Settles start).reaches id (first f).1 started;
    keeps = λ id j f other.
        >>=-keeps (lifecycle_for id >>= initialize_new id) (λ _. run_method start id) j f
          (>>=-keeps (lifecycle_for id) (initialize_new id) j f (lifecycle_for-keeps id j f other)
            (λ one f'. initialize_new-keeps id j one f' other))
          (λ u f'. (run_method-Settles start).keeps id j f' other);
  }

  module _ (s : PluginLifecycleState) (step : String → Action (Fleet E) Unit)
      (settles : Settles s step) where
    step-keeps :
        (id j : String) (f : Fleet E)
        → IsDone (step id f).0
        → state_in j f ≡ some s
        → state_in j (step id f).1 ≡ some s
    step-keeps id j f done h = elim (Bool-cases (id == j)) [
      | inl e ↦
          subst (λ x. state_in x (step id f).1 ≡ some s) ((eq_iff id j).0 e)
            (settles.reaches id f done)
      | inr e ↦ settles.keeps id j f e ∙ h
    ]

    for_each-keeps :
        (ids : List String) (j : String) (f : Fleet E)
        → IsDone (for_each step ids f).0
        → state_in j f ≡ some s
        → state_in j (for_each step ids f).1 ≡ some s
    unfolding for_each
    for_each-keeps [] j f done h = h
    for_each-keeps (id ∷ ids) j f done h =
        let (u, first, later, same) = >>=-done (step id) (λ _. for_each step ids) f tt done in
        ap (state_in j) same ∙ for_each-keeps ids j (step id f).1 later (step-keeps id j f first h)

    for_each-settled :
        (ids : List String) (f : Fleet E)
        → IsDone (for_each step ids f).0
        → All (λ id. state_in id (for_each step ids f).1 ≡ some s) ids
    unfolding for_each
    for_each-settled [] f done = tt
    for_each-settled (id ∷ ids) f done =
        let (u, first, later, same) = >>=-done (step id) (λ _. for_each step ids) f tt done in
        (
          ap (state_in id) same
              ∙ for_each-keeps ids id (step id f).1 later (settles.reaches id f first),
          subst (λ g. All (λ j. state_in j g ≡ some s) ids) (sym same)
              (for_each-settled ids (step id f).1 later),
        )

  -- Where `start_plugins` returns, the lifecycle that is kept for each plugin of the registry is
  -- running.
  pub start_plugins-running :
      (f : Fleet E)
      → IsDone (start_plugins f).0
      → All (λ id. state_in id (start_plugins f).1 ≡ some running) (plugin_ids f)
  unfolding start_plugins
  start_plugins-running f = for_each-settled running start_one start_one-Settles (plugin_ids f) f

  -- Where `stop_plugins` returns, each of them is stopped.
  pub stop_plugins-stopped :
      (f : Fleet E)
      → IsDone (stop_plugins f).0
      → All (λ id. state_in id (stop_plugins f).1 ≡ some stopped) (plugin_ids f)
  unfolding stop_plugins target
  stop_plugins-stopped f =
      for_each-settled stopped (run_method stop) (run_method-Settles stop) (plugin_ids f) f

  -- Where `dispose_plugins` returns, each of them is disposed of.
  pub dispose_plugins-disposed :
      (f : Fleet E)
      → IsDone (dispose_plugins f).0
      → All (λ id. state_in id (dispose_plugins f).1 ≡ some disposed) (plugin_ids f)
  unfolding dispose_plugins target
  dispose_plugins-disposed f =
      for_each-settled disposed (run_method dispose) (run_method-Settles dispose) (plugin_ids f) f
