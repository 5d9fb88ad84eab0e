-- ===== src/AiEngine/Fleet/Starts.antt =====
-- The first `start_plugins` of an engine whose plugins do not raise.
use mellivor_kernel.Prelude.{
  String, ◌≡◌, refl, ◌∙◌, ap, subst, false, Bool-cases, inl, inr, Option, none, some, List, [], ◌∷◌,
  All, get, get-put, ◌==◌, eq_refl, arith, values, map, eq_iff,
}
use mellivor_kernel.Python.{Result, returned, raised, Action, resume, ◌>>=◌}
use mellivor_kernel.Registry
use mellivor_kernel.Registry.{items_of}
use mellivor_kernel.Registry.Invariant.{IsIndexed}
use mellivor_kernel.Plugins.Registry.{Plugin, PluginRegistry, plugin_kind, lookup, enumerate}
use mellivor_kernel.Plugins.Lifecycle.{
  Method, initialize, start, running, perform, allowed, guarded, run, target,
}
use mellivor_kernel.AiEngine.Fleet.{
  Managed, Fleet, answer_of, apply, managed, managed_new, lifecycle_for, run_method, is_new,
  method_of, initialize_new, start_one, for_each, plugin_ids, start_plugins,
}
use mellivor_kernel.AiEngine.Fleet.Settled.{
  state_of_managed, state_in, IsDone, start_one-Settles, start_plugins-running,
}

-- A plugin whose `initialize` and `start` return.
pub record IsQuiet {E : Type 0} (p : Plugin E) : Type 0 where
  pub initializes : (env : E) → (p.initialize env).0 ≡ returned tt
  pub starts : (env : E) → (p.start env).0 ≡ returned tt

-- An identifier that no lifecycle is kept for, with its quiet plugin.
record IsReady {E : Type 0} (f : Fleet E) (id : String) : Type 0 where
  plugin : Plugin E
  found : lookup id f.registry ≡ returned plugin
  quiet : IsQuiet plugin
  new : get id f.lifecycles ≡ none

-- No identifier stands twice.
IsDistinct : List String → Type 0
IsDistinct [] = Unit
IsDistinct (id ∷ ids) = All (λ j. (id == j) ≡ false) ids × IsDistinct ids

module _ {E : Type 0} where
  start_one-returns : (id : String) (f : Fleet E) → IsReady f id → IsDone (start_one id f).0
  unfolding start_one lifecycle_for apply run_method answer_of method_of perform guarded run allowed
      target
  start_one-returns id f r =
      rw (r.new, r.found, r.quiet.initializes, get-put, eq_refl id, r.quiet.starts) refl

  -- `start_plugins` does not change the registry.
  >>=-registry :
      {A : Type 0} (m : Action (Fleet E) A) (k : A → Action (Fleet E) Unit) (f : Fleet E)
      → (m f).1.registry ≡ f.registry
      → ((a : A) (g : Fleet E) → (k a g).1.registry ≡ g.registry)
      → ((m >>= k) f).1.registry ≡ f.registry
  >>=-registry {A = A} m k f h later = go (m f).0
    where
      go : (r : Result A) → (resume r k (m f).1).1.registry ≡ f.registry
      go (returned a) = later a (m f).1 ∙ h
      go (raised e) = h

  lifecycle_for-registry :
      (id : String) (f : Fleet E) → (lifecycle_for id f).1.registry ≡ f.registry
  unfolding lifecycle_for
  lifecycle_for-registry id f = go (get id f.lifecycles)
    where
      make : (r : Result (Plugin E)) → (managed_new id r f).1.registry ≡ f.registry
      make (raised e) = refl
      make (returned p) = refl

      go : (o : Option (Managed E)) → (managed id o f).1.registry ≡ f.registry
      go (some one) = refl
      go none = make (lookup id f.registry)

  apply-registry :
      (m : Method) (id : String) (one : Managed E) (f : Fleet E)
      → (apply m id one f).1.registry ≡ f.registry
  unfolding apply
  apply-registry m id one f = refl

  initialize_new-registry :
      (id : String) (one : Managed E) (f : Fleet E)
      → (initialize_new id one f).1.registry ≡ f.registry
  initialize_new-registry id one f = elim (Bool-cases (is_new one.lifecycle.state)) [
    | inl e ↦ rw e (apply-registry initialize id one f)
    | inr e ↦ rw e refl
  ]

  start_one-registry : (id : String) (f : Fleet E) → (start_one id f).1.registry ≡ f.registry
  unfolding start_one run_method
  start_one-registry id f =
      >>=-registry (lifecycle_for id >>= initialize_new id) (λ _. run_method start id) f
        (>>=-registry (lifecycle_for id) (initialize_new id) f (lifecycle_for-registry id f)
          (initialize_new-registry id))
        (λ u g.
          >>=-registry (lifecycle_for id) (apply start id) g (lifecycle_for-registry id g)
            (apply-registry start id))

  state_none : (o : Option (Managed E)) → state_of_managed o ≡ none → o ≡ none
  state_none none h = refl
  state_none (some one) h = cc

  start_one-IsReady :
      (id j : String) (f : Fleet E) → (id == j) ≡ false → IsReady f j → IsReady (start_one id f).1 j
  start_one-IsReady id j f other r =
      let kept = start_one-Settles.keeps id j f other in
      record {
        plugin = r.plugin;
        found = rw (start_one-registry id f) r.found;
        quiet = r.quiet;
        new = state_none (get j (start_one id f).1.lifecycles) (kept ∙ ap state_of_managed r.new);
      }

  All-IsReady :
      (id : String) (ids : List String) (f : Fleet E)
      → All (λ j. (id == j) ≡ false) ids
      → All (IsReady f) ids
      → All (IsReady (start_one id f).1) ids
  All-IsReady id [] f others ready = tt
  All-IsReady id (j ∷ ids) f others ready =
      (start_one-IsReady id j f others.0 ready.0, All-IsReady id ids f others.1 ready.1)

  for_each-returns :
      (ids : List String) (f : Fleet E)
      → IsDistinct ids
      → All (IsReady f) ids
      → IsDone (for_each start_one ids f).0
  unfolding for_each IsDistinct
  for_each-returns [] f distinct ready = refl
  for_each-returns (id ∷ ids) f distinct ready =
      rw (start_one-returns id f ready.0) (
        for_each-returns ids (start_one id f).1 distinct.1
          (All-IsReady id ids f distinct.0 ready.1))

  -- The identifiers that a registry enumerates.
  abbrev ids_of : PluginRegistry E → List String
  ids_of d = map (λ m. m.id) (enumerate d)

  abbrev pub Indexed : PluginRegistry E → Type 0
  Indexed d = IsIndexed plugin_kind d

  first_named :
      (k : String) (p : Plugin E) (d : PluginRegistry E) → Indexed ((k, p) ∷ d) → p.metadata.id ≡ k
  unfolding get
  first_named k p d h = h.named k p (rw (eq_refl k) refl)

  rest-Indexed :
      (k : String) (p : Plugin E) (d : PluginRegistry E) → Indexed ((k, p) ∷ d) → Indexed d
  unfolding get
  rest-Indexed k p d h = record {
    unique = h.unique.1;
    named = λ j q found. ground (arith, h.named j q, eq_iff k j, h.unique.0);
  }

  absent_apart :
      (k i : String) (p : Plugin E) (d : PluginRegistry E)
      → get k ((i, p) ∷ d) ≡ none
      → ((k == i) ≡ false) × (get k d ≡ none)
  unfolding get
  absent_apart k i p d absent = ground (arith, eq_iff i k, eq_iff k i)

  ids_apart :
      (k : String) (d : PluginRegistry E)
      → Indexed d
      → get k d ≡ none
      → All (λ j. (k == j) ≡ false) (ids_of d)
  unfolding get enumerate items_of values
  ids_apart k [] h absent = tt
  ids_apart k ((i, p) ∷ d) h absent =
      let (apart, rest) = absent_apart k i p d absent in
      (rw (first_named i p d h) apart, ids_apart k d (rest-Indexed i p d h) rest)

  ids-IsDistinct : (d : PluginRegistry E) → Indexed d → IsDistinct (ids_of d)
  unfolding get enumerate items_of values IsDistinct
  ids-IsDistinct [] h = tt
  ids-IsDistinct ((i, p) ∷ d) h =
      let rest = rest-Indexed i p d h in
      (rw (first_named i p d h) (ids_apart i d rest h.unique.0), ids-IsDistinct d rest)

  found_in :
      (id : String) (p : Plugin E) (d : PluginRegistry E)
      → get id d ≡ some p
      → lookup id d ≡ returned p
  unfolding lookup Registry.lookup
  found_in id p d h = ground arith

  in_rest :
      (i j : String) (p q : Plugin E) (d : PluginRegistry E)
      → get i d ≡ none
      → get j d ≡ some q
      → get j ((i, p) ∷ d) ≡ some q
  unfolding get
  in_rest i j p q d absent h = elim (Bool-cases (i == j)) [
    | inl same ↦
        let equal : i ≡ j = (eq_iff i j).0 same in
        let gone : get j d ≡ none = subst (λ x. get x d ≡ none) equal absent in absurd (cc)
    | inr other ↦ rw other h
  ]

  -- What stands in a part of the registry can be found in it.
  ids-IsReady :
      (d : PluginRegistry E) (f : Fleet E)
      → Indexed d
      → f.lifecycles ≡ []
      → ((id : String) (p : Plugin E) → get id d ≡ some p → get id f.registry ≡ some p)
      → ((id : String) (p : Plugin E) → get id f.registry ≡ some p → IsQuiet p)
      → All (IsReady f) (ids_of d)
  unfolding get enumerate items_of values
  ids-IsReady [] f h fresh part quiet = tt
  ids-IsReady ((i, p) ∷ d) f h fresh part quiet =
      let found : get i f.registry ≡ some p = part i p (rw (eq_refl i) refl) in
      (
        rw (first_named i p d h) (record {
          plugin = p;
          found = found_in i p f.registry found;
          quiet = quiet i p found;
          new = rw fresh refl;
        }),
        ids-IsReady d f (rest-Indexed i p d h) fresh
            (λ j q there. part j q (in_rest i j p q d h.unique.0 there)) quiet,
      )

  -- An engine that keeps no lifecycle yet, on a registry that is indexed by its plugins' identifiers,
  -- and whose plugins' `initialize` and `start` return: `start_plugins` returns, and the lifecycle
  -- that it keeps for each plugin of the registry is running.
  pub start_plugins-starts :
      (f : Fleet E)
      → Indexed f.registry
      → f.lifecycles ≡ []
      → ((id : String) (p : Plugin E) → get id f.registry ≡ some p → IsQuiet p)
      → ((start_plugins f).0 ≡ returned tt)
        × All (λ id. state_in id (start_plugins f).1 ≡ some running) (plugin_ids f)
  unfolding start_plugins
  start_plugins-starts f h fresh quiet =
      let done =
        for_each-returns (plugin_ids f) f (ids-IsDistinct f.registry h)
          (ids-IsReady f.registry f h fresh (λ id p found. found) quiet) in
      (done, start_plugins-running f done)
