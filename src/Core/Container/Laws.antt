-- ===== src/Core/Container/Laws.antt =====
-- What the container promises: one registration for a type, and one instance of a singleton.
use mellivor_kernel.Prelude.{
  String, ◌≡◌, ◌↔◌, inl, inr, Option-cases, refl, ap, ◌∙◌, Bool, true, false, ◌||◌, Option, none,
  some, arith, get, put, has, get-put, ◌==◌, eq_iff, eq_refl,
}
use mellivor_kernel.Python.{returned-injective, Result, returned, raised}
use mellivor_kernel.World.{Call}
use mellivor_kernel.Core.Container.{
  ServiceContainer, new_container, is_registered, register_factory, register_instance, built,
  resolve, service_missing,
}

module _ {E A : Type 0} where
  -- Both registrations succeed exactly if the type is free, and leave it registered and every other
  -- type as it was.
  pub register-is_registered :
      (t u : String) (factory : Call E A) (singleton : Bool) (a : A) (c : ServiceContainer E A)
      → (((register_factory t factory singleton c).0 ≡ returned tt) ↔ (is_registered t c ≡ false))
        × (((register_instance t a c).0 ≡ returned tt) ↔ (is_registered t c ≡ false))
        × (is_registered u (register_factory t factory singleton c).1
            ≡ (t == u || is_registered u c))
        × (is_registered u (register_instance t a c).1 ≡ (t == u || is_registered u c))
  unfolding register_factory register_instance is_registered
  register-is_registered t u factory singleton a c =
      ground (arith, get-put t u factory c.factories, get-put t u a c.instances, eq_iff t u)

  -- A service is registered exactly if it has a record of being a singleton or not.
  pub record IsConsistent (c : ServiceContainer E A) : Type 0 where
    pub recorded : (t : String) → is_registered t c ≡ has t c.singletons

  pub data Step : ServiceContainer E A × E → ServiceContainer E A × E → Type 0 where
    registers :
        (t : String) (factory : Call E A) (singleton : Bool) (c : ServiceContainer E A) (env : E)
        → Step (c, env) ((register_factory t factory singleton c).1, env)
    registers_instance :
        (t : String) (a : A) (c : ServiceContainer E A) (env : E)
        → Step (c, env) ((register_instance t a c).1, env)
    resolves :
        (t : String) (c : ServiceContainer E A) (env : E) → Step (c, env) (resolve t (c, env)).1

  pub data Reach : ServiceContainer E A × E → Type 0 where
    new : (env : E) → Reach (new_container, env)
    next : {s s' : ServiceContainer E A × E} → Reach s → Step s s' → Reach s'

  factory-IsConsistent :
      (t : String) (factory : Call E A) (singleton : Bool) (c : ServiceContainer E A)
      → IsConsistent c
      → IsConsistent (register_factory t factory singleton c).1
  unfolding register_factory is_registered
  factory-IsConsistent t factory singleton c h = record {
    recorded = λ u.
        ground (
          arith,
          get-put t u factory c.factories,
          get-put t u singleton c.singletons,
          h.recorded u,
        );
  }

  instance-IsConsistent :
      (t : String) (a : A) (c : ServiceContainer E A)
      → IsConsistent c
      → IsConsistent (register_instance t a c).1
  unfolding register_instance is_registered
  instance-IsConsistent t a c h = record {
    recorded =
        λ u. ground (arith, get-put t u a c.instances, get-put t u true c.singletons, h.recorded u);
  }

  put-IsConsistent :
      (t : String) (a : A) (c : ServiceContainer E A)
      → is_registered t c ≡ true
      → IsConsistent c
      → IsConsistent (record c { instances = put t a c.instances })
  unfolding is_registered
  put-IsConsistent t a c there h = record {
    recorded =
        λ u. ground (arith, get-put t u a c.instances, eq_iff t u, h.recorded u, h.recorded t);
  }

  built-IsConsistent :
      (t : String) (r : Result A) (singleton : Option Bool) (c : ServiceContainer E A) (env : E)
      → is_registered t c ≡ true
      → IsConsistent c
      → IsConsistent (built t r singleton (c, env)).1.0
  unfolding built
  built-IsConsistent t (raised e) singleton c env there h = h
  built-IsConsistent t (returned a) none c env there h = h
  built-IsConsistent t (returned a) (some true) c env there h = put-IsConsistent t a c there h
  built-IsConsistent t (returned a) (some false) c env there h = h

  factory_registered :
      (t : String) (c : ServiceContainer E A) (factory : Call E A)
      → get t c.factories ≡ some factory
      → is_registered t c ≡ true
  unfolding is_registered
  factory_registered t c factory h = ground arith

  resolve-instance :
      (t : String) (s : ServiceContainer E A × E) (a : A)
      → get t s.0.instances ≡ some a
      → resolve t s ≡ (returned a, s)
  unfolding resolve
  resolve-instance t s a there = ground arith

  resolve-unknown :
      (t : String) (s : ServiceContainer E A × E)
      → get t s.0.instances ≡ none
      → get t s.0.factories ≡ none
      → resolve t s ≡ (raised (service_missing t), s)
  unfolding resolve
  resolve-unknown t s no_instance no_factory = ground arith

  resolve-built :
      (t : String) (s : ServiceContainer E A × E) (factory : Call E A)
      → get t s.0.instances ≡ none
      → get t s.0.factories ≡ some factory
      → resolve t s ≡ built t (factory s.1).0 (get t s.0.singletons) (s.0, (factory s.1).1)
  unfolding resolve
  resolve-built t s factory no_instance there = ground arith

  resolve-IsConsistent :
      (t : String) (c : ServiceContainer E A) (env : E)
      → IsConsistent c
      → IsConsistent (resolve t (c, env)).1.0
  resolve-IsConsistent t c env h = elim (Option-cases (get t c.instances)) [
    | inr (a, there) ↦ rw (resolve-instance t (c, env) a there) h
    | inl no_instance ↦ elim (Option-cases (get t c.factories)) [
      | inl no_factory ↦ rw (resolve-unknown t (c, env) no_instance no_factory) h
      | inr (factory, there) ↦
          rw (resolve-built t (c, env) factory no_instance there)
            (built-IsConsistent t _ _ c _ (factory_registered t c factory there) h)
    ]
  ]

  -- Whatever calls a new container gets, a type is registered exactly if the container knows
  -- whether it is a singleton; so `resolve` never misses that entry.
  pub Reach-IsConsistent : {s : ServiceContainer E A × E} → Reach s → IsConsistent s.0
  unfolding is_registered get
  Reach-IsConsistent (new env) = record { recorded = λ t. refl }
  Reach-IsConsistent (next r (registers t factory singleton c env)) =
      factory-IsConsistent t factory singleton c (Reach-IsConsistent r)
  Reach-IsConsistent (next r (registers_instance t a c env)) =
      instance-IsConsistent t a c (Reach-IsConsistent r)
  Reach-IsConsistent (next r (resolves t c env)) =
      resolve-IsConsistent t c env (Reach-IsConsistent r)

  built-instance :
      (t : String) (r : Result A) (a : A) (s : ServiceContainer E A × E)
      → (built t r (some true) s).0 ≡ returned a
      → get t (built t r (some true) s).1.0.instances ≡ some a
  unfolding built
  built-instance t (raised e) a s done = cc
  built-instance t (returned b) a s done = ground (arith, get-put t t b s.0.instances, eq_refl t)

  resolved-instance :
      (t : String) (c : ServiceContainer E A) (env : E) (a : A)
      → get t c.singletons ≡ some true
      → (resolve t (c, env)).0 ≡ returned a
      → get t (resolve t (c, env)).1.0.instances ≡ some a
  resolved-instance t c env a single = elim (Option-cases (get t c.instances)) [
    | inr (b, there) ↦
        rw (resolve-instance t (c, env) b there) λ done. there ∙ ap some (returned-injective done)
    | inl no_instance ↦ elim (Option-cases (get t c.factories)) [
      | inl no_factory ↦ rw (resolve-unknown t (c, env) no_instance no_factory) λ done. cc
      | inr (factory, there) ↦
          rw (resolve-built t (c, env) factory no_instance there, single)
            (built-instance t (factory env).0 a (c, (factory env).1))
    ]
  ]

  -- A singleton that was resolved once is resolved to the same instance again, with no call of its
  -- factory and no change.
  pub resolve-singleton :
      (t : String) (c : ServiceContainer E A) (env : E) (a : A)
      → get t c.singletons ≡ some true
      → (resolve t (c, env)).0 ≡ returned a
      → resolve t (resolve t (c, env)).1 ≡ (returned a, (resolve t (c, env)).1)
  resolve-singleton t c env a single done =
      resolve-instance t (resolve t (c, env)).1 a (resolved-instance t c env a single done)
