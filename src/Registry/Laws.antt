-- ===== src/Registry/Laws.antt =====
-- What a registry promises, whatever it holds.
use mellivor_kernel.Prelude.{
  String, ◌≡◌, ◌⊎◌, inl, inr, Option-cases, refl, ap, ◌↔◌, not, ◌&&◌, none, [], ◌∷◌, ◌++◌, arith,
  Dict, get, has, values, get-put, get-remove, put_new, ◌==◌, eq_iff, if◌then◌else◌,
}
use mellivor_kernel.Python.{returned, raised}
use mellivor_kernel.Registry.{Kind, not_registered, register, unregister, lookup, items_of}

values-append {ℓ} : {V : Type ℓ} (d e : Dict V) → values (d ++ e) ≡ values d ++ values e
unfolding values
values-append [] e = refl
values-append ((k, v) ∷ d) e = ap (λ r. v ∷ r) (values-append d e)

module _ {A : Type 0} (kind : Kind A) where
  -- A registration succeeds exactly if the identifier is free. Then the item is found under it, and
  -- every other identifier as before; a refused registration changes no lookup.
  pub register-lookup :
      (item : A) (items : Dict A) (k : String)
      → (((register kind item items).0 ≡ returned tt) ↔ (get (kind.ident item) items ≡ none))
        × (lookup kind k (register kind item items).1 ≡ (
            if not (has (kind.ident item) items) && kind.ident item == k
            then returned item
            else lookup kind k items))
  unfolding register lookup
  register-lookup item items k = ground (arith, get-put (kind.ident item) k item items)

  -- After an attempt to unregister an identifier it is not found, and every other one as before.
  pub unregister-lookup :
      (id : String) (items : Dict A) (k : String)
      → lookup kind k (unregister kind id items).1
        ≡ (if id == k then raised (not_registered kind k) else lookup kind k items)
  unfolding unregister lookup
  unregister-lookup id items k = ground (arith, get-remove id k items, eq_iff id k)

  -- The registration of a free identifier puts the item behind all others.
  pub items_of-register :
      (item : A) (items : Dict A)
      → get (kind.ident item) items ≡ none
      → items_of kind (register kind item items).1 ≡ items_of kind items ++ item ∷ []
  unfolding register items_of values
  items_of-register item items h =
      rw h (rw (put_new (kind.ident item) item items h) (values-append items _))

  -- A lookup finds an item, or raises the one error that says so.
  pub lookup_cases :
      (id : String) (items : Dict A)
      → (lookup kind id items ≡ raised (not_registered kind id))
        ⊎ ((item : A) × (lookup kind id items ≡ returned item))
  unfolding lookup
  lookup_cases id items = elim (Option-cases (get id items)) [
    | inl missing ↦ inl (ground arith)
    | inr (item, found) ↦ inr (item, ground arith)
  ]
