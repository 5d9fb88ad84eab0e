-- ===== src/Registry.antt =====
-- The code that the three registries share line by line (tools/registry.py, plugins/registry.py,
-- providers/registry.py): a dict from an item's own identifier to the item.
pub mod Laws
pub mod Invariant
use mellivor_kernel.Prelude.{
  String, Bool, Option, none, some, List, [], ◌∷◌, ◌++◌, Dict, get, put, remove, has, values,
  if◌then◌else◌,
}
use mellivor_kernel.Python.{
  Text, lit, quoted, ExceptionClass, Exception, Result, returned, raised, error, Action,
}

-- What differs: how an item is identified, and the errors.
pub record Kind (A : Type 0) : Type 0 where
  pub ident : A → String
  pub class : ExceptionClass
  pub noun : String

module _ {A : Type 0} (kind : Kind A) where
  abbrev pub already_registered : String → Exception
  already_registered k =
      error kind.class (lit kind.noun ∷ quoted k ∷ lit " is already registered." ∷ [])

  abbrev pub not_registered : String → Exception
  not_registered k = error kind.class (lit kind.noun ∷ quoted k ∷ lit " is not registered." ∷ [])

  unfoldable pub register : A → Action (Dict A) Unit
  register item items =
      let id = kind.ident item in
      if has id items
      then (raised (already_registered id), items)
      else (returned tt, put id item items)

  unfoldable pub unregister : String → Action (Dict A) Unit
  unregister id items =
      if has id items then (returned tt, remove id items) else (raised (not_registered id), items)

  unfoldable pub lookup : String → Dict A → Result A
  lookup id items = elim (get id items) [
    | none ↦ raised (not_registered id)
    | some item ↦ returned item
  ]

  unfoldable pub exists : String → Dict A → Bool
  exists id items = has id items

  -- the items in registration order
  unfoldable pub items_of : Dict A → List A
  items_of items = values items
