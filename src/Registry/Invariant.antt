-- ===== src/Registry/Invariant.antt =====
-- The invariant of a registry, and that every sequence of operations keeps it.
use mellivor_kernel.Prelude.{
  String, ◌≡◌, some, List, [], ◌∷◌, arith, Dict, get, HasUniqueKeys, put-HasUniqueKeys,
  remove-HasUniqueKeys, get-put, get-remove, eq_iff,
}
use mellivor_kernel.Python.{returned}
use mellivor_kernel.Registry.{Kind, register, unregister, lookup}

-- A call of one of the two methods that change a registry.
pub data Command (A : Type 0) : Type 0 where
  add : A → Command A
  drop : String → Command A

module _ {A : Type 0} (kind : Kind A) where
  -- The caller goes on after a refusal.
  unfoldable pub perform : Command A → Dict A → Dict A
  perform (add item) items = (register kind item items).1
  perform (drop id) items = (unregister kind id items).1

  unfoldable pub perform_all : List (Command A) → Dict A → Dict A
  unfolding perform
  perform_all [] items = items
  perform_all (c ∷ cs) items = perform_all cs (perform c items)

  -- No identifier stands twice, and what stands under an identifier has it.
  pub record IsIndexed (items : Dict A) : Type 0 where
    pub unique : HasUniqueKeys items
    pub named : (k : String) (item : A) → get k items ≡ some item → kind.ident item ≡ k

  register-IsIndexed :
      (item : A) (items : Dict A) → IsIndexed items → IsIndexed (register kind item items).1
  unfolding register
  register-IsIndexed item items h = record {
    unique = ground (arith, h.unique, put-HasUniqueKeys (kind.ident item) item items h.unique);
    named = λ k other found. ground (
      arith,
      h.named k other,
      get-put (kind.ident item) k item items,
      eq_iff (kind.ident item) k,
    );
  }

  unregister-IsIndexed :
      (id : String) (items : Dict A) → IsIndexed items → IsIndexed (unregister kind id items).1
  unfolding unregister
  unregister-IsIndexed id items h = record {
    unique = ground (arith, h.unique, remove-HasUniqueKeys id items h.unique);
    named = λ k other found. ground (arith, h.named k other, get-remove id k items, eq_iff id k);
  }

  perform_all-IsIndexed :
      (cs : List (Command A)) (items : Dict A) → IsIndexed items → IsIndexed (perform_all cs items)
  unfolding perform_all
  perform_all-IsIndexed [] items h = h
  perform_all-IsIndexed (add item ∷ cs) items h =
      perform_all-IsIndexed cs _ (register-IsIndexed item items h)
  perform_all-IsIndexed (drop id ∷ cs) items h =
      perform_all-IsIndexed cs _ (unregister-IsIndexed id items h)

  perform_all-new : (cs : List (Command A)) → IsIndexed (perform_all cs [])
  unfolding get
  perform_all-new cs = perform_all-IsIndexed cs [] (record { unique = tt; named = λ k item e. cc })

  -- Whatever calls a new registry gets, no identifier stands in it twice.
  pub perform_all-HasUniqueKeys : (cs : List (Command A)) → HasUniqueKeys (perform_all cs [])
  perform_all-HasUniqueKeys cs = (perform_all-new cs).unique

  -- Whatever calls a new registry gets, what it finds under an identifier has that identifier.
  pub lookup-ident :
      (cs : List (Command A)) (k : String) (item : A)
      → lookup kind k (perform_all cs []) ≡ returned item
      → kind.ident item ≡ k
  unfolding lookup
  lookup-ident cs k item found = (perform_all-new cs).named k item (ground arith)
