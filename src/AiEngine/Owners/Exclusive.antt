-- ===== src/AiEngine/Owners/Exclusive.antt =====
-- No two live engines share a plugin registry.
use mellivor_kernel.Prelude.{
  String, ◌≡◌, ◌≢◌, ◌↔◌, refl, sym, ◌∙◌, ap, inl, inr, true, false, Bool-cases, Option, none, some,
  [], get, put, remove, get-put, get-remove, eq_iff, is_some, arith,
}
use mellivor_kernel.Python.{Text, returned, raised_apart}
use mellivor_kernel.AiEngine.Owners.{Owners, is_alive, own}

-- A new engine is made, to which no entry refers; an engine that nothing holds goes; a registry that
-- no live engine holds goes, and its entry with it.
pub data Happens : Owners → Owners → Type 0 where
  makes :
      (engine registry : String) (shown : Text) (s : Owners)
      → ((owned : String) → get owned s.owners ≢ some engine)
      → Happens s (own engine registry shown s).1
  collects_engine :
      (engine : String) (s : Owners) → Happens s (record s { engines = remove engine s.engines })
  collects_registry :
      (registry : String) (s : Owners)
      → ((engine : String) → get engine s.engines ≢ some registry)
      → Happens s (record s { owners = remove registry s.owners })

pub data Reached : Owners → Type 0 where
  new : Reached (record { owners = []; engines = [] })
  next : {s t : Owners} → Reached s → Happens s t → Reached t

-- The owner of the registry of a live engine is that engine, and a live owner holds what it owns.
record IsExclusive (s : Owners) : Type 0 where
  at :
      (engine registry : String)
      → get engine s.engines ≡ some registry
      → get registry s.owners ≡ some engine
  back :
      (engine registry held : String)
      → get registry s.owners ≡ some engine
      → get engine s.engines ≡ some held
      → registry ≡ held

unowned :
    (engine registry e r : String) (s : Owners)
    → IsExclusive s
    → is_alive (get registry s.owners) s.engines ≡ false
    → get e (put engine registry s.engines) ≡ some r
    → get r (put registry engine s.owners) ≡ some e
unfolding is_alive
unowned engine registry e r s h free held = ground (
  arith,
  h.at e r,
  get-put engine e registry s.engines,
  get-put registry r engine s.owners,
  eq_iff engine e,
  eq_iff registry r,
)

owned :
    (engine registry e r held : String) (s : Owners)
    → IsExclusive s
    → ((owned : String) → get owned s.owners ≢ some engine)
    → get r (put registry engine s.owners) ≡ some e
    → get e (put engine registry s.engines) ≡ some held
    → r ≡ held
owned engine registry e r held s h fresh owner alive = ground (
  arith,
  h.back e r held,
  fresh r,
  get-put engine e registry s.engines,
  get-put registry r engine s.owners,
  eq_iff engine e,
  eq_iff registry r,
)

own-IsExclusive :
    (engine registry : String) (shown : Text) (s : Owners)
    → ((owned : String) → get owned s.owners ≢ some engine)
    → IsExclusive s
    → IsExclusive (own engine registry shown s).1
unfolding own
own-IsExclusive engine registry shown s fresh h =
    elim (Bool-cases (is_alive (get registry s.owners) s.engines)) [
      | inl taken ↦ rw taken h
      | inr free ↦ rw free (record {
        at = λ e r. unowned engine registry e r s h free;
        back = λ e r held. owned engine registry e r held s h fresh;
      })
    ]

collects-IsExclusive :
    (engine : String) (s : Owners)
    → IsExclusive s
    → IsExclusive (record s { engines = remove engine s.engines })
collects-IsExclusive engine s h = record {
  at = λ e r held. ground (arith, h.at e r, get-remove engine e s.engines);
  back =
      λ e r held owner alive. ground (arith, h.back e r held owner, get-remove engine e s.engines);
}

forgets-IsExclusive :
    (registry : String) (s : Owners)
    → ((engine : String) → get engine s.engines ≢ some registry)
    → IsExclusive s
    → IsExclusive (record s { owners = remove registry s.owners })
forgets-IsExclusive registry s unheld h = record {
  at = λ e r held.
      ground (arith, h.at e r held, get-remove registry r s.owners, eq_iff registry r, unheld e);
  back = λ e r held owner alive. ground (arith, h.back e r held, get-remove registry r s.owners);
}

Happens-IsExclusive : {s t : Owners} → Happens s t → IsExclusive s → IsExclusive t
Happens-IsExclusive (makes engine registry shown s fresh) h =
    own-IsExclusive engine registry shown s fresh h
Happens-IsExclusive (collects_engine engine s) h = collects-IsExclusive engine s h
Happens-IsExclusive (collects_registry registry s unheld) h =
    forgets-IsExclusive registry s unheld h

Reached-IsExclusive : {s : Owners} → Reached s → IsExclusive s
unfolding get
Reached-IsExclusive new = record {
  at = λ e r held. absurd (cc);
  back = λ e r held owner. absurd (cc);
}
Reached-IsExclusive (next before happens) = Happens-IsExclusive happens (Reached-IsExclusive before)

-- Whatever engines are made, in whatever order engines and registries go, no two engines that are
-- alive hold the same plugin registry.
pub engines_apart :
    {s : Owners} (engine other registry : String)
    → Reached s
    → get engine s.engines ≡ some registry
    → get other s.engines ≡ some registry
    → engine ≡ other
engines_apart engine other registry reached held also =
    let h = Reached-IsExclusive reached in
    let owner = h.at engine registry held in let owner' = h.at other registry also in cc

held-is_alive :
    (engine registry : String) (s : Owners)
    → IsExclusive s
    → get engine s.engines ≡ some registry
    → is_alive (get registry s.owners) s.engines ≡ true
unfolding is_alive
held-is_alive engine registry s h held = rw (h.at engine registry held, held) refl

unheld-is_alive :
    (registry : String) (s : Owners)
    → IsExclusive s
    → ((engine : String) → get engine s.engines ≢ some registry)
    → is_alive (get registry s.owners) s.engines ≡ false
unfolding is_alive
unheld-is_alive registry s h unheld = go (get registry s.owners) refl
  where
    dead :
        (engine : String) (o : Option String)
        → get registry s.owners ≡ some engine
        → get engine s.engines ≡ o
        → is_some o ≡ false
    dead engine none owner alive = refl
    dead engine (some held) owner alive =
        absurd (unheld engine (alive ∙ ap some (sym (h.back engine registry held owner alive))))

    go : (o : Option String) → get registry s.owners ≡ o → is_alive o s.engines ≡ false
    go none owner = refl
    go (some engine) owner = dead engine (get engine s.engines) owner refl

-- After any such history, an engine can be made with a registry if and only if no engine that is
-- alive holds it.
pub own_exactly :
    {s : Owners} (engine registry : String) (shown : Text)
    → Reached s
    → ((own engine registry shown s).0 ≡ returned tt)
      ↔ ((other : String) → get other s.engines ≢ some registry)
unfolding own
own_exactly {s} engine registry shown reached = (
  λ made other held. refused made (held-is_alive other registry s h held),
  λ unheld. rw (unheld-is_alive registry s h unheld) refl,
)
  where
    h : IsExclusive s
    h = Reached-IsExclusive reached

    refused :
        (own engine registry shown s).0 ≡ returned tt
        → is_alive (get registry s.owners) s.engines ≡ true
        → ⊥
    refused made alive = raised_apart (rw alive at made)
