-- ===== src/Events/Subscriptions/Delivery.antt =====
-- What `publish` does on a bus that calls of `subscribe` and `unsubscribe` have made.
use mellivor_kernel.Prelude.{
  String, ◌≡◌, ◌≢◌, ◌↔◌, ◌⊎◌, arith, refl, ap, true, false, Bool-cases, inl, inr, Option, none,
  some, Dict, List, [], ◌∷◌, ◌++◌, get, has, values, ◌==◌, eq_iff,
}
use mellivor_kernel.Python.{returned, raised}
use mellivor_kernel.Events.Event.{Event}
use mellivor_kernel.Events.Subscriptions.{
  EventRegistration, EventHandler, Handlers, event_type, handlers_of, deliver, publish_to,
  subscribe, inactive, or_empty, unsubscribe_from, unsubscribe,
}
use mellivor_kernel.Events.Subscriptions.Refinement.{
  Subscription, subscribed, cancel, Represents, subscribe-Represents, unsubscribe-Represents,
}

apart : {a b : String} → (a == b) ≡ false → a ≢ b
apart {a} {b} other same = let equal = (eq_iff a b).1 same in cc

module _ {E : Type 0} where
  -- A bus with the subscriptions that are active on it, in the order in which they were made:
  -- `subscribe` gets an identifier that no active subscription to the class has.
  pub data Bus : Handlers E → List (Subscription E) → Type 0 where
    new : Bus [] []
    subscribes :
        {bus : Handlers E} {ss : List (Subscription E)} (t id : String) (handler : EventHandler E)
        → Bus bus ss
        → get id (subscribed t ss) ≡ none
        → Bus (subscribe t handler id bus).1 (
            ss
            ++ record {
              registration = record { event_class = t; registration_id = id };
              handler = handler;
            }
              ∷ [])
    unsubscribes :
        {bus : Handlers E} {ss : List (Subscription E)} (r : EventRegistration)
        → Bus bus ss
        → Bus (unsubscribe r bus).1 (cancel r ss)

  -- An event passes through a list of subscriptions: it goes to each handler for exactly its class
  -- once, from the first to the last, and each finds what the ones before it have left, whatever
  -- they answered.
  pub data Delivered (event : Event) : List (Subscription E) → E → E → Type 0 where
    ends : {env : E} → Delivered event [] env env
    handles :
        {ss : List (Subscription E)} {env env' : E} (s : Subscription E)
        → s.registration.event_class ≡ event_type event
        → Delivered event ss (s.handler event env).1 env'
        → Delivered event (s ∷ ss) env env'
    skips :
        {ss : List (Subscription E)} {env env' : E} (s : Subscription E)
        → s.registration.event_class ≢ event_type event
        → Delivered event ss env env'
        → Delivered event (s ∷ ss) env env'

  Bus-Represents : {bus : Handlers E} {ss : List (Subscription E)} → Bus bus ss → Represents bus ss
  unfolding handlers_of subscribed get
  Bus-Represents new = record { same = λ t. refl }
  Bus-Represents (subscribes {bus} {ss} t id handler before free) =
      let h = Bus-Represents before in
      subscribe-Represents t id handler bus ss h (rw (h.same t) free)
  Bus-Represents (unsubscribes {bus} {ss} r before) =
      (unsubscribe-Represents r bus ss (Bus-Represents before)).0

  deliver-Delivered :
      (event : Event) (ss : List (Subscription E)) (env : E)
      → Delivered event ss env (deliver (values (subscribed (event_type event) ss)) event env)
  unfolding deliver subscribed values
  deliver-Delivered event [] env = ends
  deliver-Delivered event (s ∷ ss) env =
      elim (Bool-cases (s.registration.event_class == event_type event)) [
        | inl same ↦
            rw same
              (handles s ((eq_iff _ _).0 same) (deliver-Delivered event ss (s.handler event env).1))
        | inr other ↦ rw other (skips s (apart other) (deliver-Delivered event ss env))
      ]

  -- On a bus that calls of `subscribe`, with identifiers not in use, and of `unsubscribe` have made:
  -- `publish` does not raise, and the event goes to the handler of each subscription that is active
  -- for exactly its class, once and in the order of subscription, whatever the handlers raise.
  pub publish_delivers :
      (bus : Handlers E) (ss : List (Subscription E)) (event : Event) (env : E)
      → Bus bus ss
      → ((publish_to bus event env).0 ≡ returned tt)
        × Delivered event ss env (publish_to bus event env).1
  unfolding publish_to
  publish_delivers bus ss event env made =
      let h = Bus-Represents made in
      (refl, rw (h.same (event_type event)) (deliver-Delivered event ss env))

  -- A registration is that of one of these subscriptions.
  pub IsActive : EventRegistration → List (Subscription E) → Type 0
  IsActive r [] = ⊥
  IsActive r (s ∷ ss) =
      ((s.registration.event_class ≡ r.event_class)
        × (s.registration.registration_id ≡ r.registration_id))
      ⊎ IsActive r ss

  has-IsActive :
      (r : EventRegistration) (ss : List (Subscription E))
      → (has r.registration_id (subscribed r.event_class ss) ≡ true) ↔ IsActive r ss
  unfolding subscribed get IsActive
  has-IsActive r [] = ground arith
  has-IsActive r (s ∷ ss) = ground (
    arith,
    has-IsActive r ss,
    eq_iff s.registration.event_class r.event_class,
    eq_iff s.registration.registration_id r.registration_id,
  )

  cancelled : (r : EventRegistration) (ss : List (Subscription E)) → ¬ IsActive r (cancel r ss)
  unfolding cancel IsActive
  cancelled r [] = ground arith
  cancelled r (s ∷ ss) = ground (
    arith,
    cancelled r ss,
    eq_iff s.registration.event_class r.event_class,
    eq_iff s.registration.registration_id r.registration_id,
  )

  unsubscribe-cases :
      (r : EventRegistration) (bus : Handlers E)
      → ((has r.registration_id (handlers_of r.event_class bus) ≡ true)
          × ((unsubscribe r bus).0 ≡ returned tt))
        ⊎ ((has r.registration_id (handlers_of r.event_class bus) ≡ false)
            × (unsubscribe r bus ≡ (raised (inactive r), bus)))
  unfolding unsubscribe handlers_of get
  unsubscribe-cases r bus = go (get r.event_class bus)
    where
      go :
          (o : Option (Dict (EventHandler E)))
          → ((has r.registration_id (or_empty o) ≡ true)
              × ((unsubscribe_from r o bus).0 ≡ returned tt))
            ⊎ ((has r.registration_id (or_empty o) ≡ false)
                × (unsubscribe_from r o bus ≡ (raised (inactive r), bus)))
      go none = inr (refl, refl)
      go (some handlers) = elim (Bool-cases (has r.registration_id handlers)) [
        | inl active ↦ inl (active, rw active refl)
        | inr free ↦ inr (free, rw free refl)
      ]

  unsubscribe-active :
      (bus : Handlers E) (ss : List (Subscription E)) (r : EventRegistration)
      → Bus bus ss
      → (IsActive r ss × ((unsubscribe r bus).0 ≡ returned tt))
        ⊎ ((¬ IsActive r ss) × (unsubscribe r bus ≡ (raised (inactive r), bus)))
  unsubscribe-active bus ss r made =
      let same = (Bus-Represents made).same r.event_class in
      let active = has-IsActive r ss in
      elim (unsubscribe-cases r bus) [
        | inl (there, done) ↦ inl (active.0 (rw (← same) there), done)
        | inr (free, refused) ↦
            inr (λ h. let there = active.1 h in let free' = rw same at free in cc, refused)
      ]

  -- On a bus that calls of `subscribe`, with identifiers not in use, and of `unsubscribe` have made:
  -- `unsubscribe` returns exactly for the registration of an active subscription; for every other
  -- one it raises an EventDispatchError, and the bus stays as it is. A second `unsubscribe` of the
  -- same registration raises that error.
  pub unsubscribe_exactly :
      (bus : Handlers E) (ss : List (Subscription E)) (r : EventRegistration)
      → Bus bus ss
      → ((IsActive r ss × ((unsubscribe r bus).0 ≡ returned tt))
          ⊎ ((¬ IsActive r ss) × (unsubscribe r bus ≡ (raised (inactive r), bus))))
        × ((unsubscribe r (unsubscribe r bus).1).0 ≡ raised (inactive r))
  unsubscribe_exactly bus ss r made = (
    unsubscribe-active bus ss r made,
    elim (unsubscribe-active _ _ r (unsubscribes r made)) [
      | inl (again, done) ↦ absurd (cancelled r ss again)
      | inr (gone, refused) ↦ ap (λ p. p.0) refused
    ],
  )
