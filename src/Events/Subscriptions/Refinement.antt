-- ===== src/Events/Subscriptions/Refinement.antt =====
-- `subscribe` and `unsubscribe` against a flat list of subscriptions in the order in which they were
-- made.
use mellivor_kernel.Prelude.{
  String, ◌≡◌, ◌↔◌, refl, sym, true, ◌&&◌, Option-cases, inl, inr, none, List, [], ◌∷◌, ◌++◌, arith,
  get, put, remove, has, get-put, put_new, ◌==◌, eq_iff, if◌then◌else◌,
}
use mellivor_kernel.Python.{returned}
use mellivor_kernel.Events.Subscriptions.{
  EventRegistration, EventHandler, Handlers, handlers_of, subscribe, unsubscribe,
}

pub record Subscription (E : Type 0) : Type 0 where
  pub registration : EventRegistration
  pub handler : EventHandler E

module _ {E : Type 0} where
  -- The subscriptions to one class, by their identifiers.
  unfoldable pub subscribed : String → List (Subscription E) → List (String × EventHandler E)
  subscribed t [] = []
  subscribed t (s ∷ ss) =
      let rest = subscribed t ss in
      if s.registration.event_class == t
      then (s.registration.registration_id, s.handler) ∷ rest
      else rest

  -- The list without a registration.
  unfoldable pub cancel : EventRegistration → List (Subscription E) → List (Subscription E)
  cancel r [] = []
  cancel r (s ∷ ss) =
      let rest = cancel r ss in
      if s.registration.event_class == r.event_class
        && s.registration.registration_id == r.registration_id
      then rest
      else s ∷ rest

  -- The bus holds exactly these subscriptions.
  pub record Represents (bus : Handlers E) (ss : List (Subscription E)) : Type 0 where
    pub same : (t : String) → handlers_of t bus ≡ subscribed t ss

  handlers_of-put :
      (t u : String) (handlers : List (String × EventHandler E)) (bus : Handlers E)
      → handlers_of u (put t handlers bus) ≡ (if t == u then handlers else handlers_of u bus)
  unfolding handlers_of
  handlers_of-put t u handlers bus = ground (arith, get-put t u handlers bus)

  subscribed-append :
      (t : String) (ss : List (Subscription E)) (s : Subscription E)
      → subscribed t (ss ++ s ∷ []) ≡ (
          if s.registration.event_class == t
          then subscribed t ss ++ (s.registration.registration_id, s.handler) ∷ []
          else subscribed t ss)
  unfolding subscribed
  subscribed-append t [] s = refl
  subscribed-append t (s' ∷ ss) s = ground (arith, subscribed-append t ss s)

  subscribed-cancel :
      (t : String) (r : EventRegistration) (ss : List (Subscription E))
      → subscribed t (cancel r ss) ≡ (
          if r.event_class == t
          then remove r.registration_id (subscribed t ss)
          else subscribed t ss)
  unfolding subscribed cancel remove
  subscribed-cancel t r [] = ground arith
  subscribed-cancel t r (s ∷ ss) = ground (
    arith,
    subscribed-cancel t r ss,
    eq_iff s.registration.event_class t,
    eq_iff s.registration.event_class r.event_class,
    eq_iff r.event_class t,
  )

  remove_absent :
      (k : String) (d : List (String × EventHandler E)) → get k d ≡ none → remove k d ≡ d
  unfolding get remove
  remove_absent k [] h = refl
  remove_absent k ((j, v) ∷ d) h = ground (arith, remove_absent k d)

  -- `subscribe`, with an identifier that is not in use, appends to the list of subscriptions.
  pub subscribe-Represents :
      (t id : String) (handler : EventHandler E) (bus : Handlers E) (ss : List (Subscription E))
      → Represents bus ss
      → get id (handlers_of t bus) ≡ none
      → Represents (subscribe t handler id bus).1 (
          ss
          ++ record {
            registration = record { event_class = t; registration_id = id };
            handler = handler;
          }
            ∷ [])
  unfolding subscribe
  subscribe-Represents t id handler bus ss h fresh = record {
    same = λ u. ground (
      arith,
      handlers_of-put t u (put id handler (handlers_of t bus)) bus,
      put_new id handler (handlers_of t bus) fresh,
      subscribed-append u ss (record {
        registration = record { event_class = t; registration_id = id };
        handler = handler;
      }),
      h.same u,
      h.same t,
      eq_iff t u,
    );
  }

  unsubscribe-handlers :
      (r : EventRegistration) (bus : Handlers E) (u : String)
      → handlers_of u (unsubscribe r bus).1 ≡ (
          if r.event_class == u
          then remove r.registration_id (handlers_of u bus)
          else handlers_of u bus)
  unfolding unsubscribe handlers_of remove
  unsubscribe-handlers r bus u = elim (Option-cases (get r.event_class bus)) [
    | inl none_there ↦ ground (arith, eq_iff r.event_class u)
    | inr (handlers, there) ↦ ground (
      arith,
      eq_iff r.event_class u,
      get-put r.event_class u (remove r.registration_id handlers) bus,
      remove_absent r.registration_id handlers,
    )
  ]

  unsubscribe-answer :
      (r : EventRegistration) (bus : Handlers E)
      → ((unsubscribe r bus).0 ≡ returned tt)
        ↔ (has r.registration_id (handlers_of r.event_class bus) ≡ true)
  unfolding unsubscribe handlers_of get
  unsubscribe-answer r bus = ground arith

  -- `unsubscribe` takes its registration off the list of subscriptions, and returns exactly if it
  -- was active.
  pub unsubscribe-Represents :
      (r : EventRegistration) (bus : Handlers E) (ss : List (Subscription E))
      → Represents bus ss
      → Represents (unsubscribe r bus).1 (cancel r ss)
        × (((unsubscribe r bus).0 ≡ returned tt)
            ↔ (has r.registration_id (subscribed r.event_class ss) ≡ true))
  unsubscribe-Represents r bus ss h = (
    record {
      same = λ u. ground (arith, unsubscribe-handlers r bus u, subscribed-cancel u r ss, h.same u);
    },
    rw (sym (h.same r.event_class)) (unsubscribe-answer r bus),
  )
