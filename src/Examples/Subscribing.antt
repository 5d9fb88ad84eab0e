-- ===== src/Examples/Subscribing.antt =====
-- The theorems about the in-memory event bus, on a bus with two handlers.
use mellivor_kernel.Prelude.{ℕ, suc, ◌≡◌, ◌⊎◌, refl, List, [], ◌∷◌, get, put, values}
use mellivor_kernel.Python.{returned, raised, error, other_error}
use mellivor_kernel.Execution.Request.{tool}
use mellivor_kernel.Events.Event.{Event, execution_started}
use mellivor_kernel.Events.Subscriptions.{
  EventHandler, EventRegistration, Handlers, handlers_of, event_type, deliver, publish_to,
  subscribe, inactive, unsubscribe,
}
use mellivor_kernel.Events.Subscriptions.Refinement.{Subscription, subscribed}
use mellivor_kernel.Events.Subscriptions.Delivery.{
  Bus, Delivered, IsActive, publish_delivers, unsubscribe_exactly,
}

-- A handler that counts, and one that raises behind that.
abbrev counts : EventHandler ℕ
counts event seen = (returned tt, suc seen)

abbrev raises : EventHandler ℕ
raises event seen = (raised (error other_error []), suc seen)

abbrev first : EventRegistration
first = record { event_class = "ExecutionStarted"; registration_id = "h1" }

abbrev second : EventRegistration
second = record { event_class = "ExecutionStarted"; registration_id = "h2" }

abbrev one_handler : Handlers ℕ
one_handler = (subscribe "ExecutionStarted" raises "h1" []).1

abbrev two_handlers : Handlers ℕ
two_handlers = (subscribe "ExecutionStarted" counts "h2" one_handler).1

abbrev two_subscriptions : List (Subscription ℕ)
two_subscriptions =
    record { registration = first; handler = raises }
    ∷ record { registration = second; handler = counts }
    ∷ []

two_handlers-Bus : Bus two_handlers two_subscriptions
unfolding subscribed get
two_handlers-Bus =
    Bus.subscribes "ExecutionStarted" "h2" counts
      (Bus.subscribes "ExecutionStarted" "h1" raises Bus.new refl) refl

abbrev started : Event
started = execution_started "r1" tool "read_file"

-- The first handler raises, and the second gets the event.
publish_delivers_example :
    ((publish_to two_handlers started 0).0 ≡ returned tt)
    × Delivered started two_subscriptions 0 (publish_to two_handlers started 0).1
publish_delivers_example =
    publish_delivers two_handlers two_subscriptions started 0 two_handlers-Bus

both_counted : (publish_to two_handlers started 0).1 ≡ 2
unfolding publish_to subscribe handlers_of deliver event_type get put values
both_counted = refl

unsubscribe_exactly_example :
    ((IsActive first two_subscriptions × ((unsubscribe first two_handlers).0 ≡ returned tt))
      ⊎ ((¬ IsActive first two_subscriptions)
          × (unsubscribe first two_handlers ≡ (raised (inactive first), two_handlers))))
    × ((unsubscribe first (unsubscribe first two_handlers).1).0 ≡ raised (inactive first))
unsubscribe_exactly_example =
    unsubscribe_exactly two_handlers two_subscriptions first two_handlers-Bus
