-- ===== src/World.antt =====
-- The state that the engines run over: the environment `E` of everything that is not the kernel's
-- own (tools, providers, buses, stores, clocks), and the trace of the calls that the kernel makes
-- across that boundary, the newest first. The trace only records; no code reads it.
use mellivor_kernel.Prelude.{String, ◌≡◌, refl, Bool, Option, none, some, List, ◌∷◌}
use mellivor_kernel.Python.{Payload, Text, Result, returned, Action, pure, attempt, ◌>>◌}
use mellivor_kernel.Events.Event.{Event}
use mellivor_kernel.Memory.Entry.{MemoryEntry}

-- src/mellivor_kernel/security/policy.py
pub record SecurityDecision : Type 0 where
  pub allowed : Bool
  pub reason : Text

-- src/mellivor_kernel/security/audit.py
pub record AuditRecord : Type 0 where
  pub event : String
  pub subject : String
  pub action : Text
  pub decision : SecurityDecision

-- src/mellivor_kernel/observability/events.py, with the correlation id of its context
pub record Observation : Type 0 where
  pub name : String
  pub message : Text
  pub correlation_id : String
  pub attributes : Payload

pub data Effect : Type 0 where
  published : Event → Effect
  observed : Observation → Effect
  audited : AuditRecord → Effect
  remembered : MemoryEntry → Effect
  tool_validated tool_executed provider_invoked : String → Effect
  clock_read : Effect
  resolver_called hook_called : String → Effect

pub record World (E : Type 0) : Type 0 where
  pub env : E
  pub trace : List Effect

-- A call of code outside the kernel: it may change its environment and may raise.
abbrev pub Call : Type 0 → Type 0 → Type 0
Call E A = E → Result A × E

-- The kernel makes a call, and the trace records it.
abbrev pub call : {E A : Type 0} → Effect → Call E A → Action (World E) A
call effect f w = let (r, env') = f w.env in (r, record { env = env'; trace = effect ∷ w.trace })

-- A new identifier; no call of the kernel's own.
abbrev pub fresh : {E : Type 0} → (E → String × E) → Action (World E) String
fresh new_id w = let (id, env') = new_id w.env in (returned id, record w { env = env' })

-- A call of a collaborator that may be absent: `if self._bus is not None: self._bus.publish(event)`.
abbrev pub notify :
    {E A : Type 0} → Option (A → Call E Unit) → (A → Effect) → A → Action (World E) Unit
notify none effect a = pure tt
notify (some f) effect a = call (effect a) (f a)

abbrev pub EventBus : Type 0 → Type 0
EventBus E = Event → Call E Unit

-- `_publish`, which every engine has
abbrev pub publish : {E : Type 0} → Option (EventBus E) → Event → Action (World E) Unit
publish bus event = notify bus published event

-- The effect that a call of an optional collaborator adds to a trace.
abbrev pub note : {A : Type 0} → Option A → Effect → List Effect → List Effect
note none effect trace = trace
note (some a) effect trace = effect ∷ trace

-- A collaborator that keeps its contract: it never raises.
abbrev pub NeverRaises : {E A : Type 0} → Option (A → Call E Unit) → Type 0
NeverRaises none = Unit
NeverRaises {E} {A} (some f) = (a : A) (env : E) → (f a env).0 ≡ returned tt

pub notify_lem :
    {E A : Type 0} (f : Option (A → Call E Unit)) (effect : A → Effect) (a : A) (w : World E)
    → NeverRaises f
    → ((notify f effect a w).0 ≡ returned tt)
      × ((notify f effect a w).1.trace ≡ note f (effect a) w.trace)
notify_lem none effect a w h = (refl, refl)
notify_lem (some f) effect a w h = (h a w.env, refl)

-- `try: memory.add(entry)`: what the store raises is logged and dropped.
abbrev pub add_quietly :
    {E : Type 0} → Option (MemoryEntry → Call E Unit) → MemoryEntry → Action (World E) Unit
add_quietly none entry = pure tt
add_quietly (some add) entry = attempt (call (remembered entry) (add entry)) >> pure tt

pub add_quietly_lem :
    {E : Type 0} (f : Option (MemoryEntry → Call E Unit)) (entry : MemoryEntry) (w : World E)
    → ((add_quietly f entry w).0 ≡ returned tt)
      × ((add_quietly f entry w).1.trace ≡ note f (remembered entry) w.trace)
add_quietly_lem none entry w = (refl, refl)
add_quietly_lem (some f) entry w = (refl, refl)
