-- ===== src/Execution/Engine/Finish.antt =====
-- The end of every execution: one event, one observation, one memory entry, and the result.
use mellivor_kernel.Prelude.{
  String, ◌≡◌, refl, ap, ◌∙◌, ◌⊎◌, inl, inr, true, false, none, List, [], ◌∷◌, arith, Bool-cases,
  Option-cases,
}
use mellivor_kernel.Python.{
  Payload, lit, is_blank, is_blank_text, has_text, text_or_not_blank, returned, pure, resume, ◌>>◌,
  >>=-returned,
}
use mellivor_kernel.World.{
  World, Call, Effect, NeverRaises, notify, publish, notify_lem, note, published, observed,
  remembered,
}
use mellivor_kernel.Memory.Entry.{MemoryEntry, make_entry}
use mellivor_kernel.Execution.Request.{ExecutionRequest}
use mellivor_kernel.Execution.Result.{ExecutionResult, IsValidResult, make_result}
use mellivor_kernel.Execution.Engine.{
  ExecutionEngine, content_of, memory_entry, remember_in, remember, finish, terminal_event,
  terminal_observation, start, started_event, started_observation, denial, dispatch_and_finish,
  after_decision, authorized, execute, AuthorizationOutcome,
}

-- The bus and the sink never raise, `str` of a payload is never blank, and a request has an
-- identifier (its constructor sees to that). Nothing is asked of the memory store.
pub record IsSound {E : Type 0} (engine : ExecutionEngine E) (request : ExecutionRequest)
    : Type 0 where
  pub quiet_bus : NeverRaises engine.event_bus
  pub quiet_sink : NeverRaises engine.observability
  pub readable : (p : Payload) → is_blank_text (engine.render p) ≡ false
  pub identified : is_blank request.request_id ≡ false

-- What `finish` adds to a trace.
abbrev pub closing :
    {E : Type 0}
    → ExecutionEngine E
    → ExecutionRequest
    → ExecutionResult
    → List Effect
    → List Effect
closing engine request r trace = note engine.memory (remembered (memory_entry engine request r)) (
    note engine.observability (observed (terminal_observation request r))
      (note engine.event_bus (published (terminal_event request r)) trace))

-- What `start` adds to one.
abbrev pub opening : {E : Type 0} → ExecutionEngine E → ExecutionRequest → List Effect → List Effect
opening engine request trace =
    note engine.observability (observed (started_observation request))
      (note engine.event_bus (published (started_event request)) trace)

-- The reason of a denial that has none.
pub default_not_blank : is_blank_text (lit "Authorization denied." ∷ []) ≡ false
unfolding is_blank_text
default_not_blank = refl

no_content_not_blank : is_blank_text (lit "(no content)" ∷ []) ≡ false
unfolding is_blank_text
no_content_not_blank = refl

module _ {E : Type 0} (engine : ExecutionEngine E) (request : ExecutionRequest) where
  pub after_granted :
      (claims : List String) (o : AuthorizationOutcome) (w : World E)
      → o.granted ≡ true
      → after_decision engine request claims o w ≡ dispatch_and_finish engine request claims w
  unfolding after_decision
  after_granted claims o w h = ground arith

  pub after_denied :
      (claims : List String) (o : AuthorizationOutcome) (w : World E)
      → o.granted ≡ false
      → after_decision engine request claims o w
        ≡ resume (make_result (denial request o)) (finish engine request) w
  unfolding after_decision
  after_denied claims o w h = ground arith

module _ {E : Type 0} (engine : ExecutionEngine E) (request : ExecutionRequest)
    (sound : IsSound engine request) where
  content-has_text :
      (r : ExecutionResult)
      → IsValidResult r
      → (content_of engine r ≡ none) ⊎ (has_text (content_of engine r) ≡ true)
  unfolding content_of has_text
  content-has_text r valid = elim (Bool-cases r.success) [
    | inl good ↦ elim (Option-cases r.payload) [
      | inl nothing ↦ inl (ground (arith, valid.succeeded))
      | inr (p, e) ↦ inr (ground (arith, sound.readable p))
    ]
    | inr bad ↦ inr (ground (arith, valid.failed bad))
  ]

  entry_accepted :
      (r : ExecutionResult)
      → IsValidResult r
      → make_entry (memory_entry engine request r) ≡ returned (memory_entry engine request r)
  unfolding make_entry memory_entry
  entry_accepted r valid = rw (
    sound.identified,
    text_or_not_blank (content_of engine r) (lit "(no content)" ∷ []) (content-has_text r valid)
        no_content_not_blank,
  )

  remember_in_lem :
      (add : MemoryEntry → Call E Unit) (r : ExecutionResult) (w : World E)
      → IsValidResult r
      → ((remember_in engine add request r w).0 ≡ returned tt)
        × ((remember_in engine add request r w).1.trace
            ≡ remembered (memory_entry engine request r) ∷ w.trace)
  unfolding remember_in
  remember_in_lem add r w valid = rw (entry_accepted r valid) (refl, refl)

  remember_lem :
      (r : ExecutionResult) (w : World E)
      → IsValidResult r
      → ((remember engine request r w).0 ≡ returned tt)
        × ((remember engine request r w).1.trace
            ≡ note engine.memory (remembered (memory_entry engine request r)) w.trace)
  unfolding remember
  remember_lem r w valid = elim (Option-cases engine.memory) [
    | inl nothing ↦ (ground arith, ground arith)
    | inr (add, e) ↦
        let (value, trace) = remember_in_lem add r w valid in
        (ground (arith, value), ground (arith, trace))
  ]

  -- `finish` hands the result back unchanged, whatever the memory store does. It publishes one
  -- terminal event, emits one observation and then records one entry.
  pub finish_lem :
      (r : ExecutionResult) (w : World E)
      → IsValidResult r
      → ((finish engine request r w).0 ≡ returned r)
        × ((finish engine request r w).1.trace ≡ closing engine request r w.trace)
  unfolding finish
  finish_lem r w valid =
      let event = terminal_event request r in
      let seen = terminal_observation request r in
      let (sent, trace) = notify_lem engine.event_bus published event w sound.quiet_bus in
      let w' = (publish engine.event_bus event w).1 in
      let (emitted, trace') = notify_lem engine.observability observed seen w' sound.quiet_sink in
      let w'' = (notify engine.observability observed seen w').1 in
      let (kept, trace'') = remember_lem r w'' valid in
      let last = >>=-returned (remember engine request r) (λ _. pure r) w'' kept in
      let middle =
        >>=-returned (notify engine.observability observed seen)
          (λ _. remember engine request r >> pure r) w' emitted in
      let run =
        >>=-returned (publish engine.event_bus event)
          (λ _. notify engine.observability observed seen >> (remember engine request r >> pure r))
          w sent
        ∙ middle
        ∙ last in
      let noted = note engine.memory (remembered (memory_entry engine request r)) in
      let seen_noted = note engine.observability (observed seen) in
      (
        ap (λ p. p.0) run,
        ap (λ p. p.1.trace) run ∙ trace'' ∙ ap noted (trace' ∙ ap seen_noted trace),
      )

  -- What `start` adds to a trace.
  pub start_lem :
      (w : World E)
      → ((start engine request w).0 ≡ returned tt)
        × ((start engine request w).1.trace ≡ opening engine request w.trace)
  unfolding start
  start_lem w =
      let event = started_event request in
      let seen = started_observation request in
      let (sent, trace) = notify_lem engine.event_bus published event w sound.quiet_bus in
      let w' = (publish engine.event_bus event w).1 in
      let (emitted, trace') = notify_lem engine.observability observed seen w' sound.quiet_sink in
      let run =
        >>=-returned (publish engine.event_bus event)
          (λ _. notify engine.observability observed seen) w sent in
      (
        ap (λ p. p.0) run ∙ emitted,
        ap (λ p. p.1.trace) run ∙ trace' ∙ ap (note engine.observability (observed seen)) trace,
      )

  pub execute-authorized :
      (claims : List String) (w : World E)
      → execute engine request claims w
        ≡ authorized engine engine.authorizer request claims (start engine request w).1
  unfolding execute
  execute-authorized claims w =
      >>=-returned (start engine request) (λ _. authorized engine engine.authorizer request claims)
        w (start_lem w).0
