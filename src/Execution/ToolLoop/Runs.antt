-- ===== src/Execution/ToolLoop/Runs.antt =====
-- The whole loop, and a run of it.
use mellivor_kernel.Prelude.{
  ℕ, zero, suc, ◌+◌, ◌≤◌, String, ◌≡◌, ◌≢◌, refl, sym, ap, ◌∙◌, subst, false, Bool-cases,
  Option-cases, none, some, List, [], ◌∷◌, ◌++◌, append_assoc, append-nil, map, concat, length, inl,
  inr, All, get, arith,
}
use mellivor_kernel.Python.{
  Payload, Text, is_blank, returned, Returns, >>=-Returns, Returns-witness, Returns-map,
}
use mellivor_kernel.World.{World, fresh}
use mellivor_kernel.Providers.ToolCalling.{ToolSpec, ToolCall, assistant_message, results_turn}
use mellivor_kernel.Execution.Request.{provider}
use mellivor_kernel.Execution.Result.{ExecutionResult, IsValidResult}
use mellivor_kernel.Execution.Dispatch.Provided.{Carries}
use mellivor_kernel.Execution.Conversation.{
  ToolCallRecord, ToolLoopResult, ToolLoopOptions, make_loop_options,
}
use mellivor_kernel.Execution.ToolLoop.{
  ToolCallLoop, request, handle_all, provider_payload, calls_of, text_of, describe,
  require_tool_calls,
}
use mellivor_kernel.Execution.ToolLoop.Rounds.{
  Session, Continue, allowed_names, after_answer, after_payload, after_response, rounds, turns_of,
  run,
}
use mellivor_kernel.Execution.ToolLoop.Contract.{
  IsCall, AreCalls, IsDependableLoop, Decides, request-Returns, handle_all-Returns,
}
use mellivor_kernel.Execution.ToolLoop.Outcome.{
  Round, turns, records_of, IsRound, IsLoopOutcome, Ledger, Outcome, Books, answer_turn,
  concat-snoc, All-snoc, length-snoc, exhausted-Outcome, failed-Outcome, answered-Outcome,
}

-- The books, with one more round in them.
Ledger-snoc :
    (allowed : List String) (start history : List Payload) (records : List ToolCallRecord)
    (past : List Round) (round : Round)
    → Ledger allowed start history records past
    → IsRound allowed round
    → Ledger allowed start
        (history
          ++ assistant_message round.said round.calls ∷ []
          ++ results_turn (map (λ h. h.0) round.handled) ∷ [])
        (records ++ records_of round)
        (past ++ round ∷ [])
Ledger-snoc allowed start history records past round h sound = record {
  sound = All-snoc (IsRound allowed) past round h.sound sound;
  messages =
      append_assoc history (assistant_message round.said round.calls ∷ [])
        (results_turn (map (λ h. h.0) round.handled) ∷ [])
      ∙ ap (λ r. r ++ turns round) h.messages
      ∙ append_assoc start (concat (map turns past)) (turns round)
      ∙ ap (λ r. start ++ r) (sym (concat-snoc turns past round));
  kept = ap (λ r. r ++ records_of round) h.kept ∙ sym (concat-snoc records_of past round);
}

module _ {E : Type 0} (loop : ToolCallLoop E) (dependable : IsDependableLoop loop)
    (session : Session E) (decides : Decides session.options)
    (named : is_blank session.provider_name ≡ false) (start : List Payload) (limit : ℕ) where
  abbrev allowed : List String
  allowed = allowed_names loop session

  -- The rest of the loop keeps the outcome, behind `n` rounds.
  abbrev GoesOn : ℕ → Continue E → Type 0
  GoesOn n go_on =
      (history : List Payload) (records : List ToolCallRecord) (past : List Round) (w : World E)
      → Books allowed start limit history records past
      → length past ≡ n
      → Returns (Outcome allowed start limit) (go_on history records w).0

  after_answer-Outcome :
      (history : List Payload) (records : List ToolCallRecord) (past : List Round) (text : Text)
      (c : ToolCall) (calls : List ToolCall) (go_on : Continue E) (w : World E)
      → Books allowed start limit history records past
      → All IsCall (c ∷ calls)
      → GoesOn (suc (length past)) go_on
      → Returns
          (Outcome allowed start limit)
          (after_answer loop session
            (suc (length past))
            (history ++ assistant_message text (c ∷ calls) ∷ [])
            records
            (c ∷ calls)
            go_on
            w).0
  unfolding after_answer
  after_answer-Outcome history records past text c calls go_on w books constructed goes_on =
      let n = suc (length past) in
      let act =
        handle_all loop session.loop_id allowed session.options session.granted n (c ∷ calls) in
      let (handled, value, h) = Returns-witness (act w).0 (
        handle_all-Returns loop dependable session.loop_id allowed session.options decides
          session.granted n (c ∷ calls) w constructed) in
      let round : Round = record { said = text; calls = c ∷ calls; handled = handled } in
      rw (value, answer_turn allowed c calls handled h)
        (goes_on _ _ (past ++ round ∷ []) (act w).1
          (Ledger-snoc allowed start history records past round books ((λ e. absurd (cc)), h))
          (length-snoc past round))

  after_payload-Outcome :
      (history : List Payload) (records : List ToolCallRecord) (past : List Round) (text : Text)
      (calls : List ToolCall) (go_on : Continue E) (w : World E)
      → Books allowed start limit history records past
      → suc (length past) ≤ limit
      → All IsCall calls
      → GoesOn (suc (length past)) go_on
      → Returns
          (Outcome allowed start limit)
          (after_payload loop session (suc (length past)) history records (text, calls) go_on w).0
  after_payload-Outcome history records past text [] go_on w books room constructed goes_on =
      answered-Outcome allowed start limit history records past text books room
  after_payload-Outcome history records past text (c ∷ calls) go_on w books room constructed
        goes_on =
      after_answer-Outcome history records past text c calls go_on w books constructed goes_on

  after_response-Outcome :
      (history : List Payload) (records : List ToolCallRecord) (past : List Round)
      (response : ExecutionResult) (go_on : Continue E) (w : World E)
      → Books allowed start limit history records past
      → suc (length past) ≤ limit
      → IsValidResult response × Carries AreCalls (returned response)
      → GoesOn (suc (length past)) go_on
      → Returns
          (Outcome allowed start limit)
          (after_response loop session (suc (length past)) history records response go_on w).0
  unfolding after_response
  after_response-Outcome history records past response go_on w books room (valid, carried) goes_on =
      let failure =
        failed-Outcome allowed start limit history records past response books room valid in
      elim (Bool-cases response.success) [
        | inr failed ↦ rw failed failure
        | inl fine ↦ elim (Option-cases response.payload) [
          | inl nothing ↦ rw (fine, nothing) failure
          | inr (p, e) ↦
              rw (fine, e)
                (after_payload-Outcome history records past (text_of (get "text" p))
                  (calls_of (get "tool_calls" p)) go_on w books room
                  (subst (λ o. elim o [ none ↦ Unit | some p ↦ AreCalls p ]) e carried) goes_on)
        ]
      ]

  rounds-Outcome :
      (left iteration : ℕ)
      → left + iteration ≡ limit
      → GoesOn iteration (rounds loop session left iteration)
  unfolding rounds
  rounds-Outcome zero iteration total history records past w books spent =
      subst
        (λ n.
          Returns (Outcome allowed start limit) (rounds loop session zero n history records w).0)
        spent
        (exhausted-Outcome allowed start limit history records past session.options.max_iterations
          books (omega arith))
  rounds-Outcome (suc left) iteration total history records past w books spent =
      let ask =
        request loop provider session.provider_name
          (provider_payload history session.specs session.options) [] in
      let facts =
        request-Returns loop dependable provider session.provider_name
          (provider_payload history session.specs session.options) [] w named in
      subst
        (λ n.
          Returns (Outcome allowed start limit)
            (rounds loop session (suc left) n history records w).0)
        spent
        (>>=-Returns (λ r. IsValidResult r × (provider ≡ provider → Carries AreCalls (returned r)))
          (Outcome allowed start limit) ask
          (λ response.
            after_response loop session (suc (length past)) history records response
              (rounds loop session left (suc (length past))))
          w facts
          (λ response w' known.
            after_response-Outcome history records past response
              (rounds loop session left (suc (length past))) w' books (omega arith)
              (known.0, known.1 refl) (rounds-Outcome left (suc (length past)) (omega arith))))

begun :
    {E : Type 0} (allowed : List String) (start : List Payload) (o : ToolLoopOptions E)
    (r : ToolLoopResult)
    → make_loop_options o ≡ returned o
    → IsLoopOutcome allowed start (turns_of o.max_iterations) r
    → 1 ≤ r.iterations
unfolding make_loop_options
begun allowed start o r valid h =
    let positive : 1 ≤ turns_of o.max_iterations = ground arith in
    elim (Bool-cases r.exhausted) [
      | inl spent ↦ let full = h.exhausted spent in omega arith
      | inr left ↦
          let spent : r.iterations ≡ suc (length h.past) = h.spent ∙ (rw left refl) in omega arith
    ]

-- A run that can start returns, for collaborators that keep their contracts, and within its budget
-- of rounds: it takes at least one and at most `max_iterations`, and exactly that many if it says
-- that it is exhausted. Its messages are those it was given, two turns for each past round and the
-- answer, if there is one. In each round every call of the model is answered, in order, under its
-- own identifier, and none is executed whose tool is not offered. The run succeeds exactly if there
-- is an answer, and has an error text exactly if it does not: a run that is exhausted has one too,
-- although the docstring of ToolLoopResult keeps `error` for the other failures.
pub run_within_budget :
    {E : Type 0} (loop : ToolCallLoop E) (provider_name : String) (messages : List Payload)
    (tool_ids : List String) (options : ToolLoopOptions E) (granted : List String)
    (specs : List ToolSpec) (w : World E)
    → IsDependableLoop loop
    → Decides options
    → make_loop_options options ≡ returned options
    → is_blank provider_name ≡ false
    → messages ≢ []
    → tool_ids ≢ []
    → describe loop tool_ids ≡ returned specs
    → require_tool_calls loop provider_name ≡ returned tt
    → Returns
        (λ r.
          IsLoopOutcome (map (λ spec. spec.name) specs) messages (turns_of options.max_iterations) r
          × (1 ≤ r.iterations))
        (run loop provider_name messages tool_ids options granted w).0
unfolding run
run_within_budget loop provider_name [] tool_ids options granted specs w dependable decides valid
      named some_message some_tool described capable =
    absurd (some_message refl)
run_within_budget loop provider_name (m ∷ ms) [] options granted specs w dependable decides valid
      named some_message some_tool described capable =
    absurd (some_tool refl)
run_within_budget loop provider_name (m ∷ ms) (id ∷ ids) options granted specs w dependable decides
      valid named some_message some_tool described capable =
    let session : Session _ = record {
      provider_name = provider_name;
      specs = specs;
      options = options;
      granted = granted;
      loop_id = (loop.new_id w.env).0;
    } in
    let limit = turns_of options.max_iterations in
    let w' = (fresh loop.new_id w).1 in
    rw (described, capable)
      (Returns-map (rounds loop session limit 0 (m ∷ ms) [] w').0
        (λ r h. (h, begun (map (λ spec. spec.name) specs) (m ∷ ms) options r valid h))
        (rounds-Outcome loop dependable session decides named (m ∷ ms) limit limit 0 (omega arith)
          (m ∷ ms) [] [] w'
          (record { sound = tt; messages = sym (append-nil (m ∷ ms)); kept = refl }) refl))
