-- ===== src/Providers/ChatCompletions/History.antt =====
-- The conversation of a tool loop, in the Chat Completions shape: what the loop of
-- src/mellivor_kernel/execution/tool_loop.py writes, `messages_to_chat` takes.
use mellivor_kernel.Prelude.{
  ℕ, String, ◌≡◌, ◌≢◌, refl, sym, ap, ◌∙◌, false, Option, none, some, List, [], ◌∷◌, ◌++◌, map, All,
  append_assoc, concat, map-append,
}
use mellivor_kernel.Python.{
  Payload, Value, str, sequence, Text, lit, is_empty_text, Result, returned, raised, Builtins,
}
use mellivor_kernel.Providers.ToolCalling.{ToolCall, dict_value, elements}
use mellivor_kernel.Providers.ChatCompletions.{
  ErrorFactory, collect, gathered, message_of, message_to_chat, messages_to_chat, with_system,
  system_message, opened,
}
use mellivor_kernel.Providers.ChatCompletions.Conversation.{
  Encodes, wire_turn, wire_result, message_to_chat-calls, message_to_chat-answer,
  message_to_chat-results, entries-elements,
}
use mellivor_kernel.Execution.Conversation.{ToolLoopResult}
use mellivor_kernel.Execution.ToolLoop.{Handled}
use mellivor_kernel.Execution.ToolLoop.Contract.{AreHandled}
use mellivor_kernel.Execution.ToolLoop.Outcome.{Round, turns, IsRound, last_turn, IsLoopOutcome}

abbrev appended : {B : Type 0} → Result (List B) → Result (List B) → Result (List B)
appended (raised e) later = raised e
appended (returned us) (raised e) = raised e
appended (returned us) (returned vs) = returned (us ++ vs)

appended-nil : {B : Type 0} (r : Result (List B)) → r ≡ appended (returned []) r
appended-nil (raised e) = refl
appended-nil (returned vs) = refl

gathered-appended :
    {B : Type 0} (one : Result B) (some_more later : Result (List B))
    → gathered one (appended some_more later) ≡ appended (gathered one some_more) later
gathered-appended (raised e) r later = refl
gathered-appended (returned y) (raised e) later = refl
gathered-appended (returned y) (returned us) (raised e) = refl
gathered-appended (returned y) (returned us) (returned vs) = refl

collect-append :
    {A B : Type 0} (f : A → Result B) (xs ys : List A)
    → collect f (xs ++ ys) ≡ appended (collect f xs) (collect f ys)
unfolding collect
collect-append f [] ys = appended-nil (collect f ys)
collect-append f (x ∷ xs) ys =
    ap (gathered (f x)) (collect-append f xs ys)
    ∙ gathered-appended (f x) (collect f xs) (collect f ys)

concat-append : {A : Type 0} (xs ys : List (List A)) → concat (xs ++ ys) ≡ concat xs ++ concat ys
concat-append [] ys = refl
concat-append (x ∷ xs) ys =
    ap (λ r. x ++ r) (concat-append xs ys) ∙ sym (append_assoc x (concat xs) (concat ys))

module _ {py : Builtins} (enc : Encodes py) (fault : ErrorFactory) where
  -- What one round becomes.
  abbrev pub wire_round : Round → List Payload
  wire_round r = wire_turn enc r.said r.calls ∷ map wire_result (map (λ h. h.0) r.handled)

  abbrev pub wire_answer : Option Text → List Payload
  wire_answer none = []
  wire_answer (some t) = message_of (lit "assistant" ∷ []) (str t) ∷ []

  abbrev messages_of : Round → List (List Payload)
  messages_of r =
      (wire_turn enc r.said r.calls ∷ []) ∷ map wire_result (map (λ h. h.0) r.handled) ∷ []

  messages_of-concat :
      (past : List Round) → concat (concat (map messages_of past)) ≡ concat (map wire_round past)
  messages_of-concat [] = refl
  messages_of-concat (r ∷ past) =
      ap (λ m. wire_turn enc r.said r.calls ∷ m)
        (ap (λ m. map wire_result (map (λ h. h.0) r.handled) ++ m) (messages_of-concat past))

  module _ (allowed : List String) where
    turns-collect :
        (said : Text) (calls : List ToolCall) (handled : List Handled)
        → calls ≢ []
        → AreHandled allowed calls handled
        → collect
            (message_to_chat py fault)
            (map dict_value (turns (record { said = said; calls = calls; handled = handled })))
          ≡ returned (messages_of (record { said = said; calls = calls; handled = handled }))
    unfolding collect
    turns-collect said [] handled some_call h = absurd (some_call refl)
    turns-collect said (c ∷ calls) [] some_call h = absurd h
    turns-collect said (c ∷ calls) (one ∷ handled) some_call h =
        rw
          (
            message_to_chat-calls enc fault said c calls,
            message_to_chat-results enc fault one.0 (map (λ x. x.0) handled),
          )
          refl

    rounds-collect :
        (past : List Round)
        → All (IsRound allowed) past
        → collect (message_to_chat py fault) (map dict_value (concat (map turns past)))
          ≡ returned (concat (map messages_of past))
    unfolding collect
    rounds-collect [] h = refl
    rounds-collect (r ∷ past) h =
        collect-append (message_to_chat py fault) (map dict_value (turns r))
          (map dict_value (concat (map turns past)))
        ∙ ap
            (λ x.
              appended x
                (collect (message_to_chat py fault) (map dict_value (concat (map turns past)))))
            (turns-collect r.said r.calls r.handled h.0.0 h.0.1)
        ∙ ap (appended (returned (messages_of r))) (rounds-collect past h.1)

    -- An answer of the model that is not empty is a message again.
    answer-collect :
        (answer : Option Text)
        → ((t : Text) → answer ≡ some t → is_empty_text t ≡ false)
        → collect (message_to_chat py fault) (map dict_value (last_turn answer))
          ≡ returned (map (λ m. m ∷ []) (wire_answer answer))
    unfolding collect
    answer-collect none h = refl
    answer-collect (some t) h = rw (message_to_chat-answer enc fault t (h t refl)) refl

    singles-concat : {A : Type 0} (xs : List A) → concat (map (λ x. x ∷ []) xs) ≡ xs
    singles-concat [] = refl
    singles-concat (x ∷ xs) = ap (λ r. x ∷ r) (singles-concat xs)

    conversation-concat :
        (started : List (List Payload)) (past : List Round) (answer : Option Text)
        → concat
            (started ++ concat (map messages_of past) ++ map (λ m. m ∷ []) (wire_answer answer))
          ≡ concat started ++ concat (map wire_round past) ++ wire_answer answer
    conversation-concat started past answer =
        concat-append (started ++ concat (map messages_of past))
          (map (λ m. m ∷ []) (wire_answer answer))
        ∙ ap (λ x. x ++ concat (map (λ m. m ∷ []) (wire_answer answer)))
            (concat-append started (concat (map messages_of past))
              ∙ ap (λ x. concat started ++ x) (messages_of-concat past))
        ∙ ap (λ x. concat started ++ concat (map wire_round past) ++ x)
            (singles-concat (wire_answer answer))

    conversation-collect :
        (start : List Payload) (past : List Round) (answer : Option Text)
        (started : List (List Payload))
        → All (IsRound allowed) past
        → ((t : Text) → answer ≡ some t → is_empty_text t ≡ false)
        → collect (message_to_chat py fault) (map dict_value start) ≡ returned started
        → collect
            (message_to_chat py fault)
            (map dict_value (start ++ concat (map turns past) ++ last_turn answer))
          ≡ returned
              (started ++ concat (map messages_of past) ++ map (λ m. m ∷ []) (wire_answer answer))
    conversation-collect start past answer started sound spoken begun =
        let translate = collect (message_to_chat py fault) in
        let turned = map dict_value (concat (map turns past)) in
        let last = map dict_value (last_turn answer) in
        rw
          (
            map-append dict_value (start ++ concat (map turns past)) (last_turn answer),
            map-append dict_value start (concat (map turns past)),
          )
          (collect-append (message_to_chat py fault) (map dict_value start ++ turned) last
            ∙ ap (λ x. appended x (translate last))
                (collect-append (message_to_chat py fault) (map dict_value start) turned
                  ∙ ap (λ x. appended x (translate turned)) begun
                  ∙ ap (appended (returned started)) (rounds-collect past sound))
            ∙ ap (appended (returned (started ++ concat (map messages_of past))))
                (answer-collect answer spoken))

    -- A conversation that a tool loop has come to, if it began with messages that translate and its
    -- answer, if there is one, is not empty, translates too: the system's message if there is one,
    -- the messages of the start, then for each past round the assistant's message with its calls and
    -- one tool message for each call's result, and at last the answer.
    pub messages_to_chat-conversation :
        (first : Payload) (rest : List Payload) (limit : ℕ) (r : ToolLoopResult)
        (h : IsLoopOutcome allowed (first ∷ rest) limit r) (started : List (List Payload))
        (system : Value) (instructed : List Payload)
        → ((t : Text) → r.text ≡ some t → is_empty_text t ≡ false)
        → system_message py fault system ≡ returned instructed
        → collect (message_to_chat py fault) (map dict_value (first ∷ rest)) ≡ returned started
        → messages_to_chat py fault (sequence (elements (map dict_value r.messages))) system
          ≡ returned (
              instructed
              ++ (concat started ++ concat (map wire_round h.past) ++ wire_answer r.text))
    unfolding messages_to_chat
    messages_to_chat-conversation first rest limit r h started system instructed spoken told begun =
        let history = (first ∷ rest) ++ concat (map turns h.past) ++ last_turn r.text in
        rw (h.messages, entries-elements (map dict_value history))
          (ap (λ s. opened py fault s (map dict_value history)) told
            ∙ ap (with_system py fault instructed)
                (conversation-collect (first ∷ rest) h.past r.text started h.sound spoken begun)
            ∙ ap (λ m. returned (instructed ++ m)) (conversation-concat started h.past r.text))
