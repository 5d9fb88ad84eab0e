-- ===== src/Execution/ToolLoop/Outcome.antt =====
-- The outcome of a tool loop.
use mellivor_kernel.Prelude.{
  ℕ, suc, ◌≤◌, ℤ, String, ◌≡◌, ◌≢◌, refl, sym, ap, ◌∙◌, true, not, Bool-cases, Option, none, some,
  is_some, List, [], ◌∷◌, ◌++◌, append_assoc, append-nil, map, concat, length, inl, inr, All,
  if◌then◌else◌, arith,
}
use mellivor_kernel.Python.{
  Payload, Text, lit, text_or_not_blank, has_text, is_blank, is_blank_text, returned,
}
use mellivor_kernel.Providers.ToolCalling.{
  ToolCall, assistant_message, tool_results_message, results_turn,
}
use mellivor_kernel.Execution.Result.{ExecutionResult, IsValidResult}
use mellivor_kernel.Execution.Conversation.{ToolCallRecord, ToolLoopResult}
use mellivor_kernel.Execution.ToolLoop.{Handled}
use mellivor_kernel.Execution.ToolLoop.Rounds.{failed_run, answered_run, exhausted_run}
use mellivor_kernel.Execution.ToolLoop.Contract.{AreHandled}

-- A round: what the model said, the tools it called, and how the calls were handled.
pub record Round : Type 0 where
  pub said : Text
  pub calls : List ToolCall
  pub handled : List Handled

abbrev pub turns : Round → List Payload
turns r = assistant_message r.said r.calls ∷ results_turn (map (λ h. h.0) r.handled) ∷ []

abbrev pub records_of : Round → List ToolCallRecord
records_of r = map (λ h. h.1) r.handled

abbrev pub IsRound : List String → Round → Type 0
IsRound allowed r = (r.calls ≢ []) × AreHandled allowed r.calls r.handled

-- The assistant's last turn, where there is an answer.
abbrev pub last_turn : Option Text → List Payload
last_turn none = []
last_turn (some t) = assistant_message t [] ∷ []

-- The messages are those of the start, the two turns of each past round, and the answer; the records
-- are those of the rounds. A run without success has an error text; that of an exhausted run is not
-- what the docstring of ToolLoopResult says of `error`, but it is what `run` returns.
pub record IsLoopOutcome (allowed : List String) (start : List Payload) (limit : ℕ)
    (r : ToolLoopResult) : Type 0 where
  pub past : List Round
  pub sound : All (IsRound allowed) past
  pub messages : r.messages ≡ start ++ concat (map turns past) ++ last_turn r.text
  pub records : r.tool_calls ≡ concat (map records_of past)
  pub spent : r.iterations ≡ (if r.exhausted then length past else suc (length past))
  pub bounded : r.iterations ≤ limit
  pub exhausted : r.exhausted ≡ true → r.iterations ≡ limit
  pub answered : r.success ≡ is_some r.text
  pub error : has_text r.error_text ≡ not r.success

-- The history and the records of the past rounds.
pub record Ledger (allowed : List String) (start history : List Payload)
    (records : List ToolCallRecord) (past : List Round) : Type 0 where
  pub sound : All (IsRound allowed) past
  pub messages : history ≡ start ++ concat (map turns past)
  pub kept : records ≡ concat (map records_of past)

pub answer_turn :
    (allowed : List String) (c : ToolCall) (calls : List ToolCall) (handled : List Handled)
    → AreHandled allowed (c ∷ calls) handled
    → tool_results_message (map (λ h. h.0) handled)
      ≡ returned (results_turn (map (λ h. h.0) handled))
unfolding tool_results_message
answer_turn allowed c calls [] h = absurd h
answer_turn allowed c calls (one ∷ handled) h = refl

pub concat-snoc :
    {A B : Type 0} (f : A → List B) (xs : List A) (x : A)
    → concat (map f (xs ++ x ∷ [])) ≡ concat (map f xs) ++ f x
concat-snoc f [] x = append-nil (f x)
concat-snoc f (y ∷ ys) x =
    ap (λ r. f y ++ r) (concat-snoc f ys x) ∙ sym (append_assoc (f y) (concat (map f ys)) (f x))

pub All-snoc :
    {A : Type 0} (P : A → Type 0) (xs : List A) (x : A) → All P xs → P x → All P (xs ++ x ∷ [])
All-snoc P [] x h p = (p, tt)
All-snoc P (y ∷ ys) x h p = (h.0, All-snoc P ys x h.1 p)

pub length-snoc : {A : Type 0} (xs : List A) (x : A) → length (xs ++ x ∷ []) ≡ suc (length xs)
length-snoc [] x = refl
length-snoc (y ∷ ys) x = ap suc (length-snoc ys x)

module _ (allowed : List String) (start : List Payload) (limit : ℕ) where
  abbrev pub Outcome : ToolLoopResult → Type 0
  Outcome = IsLoopOutcome allowed start limit

  abbrev pub Books : List Payload → List ToolCallRecord → List Round → Type 0
  Books = Ledger allowed start

  pub exhausted-Outcome :
      (history : List Payload) (records : List ToolCallRecord) (past : List Round) (n : ℤ)
      → Books history records past
      → length past ≡ limit
      → Outcome (exhausted_run history records (length past) n)
  unfolding has_text is_blank_text is_blank
  exhausted-Outcome history records past n h full = record {
    past = past;
    sound = h.sound;
    messages = h.messages ∙ sym (append-nil (start ++ concat (map turns past)));
    records = h.kept;
    spent = refl;
    bounded = omega arith;
    exhausted = λ e. full;
    answered = refl;
    error = refl;
  }

  pub failed-Outcome :
      (history : List Payload) (records : List ToolCallRecord) (past : List Round)
      (response : ExecutionResult)
      → Books history records past
      → suc (length past) ≤ limit
      → IsValidResult response
      → Outcome (failed_run history records (suc (length past)) response.error_text)
  unfolding has_text is_blank_text is_blank
  failed-Outcome history records past response h room valid = record {
    past = past;
    sound = h.sound;
    messages = h.messages ∙ sym (append-nil (start ++ concat (map turns past)));
    records = h.kept;
    spent = refl;
    bounded = room;
    exhausted = λ e. absurd (cc);
    answered = refl;
    error =
        let readable =
          text_or_not_blank response.error_text (lit "Provider returned no payload." ∷ [])
            (elim (Bool-cases response.success) [
              | inl fine ↦ inl (valid.succeeded fine)
              | inr failed ↦ inr (valid.failed failed)
            ])
            refl in
        rw readable refl;
  }

  pub answered-Outcome :
      (history : List Payload) (records : List ToolCallRecord) (past : List Round) (text : Text)
      → Books history records past
      → suc (length past) ≤ limit
      → Outcome (
          answered_run (history ++ assistant_message text [] ∷ []) records (suc (length past)) text)
  unfolding has_text
  answered-Outcome history records past text h room = record {
    past = past;
    sound = h.sound;
    messages = ap (λ r. r ++ assistant_message text [] ∷ []) h.messages;
    records = h.kept;
    spent = refl;
    bounded = room;
    exhausted = λ e. absurd (cc);
    answered = refl;
    error = refl;
  }
