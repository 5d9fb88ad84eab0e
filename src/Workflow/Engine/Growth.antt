-- ===== src/Workflow/Engine/Growth.antt =====
-- The results of the steps so far, as a unit adds its own.
use mellivor_kernel.Prelude.{
  String, ◌≡◌, refl, sym, ap, ◌∙◌, true, none, some, List, [], ◌∷◌, ◌++◌, append_assoc, arith,
  Bool-cases, inl, inr, Dict, get, keys, All, contains,
}
use mellivor_kernel.Execution.Result.{ExecutionResult}
use mellivor_kernel.Workflow.Definition.{WorkflowStep, step_names}
use mellivor_kernel.Workflow.Definition.Names.{are_unique}
use mellivor_kernel.Workflow.Units.{is_stopping, first_stopping_failure}
use mellivor_kernel.Workflow.Pool.Complete.{stopping_found, Member-contains}
use mellivor_kernel.Workflow.Engine.Loop.{update}
use mellivor_kernel.Workflow.Engine.Updates.{
  unique_parts, unique_apart, has-keys, keys-update, get-update, step_names-append,
}
use mellivor_kernel.Workflow.Engine.Steps.{Answers}
use mellivor_kernel.Workflow.Engine.Outcome.{Unbroken, Member-append}

pub All-parts :
    {A : Type 0} (P : A → Type 0) (xs ys : List A) → All P (xs ++ ys) → All P xs × All P ys
All-parts P [] ys h = (tt, h)
All-parts P (x ∷ xs) ys h = let (hx, hy) = All-parts P xs ys h.1 in ((h.0, hx), hy)

-- The names of a unit, and of it with the steps before.
pub unique_units :
    (earlier unit later : List WorkflowStep)
    → are_unique (step_names (earlier ++ (unit ++ later))) ≡ true
    → (are_unique (step_names earlier ++ step_names unit) ≡ true)
      × (are_unique (step_names unit) ≡ true)
unique_units earlier unit later h =
    let split : step_names (earlier ++ (unit ++ later))
        ≡ (step_names earlier ++ step_names unit) ++ step_names later =
      step_names-append earlier (unit ++ later)
      ∙ ap (λ names. step_names earlier ++ names) (step_names-append unit later)
      ∙ sym (append_assoc (step_names earlier) (step_names unit) (step_names later)) in
    let (front, _) =
      unique_parts (step_names earlier ++ step_names unit) (step_names later)
        (ap are_unique (sym split) ∙ h) in
    let (_, back) = unique_parts (step_names earlier) (step_names unit) front in (front, back)

pub full_answer :
    (unit : List WorkflowStep) (answer : Dict ExecutionResult)
    → Answers unit answer
    → first_stopping_failure unit answer ≡ none
    → keys answer ≡ step_names unit
full_answer unit answer h nothing = elim h.full [
  | inl full ↦ full
  | inr stops ↦ absurd (stops nothing)
]

pub update-found :
    (n : String) (results answer : Dict ExecutionResult) (r : ExecutionResult)
    → are_unique (keys answer) ≡ true
    → get n answer ≡ some r
    → get n (update results answer) ≡ some r
update-found n results answer r unique found = get-update n results answer unique ∙ (rw found refl)

module _ (earlier unit : List WorkflowStep) (results answer : Dict ExecutionResult)
    (full : keys results ≡ step_names earlier) (unit_full : keys answer ≡ step_names unit)
    (unique : are_unique (step_names earlier ++ step_names unit) ≡ true) where
  pub update-keys : keys (update results answer) ≡ step_names (earlier ++ unit)
  update-keys =
      keys-update results answer (rw (full, unit_full) unique)
      ∙ (rw (full, unit_full) (sym (step_names-append earlier unit)))

  pub update-Unbroken :
      Unbroken earlier results
      → first_stopping_failure unit answer ≡ none
      → Unbroken (earlier ++ unit) (update results answer)
  update-Unbroken h nothing s r m found =
      let unique' : are_unique (keys answer) ≡ true =
        rw unit_full (unique_parts (step_names earlier) (step_names unit) unique).1 in
      let value = sym (get-update s.name results answer unique') ∙ found in
      let there = has-keys s.name answer ∙ ap (contains s.name) unit_full in
      elim (Member-append s earlier unit m) [
        | inl before ↦
            let apart =
              unique_apart s.name (step_names earlier) (step_names unit) unique
                (Member-contains s earlier before) in
            h s r before (ground arith)
        | inr now ↦
            let present = Member-contains s unit now in
            let own : get s.name answer ≡ some r = ground arith in
            elim (Bool-cases (is_stopping s r)) [
              | inl stops ↦ absurd (stopping_found unit answer s r now own stops nothing)
              | inr goes_on ↦ goes_on
            ]
      ]
