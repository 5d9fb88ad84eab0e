-- ===== src/Workflow/Units/Partition.antt =====
-- The units of a workflow are its steps, in order.
use mellivor_kernel.Prelude.{
  String, ◌≡◌, ◌≢◌, refl, sym, ap, ◌∙◌, List, [], ◌∷◌, ◌++◌, append_assoc, append-nil, Dict, ℕ,
  concat, All, arith, Bool-cases, inl, inr,
}
use mellivor_kernel.Workflow.Definition.{WorkflowStep}
use mellivor_kernel.Workflow.Units.{joins, add_step, add_steps, group_into_units, group_by_name}

concat-add_step :
    (by_name : Dict ℕ) (step : WorkflowStep) (units : List (List WorkflowStep))
    → concat (add_step by_name step units) ≡ concat units ++ step ∷ []
unfolding add_step
concat-add_step by_name step [] = refl
concat-add_step by_name step (unit ∷ []) = elim (Bool-cases (joins by_name step unit)) [
  | inl joined ↦ rw joined (grind (arith, append-nil, append_assoc))
  | inr apart ↦ rw apart (grind (arith, append-nil, append_assoc))
]
concat-add_step by_name step (unit ∷ next ∷ units) =
    ap (λ r. unit ++ r) (concat-add_step by_name step (next ∷ units))
    ∙ sym (append_assoc unit _ (step ∷ []))

concat-add_steps :
    (by_name : Dict ℕ) (steps : List WorkflowStep) (units : List (List WorkflowStep))
    → concat (add_steps by_name steps units) ≡ concat units ++ steps
unfolding add_steps
concat-add_steps by_name [] units = sym (append-nil (concat units))
concat-add_steps by_name (step ∷ steps) units =
    concat-add_steps by_name steps (add_step by_name step units)
    ∙ ap (λ r. r ++ steps) (concat-add_step by_name step units)
    ∙ append_assoc (concat units) (step ∷ []) steps

-- Whatever groups there are, the units hold the steps of the workflow, each once and in the declared
-- order.
pub concat-group_into_units :
    (steps : List WorkflowStep) (groups : List (List String))
    → concat (group_into_units steps groups) ≡ steps
unfolding group_into_units
concat-group_into_units steps groups = concat-add_steps (group_by_name groups) steps []

add_step-ne-nil :
    (by_name : Dict ℕ) (step : WorkflowStep) (units : List (List WorkflowStep))
    → All (λ unit. unit ≢ []) units
    → All (λ unit. unit ≢ []) (add_step by_name step units)
unfolding add_step joins
add_step-ne-nil by_name step [] h = (λ e. cc, tt)
add_step-ne-nil by_name step ([] ∷ []) h = absurd (h.0 refl)
add_step-ne-nil by_name step ((s ∷ unit) ∷ []) h =
    elim (Bool-cases (joins by_name step (s ∷ unit))) [
      | inl joined ↦ rw joined (λ e. cc, tt)
      | inr apart ↦ rw apart (λ e. cc, (λ e. cc, tt))
    ]
add_step-ne-nil by_name step (unit ∷ next ∷ units) h =
    (h.0, add_step-ne-nil by_name step (next ∷ units) h.1)

add_steps-ne-nil :
    (by_name : Dict ℕ) (steps : List WorkflowStep) (units : List (List WorkflowStep))
    → All (λ unit. unit ≢ []) units
    → All (λ unit. unit ≢ []) (add_steps by_name steps units)
unfolding add_steps
add_steps-ne-nil by_name [] units h = h
add_steps-ne-nil by_name (step ∷ steps) units h =
    add_steps-ne-nil by_name steps _ (add_step-ne-nil by_name step units h)

-- No unit is empty.
pub group_into_units-ne-nil :
    (steps : List WorkflowStep) (groups : List (List String))
    → All (λ unit. unit ≢ []) (group_into_units steps groups)
unfolding group_into_units
group_into_units-ne-nil steps groups = add_steps-ne-nil (group_by_name groups) steps [] tt
