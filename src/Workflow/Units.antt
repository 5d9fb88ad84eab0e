-- ===== src/Workflow/Units.antt =====
-- src/mellivor_kernel/workflow/engine.py: `_group_into_units`, `_is_explicitly_parallel` and
-- `_first_stopping_failure`.
pub mod Partition
use mellivor_kernel.Prelude.{
  ℕ, suc, String, Bool, true, false, not, ◌&&◌, ◌||◌, Option, none, some, List, [], ◌∷◌, ◌++◌, Dict,
  get, put, contains, any, nat_eq, if◌then◌else◌,
}
use mellivor_kernel.Execution.Result.{ExecutionResult}
use mellivor_kernel.Workflow.Definition.{WorkflowStep}

-- The inner loop of `group_by_name`, for the group at an index.
index_names : ℕ → List String → Dict ℕ → Dict ℕ
index_names i [] found = found
index_names i (name ∷ names) found = index_names i names (put name i found)

-- The dict `group_by_name`, from the group at the index `i` on.
index_groups : ℕ → List (List String) → Dict ℕ → Dict ℕ
unfolding index_names
index_groups i [] found = found
index_groups i (group ∷ groups) found = index_groups (suc i) groups (index_names i group found)

unfoldable pub group_by_name : List (List String) → Dict ℕ
unfolding index_groups
group_by_name groups = index_groups 0 groups []

-- Is the step in the group that the last unit begins with? `units[-1][0]` is there, as no unit is
-- empty.
joins : Dict ℕ → WorkflowStep → List WorkflowStep → Bool
joins by_name step [] = false
joins by_name step (first ∷ rest) = elim (get step.name by_name) [
  | none ↦ false
  | some i ↦ elim (get first.name by_name) [ none ↦ false | some j ↦ nat_eq j i ]
]

-- One round of the loop: the step goes to the last unit, or begins a new one.
add_step : Dict ℕ → WorkflowStep → List (List WorkflowStep) → List (List WorkflowStep)
unfolding joins
add_step by_name step [] = (step ∷ []) ∷ []
add_step by_name step (unit ∷ []) =
    if joins by_name step unit then (unit ++ step ∷ []) ∷ [] else unit ∷ (step ∷ []) ∷ []
add_step by_name step (unit ∷ next ∷ units) = unit ∷ add_step by_name step (next ∷ units)

add_steps : Dict ℕ → List WorkflowStep → List (List WorkflowStep) → List (List WorkflowStep)
unfolding add_step
add_steps by_name [] units = units
add_steps by_name (step ∷ steps) units = add_steps by_name steps (add_step by_name step units)

unfoldable pub group_into_units : List WorkflowStep → List (List String) → List (List WorkflowStep)
unfolding add_steps
group_into_units steps groups = add_steps (group_by_name groups) steps []

unfoldable pub is_explicitly_parallel : String → List (List String) → Bool
is_explicitly_parallel name groups = any (contains name) groups

-- A result that stops the workflow.
abbrev pub is_stopping : WorkflowStep → ExecutionResult → Bool
is_stopping step result = not result.success && not step.continue_on_failure

unfoldable pub first_stopping_failure :
    List WorkflowStep → Dict ExecutionResult → Option (WorkflowStep × ExecutionResult)
first_stopping_failure [] results = none
first_stopping_failure (step ∷ steps) results =
    let later = first_stopping_failure steps results in
    elim (get step.name results) [
      | none ↦ later
      | some result ↦ if is_stopping step result then some (step, result) else later
    ]
