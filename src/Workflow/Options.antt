-- ===== src/Workflow/Options.antt =====
-- src/mellivor_kernel/workflow/options.py, and the check of the options against a definition
-- (workflow/engine.py, `_validate_options`).
use mellivor_kernel.Prelude.{
  ℕ, suc, ◌+◌, ◌-◌, String, Bool, true, false, not, ◌&&◌, ◌||◌, none, some, List, [], ◌∷◌, ◌++◌,
  Dict, get, put, keys, contains, keep, concat, is_nil, get_elem?, length, leb, nat_eq, ◌==◌,
  if◌then◌else◌,
}
use mellivor_kernel.Python.{
  lit, quoted, is_blank, join_comma, sorted, Exception, Result, returned, raised, error, ◌and_then◌,
  workflow_error, other_error,
}
use mellivor_kernel.World.{Call}
use mellivor_kernel.Execution.Request.{ExecutionRequest}
use mellivor_kernel.Execution.Result.{ExecutionResult}
use mellivor_kernel.Workflow.Definition.{WorkflowStep, step_names, distinct}

-- A `datetime`: its instant, whether it has a time zone, and what `isoformat` answers.
pub record Datetime : Type 0 where
  pub instant : ℕ
  pub is_aware : Bool
  pub isoformat : String

-- WorkflowContext: the execution context is part of the environment.
pub record WorkflowContext : Type 0 where
  pub step_results : Dict ExecutionResult

-- What a resolver answers: a request, or an object of another class.
pub data Candidate : Type 0 where
  a_request : ExecutionRequest → Candidate
  another : (class_name : String) → Candidate

pub data Resolver (E : Type 0) : Type 0 where
  callable : (WorkflowContext → ExecutionRequest → Call E Candidate) → Resolver E
  not_callable : (class_name : String) → Resolver E

pub record WorkflowExecutionOptions (E : Type 0) : Type 0 where
  pub request_resolvers : Dict (Resolver E)
  pub parallel_groups : List (List String)
  pub not_before : Dict Datetime

abbrev pub default_options : {E : Type 0} → WorkflowExecutionOptions E
default_options = record { request_resolvers = []; parallel_groups = []; not_before = [] }

validate_step_name : String → String → Result Unit
validate_step_name name field_name =
    if is_blank name
    then raised (
        error workflow_error (
          lit "WorkflowExecutionOptions."
          ∷ lit field_name
          ∷ lit " step names cannot be blank."
          ∷ []))
    else returned tt

-- The three loops of `__post_init__`.
module _ {E : Type 0} where
  check_callable : String → Resolver E → Result Unit
  check_callable name (callable f) = returned tt
  check_callable name (not_callable class_name) = raised (
      error workflow_error (
        lit "WorkflowExecutionOptions.request_resolvers["
        ∷ quoted name
        ∷ lit "] must be callable."
        ∷ []))

  pub check_resolvers : Dict (Resolver E) → Result Unit
  unfolding validate_step_name check_callable
  check_resolvers [] = returned tt
  check_resolvers ((name, resolver) ∷ rest) =
      let later = check_resolvers rest in
      validate_step_name name "request_resolvers"
      and_then check_callable name resolver
      and_then later

-- One group, with the names that are grouped already; it answers with those behind it.
check_names : List String → List String → Result (List String)
unfolding validate_step_name
check_names [] grouped = returned grouped
check_names (name ∷ names) grouped =
    let later = check_names names (name ∷ grouped) in
    validate_step_name name "parallel_groups"
    and_then (if contains name grouped
        then raised (
            error workflow_error (
              lit "WorkflowExecutionOptions step "
              ∷ quoted name
              ∷ lit " cannot appear in more than one parallel group."
              ∷ []))
        else later)

pub check_groups : List (List String) → List String → Result Unit
unfolding check_names
check_groups [] grouped = returned tt
check_groups (group ∷ groups) grouped =
    if is_nil group
    then raised (
        error workflow_error (lit "WorkflowExecutionOptions.parallel_groups cannot be empty." ∷ []))
    else elim (check_names group grouped) [
      | raised e ↦ raised e
      | returned grouped' ↦ check_groups groups grouped'
    ]

unfoldable pub check_times : Dict Datetime → Result Unit
unfolding validate_step_name
check_times [] = returned tt
check_times ((name, scheduled_at) ∷ rest) =
    let later = check_times rest in
    validate_step_name name "not_before"
    and_then (if not scheduled_at.is_aware
        then raised (
            error workflow_error (
              lit "WorkflowExecutionOptions.not_before["
              ∷ quoted name
              ∷ lit "] must be timezone-aware."
              ∷ []))
        else later)

-- WorkflowExecutionOptions.__post_init__
unfoldable pub make_options :
    {E : Type 0} → WorkflowExecutionOptions E → Result (WorkflowExecutionOptions E)
unfolding check_resolvers check_groups check_times
make_options o =
    check_resolvers o.request_resolvers
    and_then check_groups o.parallel_groups []
    and_then check_times o.not_before
    and_then returned o

-- {step_name: index for index, step_name in enumerate(names)}, from the index `i` on
positions : ℕ → List String → Dict ℕ → Dict ℕ
positions i [] found = found
positions i (name ∷ names) found = positions (suc i) names (put name i found)

abbrev key_error : Exception
key_error = error other_error []

-- [positions[name] for name in group]
indexes_of : Dict ℕ → List String → Result (List ℕ)
indexes_of found [] = returned []
indexes_of found (name ∷ names) =
    let later = indexes_of found names in
    elim (get name found) [
      | none ↦ raised key_error
      | some i ↦ elim later [ raised e ↦ raised e | returned is ↦ returned (i ∷ is) ]
    ]

insert_index : ℕ → List ℕ → List ℕ
insert_index i [] = i ∷ []
insert_index i (j ∷ js) = let rest = j ∷ insert_index i js in if leb i j then i ∷ j ∷ js else rest

-- sorted(indexes)
sort_indexes : List ℕ → List ℕ
unfolding insert_index
sort_indexes [] = []
sort_indexes (i ∷ is) = insert_index i (sort_indexes is)

-- [names[index] for index in indexes]
names_at : List String → List ℕ → Result (List String)
names_at names [] = returned []
names_at names (i ∷ is) =
    let later = names_at names is in
    elim (get_elem? names i) [
      | none ↦ raised key_error
      | some name ↦ elim later [ raised e ↦ raised e | returned ns ↦ returned (name ∷ ns) ]
    ]

same_names : List String → List String → Bool
same_names [] [] = true
same_names (m ∷ ms) (n ∷ ns) = m == n && same_names ms ns
same_names _ _ = false

-- min(indexes) and max(indexes) of the list `i ∷ is`
least : ℕ → List ℕ → ℕ
least i [] = i
least i (j ∷ js) = if leb j i then least j js else least i js

greatest : ℕ → List ℕ → ℕ
greatest i [] = i
greatest i (j ∷ js) = if leb i j then greatest j js else greatest i js

abbrev not_contiguous : Exception
not_contiguous = error workflow_error (
    lit
      "WorkflowExecutionOptions.parallel_groups must name contiguous steps in their declared workflow order."
    ∷ [])

-- The test of one group, by its indexes. `max` of no indexes is a ValueError.
check_span : List String → List String → List ℕ → Result Unit
unfolding least greatest same_names
check_span group declared_group_order [] =
    if not (same_names group declared_group_order)
    then raised not_contiguous
    else raised (error other_error [])
check_span group declared_group_order (i ∷ is) =
    if not (same_names group declared_group_order)
      || not (nat_eq (greatest i is - least i is + 1) (length (i ∷ is)))
    then raised not_contiguous
    else returned tt

check_contiguous : List String → List (List String) → Result Unit
unfolding positions indexes_of names_at sort_indexes check_span
check_contiguous names [] = returned tt
check_contiguous names (group ∷ groups) =
    let later = check_contiguous names groups in
    elim (indexes_of (positions 0 names []) group) [
      | raised e ↦ raised e
      | returned is ↦ elim (names_at names (sort_indexes is)) [
        | raised e ↦ raised e
        | returned declared_group_order ↦ check_span group declared_group_order is and_then later
      ]
    ]

-- set(request_resolvers) | set(not_before) | the grouped names
unfoldable pub referenced_names : {E : Type 0} → WorkflowExecutionOptions E → List String
referenced_names o = keys o.request_resolvers ++ keys o.not_before ++ concat o.parallel_groups

-- referenced_names - declared_set
unfoldable pub unknown_names :
    {E : Type 0} → List WorkflowStep → WorkflowExecutionOptions E → List String
unfolding referenced_names
unknown_names steps o =
    keep (λ name. not (contains name (step_names steps))) (distinct (referenced_names o))

-- _validate_options
unfoldable pub validate_options :
    {E : Type 0} → List WorkflowStep → WorkflowExecutionOptions E → Result Unit
unfolding unknown_names check_contiguous
validate_options steps o =
    let unknown = unknown_names steps o in
    if not (is_nil unknown)
    then raised (
        error workflow_error (
          lit "WorkflowExecutionOptions references unknown step(s): "
          ∷ (join_comma (sorted unknown) ++ lit "." ∷ [])))
    else check_contiguous (step_names steps) o.parallel_groups
