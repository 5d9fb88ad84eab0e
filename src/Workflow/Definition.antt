-- ===== src/Workflow/Definition.antt =====
-- src/mellivor_kernel/workflow: step.py, definition.py, workflow.py and result.py
pub mod Names
use mellivor_kernel.Prelude.{
  ℕ, String, Bool, true, false, not, ◌&&◌, Option, none, some, List, [], ◌∷◌, Dict, is_some,
  contains, length, map, nat_eq, if◌then◌else◌,
}
use mellivor_kernel.Python.{
  Payload, Text, lit, is_blank, has_text, Result, returned, raised, error, workflow_error,
}
use mellivor_kernel.Execution.Request.{ExecutionRequest}
use mellivor_kernel.Execution.Result.{ExecutionResult}

pub record WorkflowStep : Type 0 where
  pub name : String
  pub request : ExecutionRequest
  pub granted_permissions : List String
  pub continue_on_failure : Bool

-- WorkflowStep.__post_init__
unfoldable pub make_step : WorkflowStep → Result WorkflowStep
make_step step =
    if is_blank step.name
    then raised (error workflow_error (lit "WorkflowStep.name must not be blank." ∷ []))
    else returned step

pub record WorkflowDefinition : Type 0 where
  pub name : String
  pub steps : List WorkflowStep
  pub metadata : Payload

abbrev pub step_names : List WorkflowStep → List String
step_names = map (λ step. step.name)

-- `set(names)`: each name once
unfoldable pub distinct : List String → List String
distinct [] = []
distinct (n ∷ ns) = let rest = distinct ns in if contains n ns then rest else n ∷ rest

-- WorkflowDefinition.__post_init__
unfoldable pub make_definition : WorkflowDefinition → Result WorkflowDefinition
make_definition d =
    let names = step_names d.steps in
    if is_blank d.name
    then raised (error workflow_error (lit "WorkflowDefinition.name must not be blank." ∷ []))
    else if not (nat_eq (length names) (length (distinct names)))
    then raised (error workflow_error (lit "WorkflowDefinition.steps must have unique names." ∷ []))
    else returned d

pub record Workflow : Type 0 where
  pub definition : WorkflowDefinition
  pub workflow_id : String

pub record WorkflowResult : Type 0 where
  pub success : Bool
  pub step_results : Dict ExecutionResult
  pub error_text : Option Text
  pub stopped_at : Option String

-- WorkflowResult.__post_init__
unfoldable pub make_workflow_result : WorkflowResult → Result WorkflowResult
make_workflow_result r =
    if not r.success && not (has_text r.error_text)
    then raised (
        error workflow_error
          (lit "A failed WorkflowResult must include a non-empty `error` message." ∷ []))
    else if r.success && is_some r.error_text
    then raised
        (error workflow_error (lit "A successful WorkflowResult must not set `error`." ∷ []))
    else if r.success && is_some r.stopped_at
    then raised
        (error workflow_error (lit "A successful WorkflowResult must not set `stopped_at`." ∷ []))
    else returned r
