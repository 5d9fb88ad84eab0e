-- ===== src/Execution/Request.antt =====
-- src/mellivor_kernel/execution/request.py
use mellivor_kernel.Prelude.{String, Bool, true, false, [], ◌∷◌, if◌then◌else◌}
use mellivor_kernel.Python.{
  Payload, lit, is_blank, Result, returned, raised, error, execution_validation_error,
}

pub data ExecutionTarget : Type 0 where
  tool provider : ExecutionTarget

-- ExecutionTarget.value
unfoldable pub target_value : ExecutionTarget → String
target_value tool = "tool"
target_value provider = "provider"

-- repr(target)
unfoldable pub target_repr : ExecutionTarget → String
target_repr tool = "<ExecutionTarget.TOOL: 'tool'>"
target_repr provider = "<ExecutionTarget.PROVIDER: 'provider'>"

abbrev pub is_tool : ExecutionTarget → Bool
is_tool tool = true
is_tool provider = false

abbrev pub is_provider : ExecutionTarget → Bool
is_provider tool = false
is_provider provider = true

pub record ExecutionRequest : Type 0 where
  pub target : ExecutionTarget
  pub operation : String
  pub payload : Payload
  pub request_id : String

-- The constructor with its `__post_init__`. An identifier that the caller leaves out is a fresh
-- uuid4, which the caller of this function supplies.
unfoldable pub make_request : ExecutionTarget → String → Payload → String → Result ExecutionRequest
make_request target operation payload request_id =
    if is_blank operation
    then raised (
        error execution_validation_error (lit "ExecutionRequest.operation must not be blank." ∷ []))
    else if is_blank request_id
    then raised (
        error execution_validation_error
          (lit "ExecutionRequest.request_id must not be blank." ∷ []))
    else returned (record {
      target = target;
      operation = operation;
      payload = payload;
      request_id = request_id;
    })
