-- ===== src/Events/Event.antt =====
-- The event classes: execution/events.py, authorization/events.py, workflow/events.py and
-- agents/events.py. The base class's `event_id` and `occurred_at` (a fresh uuid4 and the time) are
-- left out: the kernel never reads them.
use mellivor_kernel.Prelude.{ℕ, String, Bool, List, Option, ℤ}
use mellivor_kernel.Python.{Text}
use mellivor_kernel.Execution.Request.{ExecutionTarget}

pub data Event : Type 0 where
  execution_started : (request_id : String) (target : ExecutionTarget) (operation : String) → Event
  execution_completed :
      (request_id : String) (target : ExecutionTarget) (operation : String) (time : ℤ) → Event
  execution_failed :
      (request_id : String) (target : ExecutionTarget) (operation : String) (error : Text)
      (stage : Option Text)
      → Event
  authorization_granted :
      (request_id : String) (target : ExecutionTarget) (operation : String)
      (granted_permissions : List String)
      → Event
  authorization_denied :
      (request_id : String) (target : ExecutionTarget) (operation : String) (reason : Text) → Event
  tool_call_requested : (loop_id call_id tool_id : String) (iteration : ℕ) → Event
  tool_call_completed : (loop_id call_id tool_id : String) (success : Bool) → Event
  tool_call_rejected : (loop_id call_id tool_id : String) (reason : Text) → Event
  workflow_started : (workflow_id name : String) → Event
  workflow_completed : (workflow_id name : String) (step_count : ℕ) → Event
  workflow_failed : (workflow_id name : String) (error : Text) (stopped_at : Option String) → Event
  agent_started agent_completed : (agent_id name : String) → Event
  agent_failed : (agent_id name : String) (error : Text) → Event
