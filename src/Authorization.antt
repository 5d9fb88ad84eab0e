-- ===== src/Authorization.antt =====
-- src/mellivor_kernel/authorization: request.py, result.py, resolver.py and engine.py
pub mod Decision
pub mod Check
pub mod Authorizer
use mellivor_kernel.Prelude.{
  String, Bool, true, false, not, ◌&&◌, Option, none, some, List, [], ◌∷◌, ◌++◌, is_some, is_nil,
  if◌then◌else◌,
}
use mellivor_kernel.Python.{
  Text, lit, text_or, has_text, is_blank, join_comma, sorted, Exception, Result, returned, raised,
  error, authorization_error, is_tool_validation_error, is_tool_registration_error, Action, pure,
  raise, lift, ◌>>=◌, ◌>>◌,
}
use mellivor_kernel.World.{
  World, Call, EventBus, notify, publish, AuditRecord, audited, SecurityDecision,
}
use mellivor_kernel.Events.Event.{Event, authorization_granted, authorization_denied}
use mellivor_kernel.Execution.Request.{ExecutionTarget, ExecutionRequest, target_value, is_tool}
use mellivor_kernel.Tools.Permissions.{
  Permission, permission_values, missing_permissions, make_permissions,
}
use mellivor_kernel.Tools.Base.{BaseTool}
use mellivor_kernel.Tools.Registry.{ToolRegistry, lookup}

-- PermissionSet is the set that it wraps.
abbrev pub PermissionSet : Type 0
PermissionSet = List Permission

pub record AuthorizationRequest : Type 0 where
  pub target : ExecutionTarget
  pub operation : String
  pub granted_permissions : PermissionSet

-- AuthorizationRequest.__post_init__
unfoldable pub make_authorization_request : AuthorizationRequest → Result AuthorizationRequest
make_authorization_request r =
    if is_blank r.operation
    then raised
        (error authorization_error (lit "AuthorizationRequest.operation must not be blank." ∷ []))
    else returned r

pub record AuthorizationResult : Type 0 where
  pub granted : Bool
  pub granted_permissions : PermissionSet
  pub reason : Option Text

-- AuthorizationResult.__post_init__
unfoldable pub make_authorization_result : AuthorizationResult → Result AuthorizationResult
make_authorization_result r =
    if not r.granted && not (has_text r.reason)
    then raised (
        error authorization_error
          (lit "A denied AuthorizationResult must include a non-empty `reason`." ∷ []))
    else if r.granted && is_some r.reason
    then raised (
        error authorization_error (lit "A granted AuthorizationResult must not set `reason`." ∷ []))
    else if not r.granted && not (is_nil r.granted_permissions)
    then raised (
        error authorization_error
          (lit "A denied AuthorizationResult must not set `granted_permissions`." ∷ []))
    else returned r

-- PermissionResolver.resolve_required_permissions
unfoldable pub resolve_required_permissions :
    {E : Type 0} → ToolRegistry E → ExecutionTarget → String → Result PermissionSet
resolve_required_permissions tools target operation =
    if not (is_tool target) then returned [] else elim (lookup operation tools) [
      | returned t ↦ returned t.permissions
      | raised e ↦ if is_tool_registration_error e.class then returned [] else raised e
    ]

abbrev pub denied : Text → AuthorizationResult
denied reason = record { granted = false; granted_permissions = []; reason = some reason }

abbrev pub granted_with : PermissionSet → AuthorizationResult
granted_with permissions = record {
  granted = true;
  granted_permissions = permissions;
  reason = none;
}

-- The decision of `authorize`, by the missing permissions.
unfoldable pub decide_missing : AuthorizationRequest → List Permission → Result AuthorizationResult
decide_missing request [] = make_authorization_result (granted_with request.granted_permissions)
decide_missing request (p ∷ ps) = make_authorization_result (
    denied (
      lit "Missing required permissions: "
      ∷ (join_comma (sorted (permission_values (p ∷ ps))) ++ lit "." ∷ [])))

-- AuthorizationEngine: its collaborators.
pub record AuthorizationEngine (E : Type 0) : Type 0 where
  pub tool_registry : ToolRegistry E
  pub event_bus : Option (EventBus E)
  pub audit_sink : Option (AuditRecord → Call E Unit)

module _ {E : Type 0} (engine : AuthorizationEngine E) where
  -- AuthorizationEngine.authorize
  unfoldable pub authorize : AuthorizationRequest → Result AuthorizationResult
  authorize request =
      elim (resolve_required_permissions engine.tool_registry request.target request.operation) [
        | raised e ↦ raised e
        | returned required ↦
            decide_missing request (missing_permissions required request.granted_permissions)
      ]

  abbrev pub audit_record : ExecutionRequest → AuthorizationResult → AuditRecord
  audit_record request result = record {
    event = if result.granted then "authorization.granted" else "authorization.denied";
    subject = request.request_id;
    action = lit (target_value request.target) ∷ lit ":" ∷ lit request.operation ∷ [];
    decision = record { allowed = result.granted; reason = text_or result.reason [] };
  }

  -- AuthorizationEngine._audit
  unfoldable pub audit : ExecutionRequest → AuthorizationResult → Action (World E) Unit
  audit request result = notify engine.audit_sink audited (audit_record request result)

  -- The event that reports a decision.
  abbrev pub decision_event : ExecutionRequest → AuthorizationResult → Event
  decision_event request result =
      if result.granted
      then authorization_granted request.request_id request.target request.operation
          (permission_values result.granted_permissions)
      else authorization_denied request.request_id request.target request.operation
          (text_or result.reason [])

  -- The part behind each decision of `check`: publish it, record it, return it.
  unfoldable pub conclude :
      ExecutionRequest → AuthorizationResult → Action (World E) AuthorizationResult
  unfolding audit
  conclude request result = do
    publish engine.event_bus (decision_event request result)
    audit request result
    pure result

  -- The code of `check` behind the construction of the claimed permissions.
  check_claimed : ExecutionRequest → Result (List Permission) → Action (World E) AuthorizationResult
  check_claimed request (raised e) =
      if is_tool_validation_error e.class
      then (do
        result ← lift (make_authorization_result (denied e.message))
        conclude request result)
      else raise e
  check_claimed request (returned claimed) = do
    authorization_request ← lift (
        make_authorization_request (record {
          target = request.target;
          operation = request.operation;
          granted_permissions = claimed;
        }))
    result ← lift (authorize authorization_request)
    conclude request result

  -- AuthorizationEngine.check
  unfoldable pub check : ExecutionRequest → List String → Action (World E) AuthorizationResult
  unfolding check_claimed
  check request granted_permissions = check_claimed request (make_permissions granted_permissions)
