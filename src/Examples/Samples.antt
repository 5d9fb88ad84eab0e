-- ===== src/Examples/Samples.antt =====
-- A host with one tool and one provider. Its environment is the clock of the host, and each call
-- takes time.
use mellivor_kernel.Prelude.{
  ℕ, suc, pos, String, ◌≡◌, true, false, none, some, [], ◌∷◌, arith, subst, Bool-cases, inl, inr,
  ◌==◌, get, refl,
}
use mellivor_kernel.Python.{
  returned-injective, lit, returned, raised, error, memory_error, str, is_blank, is_blank_text,
}
use mellivor_kernel.World.{World, EventBus}
use mellivor_kernel.Registry
use mellivor_kernel.Tools.Permissions.{Permission}
use mellivor_kernel.Tools.Base.{BaseTool, ToolResult, IsValidToolResult}
use mellivor_kernel.Tools.Registry.{ToolRegistry, lookup}
use mellivor_kernel.Tools.Pipeline.{Timer}
use mellivor_kernel.Tools.Pipeline.Total.{IsWellBehaved}
use mellivor_kernel.Providers.Registry.{BaseProvider, ProviderRegistry}
use mellivor_kernel.Providers.Registry as Providers
use mellivor_kernel.Execution.Request.{ExecutionRequest, tool, provider}
use mellivor_kernel.Execution.Dispatch.{Dispatcher}
use mellivor_kernel.Execution.Dispatch.Total.{IsWellBehavedProvider, IsWellBehavedHost}
use mellivor_kernel.Execution.Engine.{ExecutionEngine}
use mellivor_kernel.Execution.Engine.Finish.{IsSound}
use mellivor_kernel.Authorization.{AuthorizationEngine}
use mellivor_kernel.Authorization.Authorizer.{as_authorizer}

abbrev pub host_timer : Timer ℕ
host_timer now = (now, suc now)

abbrev pub file_read : Permission
file_read = record { value = "filesystem.read" }

abbrev read_result : ToolResult
read_result = record {
  success = true;
  payload = some (("text", str (lit "hello" ∷ [])) ∷ []);
  error_text = none;
  execution_time = pos 0;
  metadata = [];
}

-- A tool that reads a file.
abbrev pub read_tool : BaseTool ℕ
read_tool = record {
  id = "read_file";
  name = "Read file";
  version = "1.0.0";
  description = "Reads a file.";
  capabilities = [];
  permissions = file_read ∷ [];
  input_schema = ("type", str (lit "object" ∷ [])) ∷ [];
  validate = λ request now. (returned tt, now);
  execute = λ request now. (returned read_result, suc now);
}

abbrev pub echo_provider : BaseProvider ℕ
echo_provider = record {
  name = "echo";
  supports_tool_calls = false;
  invoke = λ request now. (returned request, suc now);
}

abbrev pub host_tools : ToolRegistry ℕ
host_tools = ("read_file", read_tool) ∷ []

abbrev pub host_providers : ProviderRegistry ℕ
host_providers = ("echo", echo_provider) ∷ []

abbrev pub host : Dispatcher ℕ
host = record { tool_registry = host_tools; provider_registry = host_providers; timer = host_timer }

abbrev pub new_world : World ℕ
new_world = record { env = 0; trace = [] }

abbrev pub read_request : ExecutionRequest
read_request = record { target = tool; operation = "read_file"; payload = []; request_id = "r1" }

abbrev pub echo_request : ExecutionRequest
echo_request = record { target = provider; operation = "echo"; payload = []; request_id = "r2" }

read_result-IsValid : IsValidToolResult read_result
read_result-IsValid = ground arith

pub read_tool-IsWellBehaved : IsWellBehaved host_timer read_tool
read_tool-IsWellBehaved = record {
  validate_error = λ p env e h. cc;
  execute_error = λ p env e h. cc;
  execute_result = λ p env r h. subst IsValidToolResult (returned-injective h) read_result-IsValid;
  timer_monotone = λ p env. ground arith;
}

echo_provider-IsWellBehaved : IsWellBehavedProvider host_timer echo_provider
echo_provider-IsWellBehaved = record {
  invoke_error = λ p env e h. cc;
  timer_monotone = λ p env. ground arith;
}

found_tool : (id : String) (t : BaseTool ℕ) → lookup id host_tools ≡ returned t → read_tool ≡ t
unfolding lookup Registry.lookup get
found_tool id t h = elim (Bool-cases ("read_file" == id)) [
  | inl same ↦ ground arith
  | inr other ↦ ground arith
]

found_provider :
    (name : String) (p : BaseProvider ℕ)
    → Providers.get name host_providers ≡ returned p
    → echo_provider ≡ p
unfolding Providers.get Registry.lookup get
found_provider name p h = elim (Bool-cases ("echo" == name)) [
  | inl same ↦ ground arith
  | inr other ↦ ground arith
]

pub host-IsWellBehaved : IsWellBehavedHost host
host-IsWellBehaved = record {
  tools = λ id t found.
      subst (IsWellBehaved host_timer) (found_tool id t found) read_tool-IsWellBehaved;
  providers = λ name p found.
      subst (IsWellBehavedProvider host_timer) (found_provider name p found)
        echo_provider-IsWellBehaved;
}

-- A bus that keeps silent and takes time.
abbrev pub quiet_bus : EventBus ℕ
quiet_bus event now = (returned tt, suc now)

abbrev pub host_authorization : AuthorizationEngine ℕ
host_authorization = record {
  tool_registry = host_tools;
  event_bus = some quiet_bus;
  audit_sink = some (λ entry now. (returned tt, now));
}

-- An engine with every collaborator; its memory store always raises.
abbrev pub guarded_engine : ExecutionEngine ℕ
guarded_engine = record {
  dispatcher = host;
  authorizer = some (as_authorizer host_authorization);
  event_bus = some quiet_bus;
  memory = some (λ entry now. (raised (error memory_error []), now));
  observability = some (λ observation now. (returned tt, now));
  render = λ p. lit "{...}" ∷ [];
}

-- The same with no authorizer.
abbrev pub open_engine : ExecutionEngine ℕ
open_engine = record guarded_engine { authorizer = none }

pub guarded_engine-IsSound : IsSound guarded_engine read_request
unfolding is_blank_text is_blank
guarded_engine-IsSound = record {
  quiet_bus = λ e env. refl;
  quiet_sink = λ o env. refl;
  readable = λ p. refl;
  identified = refl;
}

pub open_engine-IsSound : IsSound open_engine read_request
unfolding is_blank_text is_blank
open_engine-IsSound = record {
  quiet_bus = λ e env. refl;
  quiet_sink = λ o env. refl;
  readable = λ p. refl;
  identified = refl;
}

-- The same with an authorizer that denies everything, for no reason.
abbrev pub denying_engine : ExecutionEngine ℕ
denying_engine = record guarded_engine {
  authorizer = some (λ request claims w. (returned (record { granted = false; reason = none }), w));
}

pub denying_engine-IsSound : IsSound denying_engine read_request
unfolding is_blank_text is_blank
denying_engine-IsSound = record {
  quiet_bus = λ e env. refl;
  quiet_sink = λ o env. refl;
  readable = λ p. refl;
  identified = refl;
}
