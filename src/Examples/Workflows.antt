-- ===== src/Examples/Workflows.antt =====
-- The theorems about workflows and agents, on a workflow of three steps, two of them parallel.
use mellivor_kernel.Prelude.{
  ℕ, suc, ◌≤◌, String, ◌≡◌, ◌≢◌, ◌⊎◌, refl, true, false, none, some, List, [], ◌∷◌, pos, keys, get,
  put, subst, arith, concat, All, total,
}
use mellivor_kernel.Python.{is_blank, is_blank_text, returned, lit}
use mellivor_kernel.Execution.Request.{ExecutionRequest}
use mellivor_kernel.Execution.Result.{ExecutionResult}
use mellivor_kernel.Execution.Engine.Contract.{IsRequest, IsDependableEngine}
use mellivor_kernel.Execution.Engine.Lifecycle.{is_lifecycle}
use mellivor_kernel.Workflow.Definition.{
  WorkflowStep, WorkflowDefinition, Workflow, step_names, distinct, make_definition,
}
use mellivor_kernel.Workflow.Definition.Names.{are_unique}
use mellivor_kernel.Workflow.Options.{
  Datetime, WorkflowContext, a_request, Resolver, callable, WorkflowExecutionOptions, make_options,
  validate_options,
}
use mellivor_kernel.Workflow.Units.{group_into_units, first_stopping_failure}
use mellivor_kernel.Workflow.Units.Partition.{concat-group_into_units}
use mellivor_kernel.Workflow.Pool.{
  begin, yield, take_out, StepAction, drive, submitted, run_parallel_group,
}
use mellivor_kernel.Workflow.Pool.Account.{account, named, drive-account}
use mellivor_kernel.Workflow.Pool.Complete.{run_parallel_group_complete}
use mellivor_kernel.Workflow.Engine.{WorkflowEngine, make_engine, resolve_and_execute_step}
use mellivor_kernel.Workflow.Engine.Loop.{run}
use mellivor_kernel.Workflow.Engine.Run.{Concluded}
use mellivor_kernel.Workflow.Engine.Dependable.{IsDependable, AreResolvers}
use mellivor_kernel.Workflow.Engine.Outcomes.{run_outcome}
use mellivor_kernel.Agents.{Agent, AgentEngine, execute}
use mellivor_kernel.Agents.Mirror.{Reported, execute_mirrors}
use mellivor_kernel.Authorization.Authorizer.{as_authorizer-KeepsApart}
use mellivor_kernel.Examples.Samples.{
  guarded_engine, host_authorization, host-IsWellBehaved, quiet_bus, new_world, read_request,
  echo_request,
}
use mellivor_kernel.Examples.Authorizing.{is_lifecycle-IsForeign}

pub guarded_engine-IsDependable : IsDependableEngine guarded_engine
unfolding is_blank_text is_blank
guarded_engine-IsDependable = record {
  sound = λ request h. record {
    quiet_bus = λ e env. refl;
    quiet_sink = λ o env. refl;
    readable = λ p. refl;
    identified = h.1;
  };
  host = host-IsWellBehaved;
  decides = λ request claims h.
      as_authorizer-KeepsApart host_authorization request (λ e env. refl) (λ a env. refl) h.0
        is_lifecycle claims is_lifecycle-IsForeign;
}

abbrev midday : Datetime
midday = record { instant = 12; is_aware = true; isoformat = "12:00" }

-- A clock that answers the number of calls so far, and two threads at most.
abbrev workflow_engine : WorkflowEngine ℕ
workflow_engine = record {
  execution_engine = guarded_engine;
  memory = some (λ entry now. (returned tt, now));
  event_bus = some quiet_bus;
  max_concurrency = some (pos 2);
  clock = λ now. (returned (record { instant = now; is_aware = true; isoformat = "now" }), suc now);
  schedule = λ pool. begin;
}

workflow_engine-IsDependable : IsDependable workflow_engine
workflow_engine-IsDependable = record {
  aware = λ env. refl;
  execution = guarded_engine-IsDependable;
}

abbrev step : String → ExecutionRequest → WorkflowStep
step name request = record {
  name = name;
  request = request;
  granted_permissions = "filesystem.read" ∷ [];
  continue_on_failure = false;
}

abbrev reading : WorkflowStep
reading = step "reading" read_request

abbrev asking : WorkflowStep
asking = step "asking" echo_request

abbrev reporting : WorkflowStep
reporting = step "reporting" echo_request

abbrev definition : WorkflowDefinition
definition = record { name = "digest"; steps = reading ∷ asking ∷ reporting ∷ []; metadata = [] }

abbrev workflow : Workflow
workflow = record { definition = definition; workflow_id = "w1" }

abbrev repeat_request : Resolver ℕ
repeat_request = callable (λ context request now. (returned (a_request echo_request), suc now))

abbrev options : WorkflowExecutionOptions ℕ
options = record {
  request_resolvers = ("asking", repeat_request) ∷ [];
  parallel_groups = ("reading" ∷ "asking" ∷ []) ∷ [];
  not_before = ("reporting", midday) ∷ [];
}

abbrev no_results : WorkflowContext
no_results = record { step_results = [] }

read_request-IsRequest : IsRequest read_request
unfolding is_blank
read_request-IsRequest = (refl, refl)

echo_request-IsRequest : IsRequest echo_request
unfolding is_blank
echo_request-IsRequest = (refl, refl)

requests-constructed : All (λ s. IsRequest s.request) definition.steps
requests-constructed =
    (read_request-IsRequest, (echo_request-IsRequest, (echo_request-IsRequest, tt)))

definition-accepted : make_definition definition ≡ returned definition
unfolding make_definition is_blank distinct
definition-accepted = refl

options-accepted : make_options options ≡ returned options
unfolding make_options is_blank
options-accepted = refl

options-fit : validate_options definition.steps options ≡ returned tt
unfolding validate_options distinct keys get put
options-fit = refl

engine-accepted : make_engine workflow_engine ≡ returned workflow_engine
unfolding make_engine
engine-accepted = refl

workflow-identified : is_blank workflow.workflow_id ≡ false
unfolding is_blank
workflow-identified = refl

options-AreResolvers : AreResolvers options.request_resolvers
options-AreResolvers = (
  (λ context request r env e.
      subst IsRequest {x = echo_request} {y = r} (cc) echo_request-IsRequest),
  tt,
)

run_outcome_example :
    Concluded workflow_engine workflow engine-accepted
      (λ event env. refl)
      workflow-identified
      definition.steps
      (run workflow_engine workflow no_results (some options) new_world)
run_outcome_example =
    run_outcome workflow_engine workflow engine-accepted workflow_engine-IsDependable
      (λ event env. refl) workflow-identified no_results (some options) new_world
      definition-accepted options-accepted options-fit options-AreResolvers requests-constructed

abbrev agent : Agent
agent = record {
  definition = record { name = "clerk"; workflow = definition; metadata = [] };
  agent_id = "a1";
}

-- Its identifiers are all the same text.
abbrev agent_engine : AgentEngine ℕ
agent_engine = record {
  workflow_engine = workflow_engine;
  memory = none;
  event_bus = some quiet_bus;
  new_id = λ now. ("id", suc now);
}

agent-identified : is_blank agent.agent_id ≡ false
unfolding is_blank
agent-identified = refl

new_id-identified : (env : ℕ) → is_blank (agent_engine.new_id env).0 ≡ false
unfolding is_blank
new_id-identified env = refl

execute_mirrors_example :
    Reported agent_engine agent
      (λ event env. refl)
      agent-identified
      (execute agent_engine agent no_results new_world)
execute_mirrors_example =
    execute_mirrors agent_engine agent (λ event env. refl) agent-identified no_results new_world
      engine-accepted workflow_engine-IsDependable (λ event env. refl) new_id-identified
      definition-accepted requests-constructed

-- The steps of the group, with the options of the run.
abbrev act : StepAction ℕ
act = resolve_and_execute_step workflow_engine no_results options

abbrev group : List WorkflowStep
group = reading ∷ asking ∷ []

few_reading : total (named "reading") group ≤ 1
few_reading = omega arith

drive-account_example :
    account "reading" (drive act 2 workflow_engine.schedule 3 (submitted group new_world))
    ≡ total (named "reading") group
drive-account_example =
    drive-account act 2 workflow_engine.schedule 3 group new_world "reading" few_reading

concat-group_into_units_example :
    concat (group_into_units definition.steps options.parallel_groups) ≡ definition.steps
concat-group_into_units_example = concat-group_into_units definition.steps options.parallel_groups

-- A step that fails: with one thread, and the loop in time, the other one is cancelled.
abbrev broken_result : ExecutionResult
broken_result = record {
  success = false;
  payload = none;
  error_text = some (lit "broken" ∷ []);
  execution_time = pos 0;
  metadata = [];
}

abbrev breaks : StepAction ℕ
breaks s w = (returned broken_result, w)

group_unique : are_unique (step_names group) ≡ true
group_unique = refl

breaks-returned :
    (run_parallel_group breaks 1 (λ pool. yield 0) group new_world).0
    ≡ returned (("reading", broken_result) ∷ [])
unfolding run_parallel_group get put take_out
breaks-returned = refl

run_parallel_group_complete_example :
    (keys (("reading", broken_result) ∷ []) ≡ step_names group)
    ⊎ (first_stopping_failure group (("reading", broken_result) ∷ []) ≢ none)
run_parallel_group_complete_example =
    run_parallel_group_complete breaks 1 (λ pool. yield 0) group new_world
      (("reading", broken_result) ∷ []) group_unique breaks-returned
