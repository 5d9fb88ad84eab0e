-- ===== src/Examples/Conversations.antt =====
-- The theorems about the tool loop, on a provider that asks for a file before it answers.
use mellivor_kernel.Prelude.{
  ℕ, suc, ◌≤◌, String, ◌≡◌, refl, sym, subst, true, false, not, Bool-cases, none, some, List, [],
  ◌∷◌, pos, get, arith, inl, inr, ltb, ◌==◌, if◌then◌else◌,
}
use mellivor_kernel.Python.{
  Payload, str, sequence, tool_call, no_fields, no_elements, cons_element, is_blank, is_blank_text,
  returned, returned-injective, Returns, lit,
}
use mellivor_kernel.Registry
use mellivor_kernel.Tools.Registry as Tools
use mellivor_kernel.Providers.Registry.{BaseProvider, ProviderRegistry}
use mellivor_kernel.Providers.Registry as Providers
use mellivor_kernel.Providers.ToolCalling.{ToolSpec, ToolCall, make_spec}
use mellivor_kernel.Execution.Dispatch.{Dispatcher}
use mellivor_kernel.Execution.Dispatch.Total.{IsWellBehavedProvider, IsWellBehavedHost}
use mellivor_kernel.Execution.Dispatch.Provided.{Provides}
use mellivor_kernel.Execution.Engine.{ExecutionEngine}
use mellivor_kernel.Execution.Engine.Contract.{IsDependableEngine}
use mellivor_kernel.Execution.Engine.Lifecycle.{is_lifecycle}
use mellivor_kernel.Execution.Engine.Closed.{Grew}
use mellivor_kernel.Execution.Conversation.{ToolLoopOptions, make_loop_options}
use mellivor_kernel.Execution.ToolLoop.{
  ToolCallLoop, dumped, describe, require_tool_calls, handle, calls_of,
}
use mellivor_kernel.Execution.ToolLoop.Rounds.{run}
use mellivor_kernel.Execution.ToolLoop.Contract.{IsDependableLoop, AreCalls, IsCall}
use mellivor_kernel.Execution.ToolLoop.Outcome.{IsLoopOutcome}
use mellivor_kernel.Execution.ToolLoop.Runs.{run_within_budget}
use mellivor_kernel.Execution.ToolLoop.Refusal.{Unexecuted, is_work, handle_refused}
use mellivor_kernel.Authorization.Authorizer.{as_authorizer-KeepsApart}
use mellivor_kernel.Examples.Samples.{
  guarded_engine, host, host_timer, host_tools, host_authorization, host-IsWellBehaved, quiet_bus,
  new_world, read_tool,
}
use mellivor_kernel.Examples.Authorizing.{is_lifecycle-IsForeign}

abbrev asking : Payload
asking =
    ("text", str (lit "One moment." ∷ []))
    ∷ ("tool_calls", sequence (cons_element (tool_call "c1" "read_file" no_fields) no_elements))
    ∷ []

abbrev answering : Payload
answering = ("text", str (lit "It says hello." ∷ [])) ∷ []

-- Early in the life of the host it asks for the file, and later it answers.
abbrev chat_provider : BaseProvider ℕ
chat_provider = record {
  name = "chat";
  supports_tool_calls = true;
  invoke = λ request now. (returned (if ltb now 12 then asking else answering), suc now);
}

abbrev chat_providers : ProviderRegistry ℕ
chat_providers = ("chat", chat_provider) ∷ []

abbrev chat_host : Dispatcher ℕ
chat_host = record host { provider_registry = chat_providers }

abbrev chat_engine : ExecutionEngine ℕ
chat_engine = record guarded_engine { dispatcher = chat_host }

found_provider :
    (name : String) (p : BaseProvider ℕ)
    → Providers.get name chat_providers ≡ returned p
    → chat_provider ≡ p
unfolding Providers.get Registry.lookup get
found_provider name p h = elim (Bool-cases ("chat" == name)) [
  | inl same ↦ ground arith
  | inr other ↦ ground arith
]

chat_provider-IsWellBehaved : IsWellBehavedProvider host_timer chat_provider
chat_provider-IsWellBehaved = record {
  invoke_error = λ p env e h. cc;
  timer_monotone = λ p env. ground arith;
}

chat_host-IsWellBehaved : IsWellBehavedHost chat_host
chat_host-IsWellBehaved = record {
  tools = host-IsWellBehaved.tools;
  providers = λ name p found.
      subst (IsWellBehavedProvider host_timer) (found_provider name p found)
        chat_provider-IsWellBehaved;
}

chat_engine-IsDependable : IsDependableEngine chat_engine
unfolding is_blank_text is_blank
chat_engine-IsDependable = record {
  sound = λ request h. record {
    quiet_bus = λ e env. refl;
    quiet_sink = λ o env. refl;
    readable = λ p. refl;
    identified = h.1;
  };
  host = chat_host-IsWellBehaved;
  decides = λ request claims h.
      as_authorizer-KeepsApart host_authorization request (λ e env. refl) (λ a env. refl) h.0
        is_lifecycle claims is_lifecycle-IsForeign;
}

-- Its identifiers are all the same text.
abbrev loop : ToolCallLoop ℕ
loop = record {
  engine = chat_engine;
  tools = host_tools;
  providers = chat_providers;
  event_bus = some quiet_bus;
  new_id = λ now. ("id", suc now);
  dumps = λ p. dumped (lit "{...}" ∷ []);
  to_str = λ p. lit "{...}" ∷ [];
}

chat_answers : (now : ℕ) → AreCalls (if ltb now 12 then asking else answering)
unfolding calls_of get is_blank
chat_answers now = elim (Bool-cases (ltb now 12)) [
  | inl early ↦ rw early ((refl, refl), tt)
  | inr late ↦ rw late tt
]

chat-Provides : Provides AreCalls chat_host
chat-Provides name p sent answer env found h =
    let same = found_provider name p found in
    let value : (chat_provider.invoke sent env).0 ≡ returned answer =
      subst (λ (q : BaseProvider ℕ). (q.invoke sent env).0 ≡ returned answer) (sym same) h in
    subst AreCalls (returned-injective value) (chat_answers env)

loop-IsDependable : IsDependableLoop loop
unfolding is_blank
loop-IsDependable = record {
  execution = chat_engine-IsDependable;
  quiet = λ e env. refl;
  identified = λ env. refl;
  rendered = λ p. tt;
  constructed = chat-Provides;
}

-- The hook refuses nothing but the call "c9".
abbrev options : ToolLoopOptions ℕ
options = record {
  max_iterations = pos 3;
  system = none;
  max_tokens = none;
  before_tool_call =
      λ c now. (returned (record { allowed = not (c.id == "c9"); reason = none }), now);
}

options-accepted : make_loop_options options ≡ returned options
unfolding make_loop_options
options-accepted = refl

abbrev specs : List ToolSpec
specs =
    record {
      name = "read_file";
      description = "Reads a file.";
      input_schema = read_tool.input_schema;
    }
    ∷ []

described : describe loop ("read_file" ∷ []) ≡ returned specs
unfolding describe Tools.exists Registry.exists get Tools.lookup Registry.lookup make_spec is_blank
described = refl

capable : require_tool_calls loop "chat" ≡ returned tt
unfolding require_tool_calls Providers.is_registered Registry.exists get Providers.get
    Registry.lookup
capable = refl

chat-named : is_blank "chat" ≡ false
unfolding is_blank
chat-named = refl

abbrev question : Payload
question = ("role", str (lit "user" ∷ [])) ∷ []

run_within_budget_example :
    Returns
      (λ r. IsLoopOutcome ("read_file" ∷ []) (question ∷ []) 3 r × (1 ≤ r.iterations))
      (run loop "chat"
        (question ∷ [])
        ("read_file" ∷ [])
        options
        ("filesystem.read" ∷ [])
        new_world).0
run_within_budget_example =
    run_within_budget loop "chat" (question ∷ []) ("read_file" ∷ []) options
      ("filesystem.read" ∷ []) specs new_world loop-IsDependable (λ c env. tt) options-accepted
      chat-named (λ e. absurd (cc)) (λ e. absurd (cc)) described capable

abbrev refused_call : ToolCall
refused_call = record { id = "c9"; name = "read_file"; arguments = [] }

refused_call-IsCall : IsCall refused_call
unfolding is_blank
refused_call-IsCall = (refl, refl)

handle_refused_example :
    Returns
      (λ h.
        Unexecuted loop (λ e env. refl) "l1" refused_call h
        × Grew is_work []
            (handle loop "l1" ("read_file" ∷ []) options [] 1 refused_call new_world).1.trace)
      (handle loop "l1" ("read_file" ∷ []) options [] 1 refused_call new_world).0
handle_refused_example =
    handle_refused loop (λ e env. refl) "l1" ("read_file" ∷ []) options [] 1 refused_call new_world
      refused_call-IsCall (inr refl)
