-- ===== src/Agents/Mirror.antt =====
-- An agent run, beside the run of its workflow.
use mellivor_kernel.Prelude.{
  ◌≡◌, refl, ap, ◌∙◌, subst, keys, false, not, Bool-cases, Option, none, some, List, inl, inr, All,
  arith,
}
use mellivor_kernel.Python.{
  is_blank, is_blank_text, has_text, Result, returned, Returns, Returns-witness, pure, ◌>>◌,
}
use mellivor_kernel.World.{
  World, Effect, Call, NeverRaises, publish, published, remembered, note, notify_lem, fresh,
}
use mellivor_kernel.Events.Event.{agent_started}
use mellivor_kernel.Memory.Entry.{MemoryEntry, make_entry}
use mellivor_kernel.Workflow.Definition.{WorkflowResult, distinct, make_definition}
use mellivor_kernel.Workflow.Options.{WorkflowContext, make_options, validate_options}
use mellivor_kernel.Workflow.Engine.{make_engine}
use mellivor_kernel.Workflow.Engine.Loop.{run}
use mellivor_kernel.Workflow.Engine.Outcome.{IsOutcome}
use mellivor_kernel.Execution.Engine.Contract.{IsRequest}
use mellivor_kernel.Workflow.Engine.Dependable.{IsDependable}
use mellivor_kernel.Workflow.Engine.Outcomes.{run_outcome}
use mellivor_kernel.Agents.{
  Agent, AgentResult, AgentEngine, make_agent_result, mirrored, agent_event, agent_entry,
  remember_agent, report, workflow_of, execute,
}

module _ {E : Type 0} (engine : AgentEngine E) (agent : Agent)
    (quiet : NeverRaises engine.event_bus) (identified : is_blank agent.agent_id ≡ false) where
  -- What the end of an agent run adds to a trace.
  abbrev pub agent_closing : AgentResult → List Effect → List Effect
  agent_closing r trace =
      note engine.memory (remembered (agent_entry agent r))
        (note engine.event_bus (published (agent_event agent r)) trace)

  entry_accepted :
      (r : AgentResult) → make_entry (agent_entry agent r) ≡ returned (agent_entry agent r)
  unfolding make_entry is_blank_text is_blank
  entry_accepted r = ground arith

  result_accepted :
      (r : WorkflowResult) → make_agent_result (mirrored agent r) ≡ returned (mirrored agent r)
  unfolding make_agent_result has_text is_blank_text is_blank
  result_accepted r = elim (Bool-cases r.success) [
    | inl fine ↦ rw fine refl
    | inr failed ↦ rw failed refl
  ]

  remember_agent_lem :
      (store : Option (MemoryEntry → Call E Unit)) (r : AgentResult) (w : World E)
      → ((remember_agent engine store agent r w).0 ≡ returned tt)
        × ((remember_agent engine store agent r w).1.trace
            ≡ note store (remembered (agent_entry agent r)) w.trace)
  unfolding remember_agent
  remember_agent_lem none r w = (refl, refl)
  remember_agent_lem (some add) r w = rw (entry_accepted r) (refl, refl)

  report_lem :
      (wr : WorkflowResult) (w : World E)
      → ((report engine agent wr w).0 ≡ returned (mirrored agent wr))
        × ((report engine agent wr w).1.trace ≡ agent_closing (mirrored agent wr) w.trace)
  unfolding report
  report_lem wr w =
      let r = mirrored agent wr in
      let event = agent_event agent r in
      let (sent, trace) = notify_lem engine.event_bus published event w quiet in
      let w' = (publish engine.event_bus event w).1 in
      let (kept, trace') = remember_agent_lem engine.memory r w' in
      let rest =
        publish engine.event_bus event >> (remember_agent engine engine.memory agent r >> pure r) in
      rw (result_accepted wr, sent, kept)
        (refl, trace' ∙ ap (note engine.memory (remembered (agent_entry agent r))) trace)

  -- The result says what its workflow's says, and has an error text exactly if it failed.
  abbrev pub Mirrors : AgentResult → Type 0
  Mirrors r = (r.success ≡ r.workflow_result.success) × (has_text r.error_text ≡ not r.success)

  mirrored-Mirrors : (wr : WorkflowResult) → Mirrors (mirrored agent wr)
  unfolding has_text is_blank_text is_blank
  mirrored-Mirrors wr = elim (Bool-cases wr.success) [
    | inl fine ↦ rw fine (refl, refl)
    | inr failed ↦ rw failed (refl, refl)
  ]

  -- An agent run in which the workflow run returns an outcome.
  abbrev pub Reported : Result AgentResult × World E → Type 0
  Reported p =
      Returns
        (λ r.
          IsOutcome agent.definition.workflow.steps r.workflow_result
          × Mirrors r
          × ((middle : List Effect) × (p.1.trace ≡ agent_closing r middle)))
        p.0

  mirrored-IsOutcome :
      (wr : WorkflowResult)
      → IsOutcome agent.definition.workflow.steps wr
      → IsOutcome agent.definition.workflow.steps (mirrored agent wr).workflow_result
  mirrored-IsOutcome wr h =
      let same : wr ≡ (mirrored agent wr).workflow_result = ground arith in
      subst (IsOutcome agent.definition.workflow.steps) same h

  report-Reported :
      (wr : WorkflowResult) (w : World E)
      → IsOutcome agent.definition.workflow.steps wr
      → Reported (report engine agent wr w)
  report-Reported wr w h =
      let (value, trace) = report_lem wr w in
      rw value (mirrored-IsOutcome wr h, mirrored-Mirrors wr, (w.trace, trace))

  -- An agent run whose workflow is well formed returns, for collaborators that keep their contracts:
  -- its result carries an outcome of the workflow and says the same, with an error text exactly if it
  -- failed; and its last calls are the event and the memory entry that report the result, where there
  -- is a bus or a store.
  pub execute_mirrors :
      (context : WorkflowContext) (w : World E)
      → make_engine engine.workflow_engine ≡ returned engine.workflow_engine
      → IsDependable engine.workflow_engine
      → NeverRaises engine.workflow_engine.event_bus
      → ((env : E) → is_blank (engine.new_id env).0 ≡ false)
      → make_definition agent.definition.workflow ≡ returned agent.definition.workflow
      → All (λ s. IsRequest s.request) agent.definition.workflow.steps
      → Reported (execute engine agent context w)
  unfolding execute make_options validate_options distinct keys
  execute_mirrors context w accepted dependable workflow_quiet fresh_identified defined requests =
      let (sent, _) =
        notify_lem engine.event_bus published (agent_started agent.agent_id agent.definition.name) w
          quiet in
      let w' =
        (publish engine.event_bus (agent_started agent.agent_id agent.definition.name) w).1 in
      let workflow = workflow_of engine agent (engine.new_id w'.env).0 in
      let w'' = (fresh engine.new_id w').1 in
      let (wr, value, outcome) =
        Returns-witness (run engine.workflow_engine workflow context none w'').0 (
          run_outcome engine.workflow_engine workflow accepted dependable workflow_quiet
            (fresh_identified w'.env) context none w'' defined refl refl tt requests) in
      rw (sent, value)
        (report-Reported wr (run engine.workflow_engine workflow context none w'').1 outcome.0)
