-- ===== src/Workflow/Engine/Steps.antt =====
-- Steps and units that come to an end, and what they hand back.
use mellivor_kernel.Prelude.{
  ℕ, zero, suc, pos, negsuc, ◌≡◌, ◌≢◌, ◌⊎◌, refl, subst, true, not, ◌&&◌, none, List, [], ◌∷◌, ◌*◌,
  arith, Bool-cases, Option-cases, inl, inr, Dict, get, keys, length, All,
}
use mellivor_kernel.Python.{Result, returned, raised, Returns, Returns-witness, pure, resume}
use mellivor_kernel.World.{World}
use mellivor_kernel.Execution.Result.{ExecutionResult}
use mellivor_kernel.Workflow.Definition.{WorkflowStep, step_names}
use mellivor_kernel.Workflow.Definition.Names.{are_unique}
use mellivor_kernel.Workflow.Options.{WorkflowContext, WorkflowExecutionOptions}
use mellivor_kernel.Workflow.Units.{is_explicitly_parallel, first_stopping_failure}
use mellivor_kernel.Workflow.Pool.{
  Pool, Move, StepAction, collect, submitted, raised_in_order, group_outcome, run_parallel_group,
}
use mellivor_kernel.Workflow.Pool.Moves.{HasMoves, drive-keeps}
use mellivor_kernel.Workflow.Pool.Stops.{All-append, All-take_out}
use mellivor_kernel.Workflow.Pool.Complete.{run_parallel_group_complete, run_parallel_group_unique}
use mellivor_kernel.Workflow.Engine.{
  WorkflowEngine, make_engine, resolve_and_execute_step, workers_for, run_group, run_unit,
}

-- A step whose action returns in every world.
abbrev pub Ends : {E : Type 0} → StepAction E → WorkflowStep → Type 0
Ends {E} act s = (w : World E) → Returns (λ r. Unit) (act s w).0

module _ {E : Type 0} (act : StepAction E) (max_workers : ℕ) where
  abbrev Returned : WorkflowStep × Result ExecutionResult → Type 0
  Returned f = Returns (λ r. Unit) f.1

  -- No step has raised, and none will.
  record IsQuiet (pool : Pool E) : Type 0 where
    waiting_end : All (Ends act) pool.waiting
    running_end : All (Ends act) pool.running
    finished_returned : All Returned pool.finished
    none_raised : pool.raised_by ≡ []

  collect-IsQuiet :
      (step : WorkflowStep) (outcome : Result ExecutionResult) (pool : Pool E)
      → Returns (λ r. Unit) outcome
      → IsQuiet pool
      → IsQuiet (collect act max_workers step outcome pool)
  unfolding collect
  collect-IsQuiet step (raised e) pool r h = absurd r
  collect-IsQuiet step (returned result) pool r h =
      elim (Bool-cases
        (not pool.is_stopped && (not result.success && not step.continue_on_failure))) [
          | inl stops ↦ rw stops (record {
            waiting_end = tt;
            running_end = h.running_end;
            finished_returned = h.finished_returned;
            none_raised = h.none_raised;
          })
          | inr goes_on ↦ rw goes_on (record {
            waiting_end = h.waiting_end;
            running_end = h.running_end;
            finished_returned = h.finished_returned;
            none_raised = h.none_raised;
          })
        ]

  keeps_IsQuiet : HasMoves act max_workers (λ pool pool'. IsQuiet pool → IsQuiet pool')
  keeps_IsQuiet = record {
    begins = λ step steps pool e free h.
        let (ends, others) = subst (All (Ends act)) e h.waiting_end in
        record {
          waiting_end = others;
          running_end = All-append (Ends act) pool.running (step ∷ []) h.running_end (ends, tt);
          finished_returned = h.finished_returned;
          none_raised = h.none_raised;
        };
    ends = λ i step others pool e h.
        let (ends, rest) = All-take_out (Ends act) i pool.running step others e h.running_end in
        record {
          waiting_end = h.waiting_end;
          running_end = rest;
          finished_returned =
              All-append Returned pool.finished ((step, (act step pool.world).0) ∷ [])
                h.finished_returned (ends pool.world, tt);
          none_raised = h.none_raised;
        };
    yields = λ i step outcome others pool e h.
        let (r, rest) =
          All-take_out Returned i pool.finished (step, outcome) others e h.finished_returned in
        collect-IsQuiet step outcome (record pool { finished = others }) r
          (record {
            waiting_end = h.waiting_end;
            running_end = h.running_end;
            finished_returned = rest;
            none_raised = h.none_raised;
          });
  }

raised_in_order-nil : (group : List WorkflowStep) → raised_in_order group [] ≡ []
unfolding raised_in_order get
raised_in_order-nil [] = refl
raised_in_order-nil (s ∷ group) = raised_in_order-nil group

-- A group of steps that end, with at least one worker, hands results back.
run_parallel_group-Returns :
    {E : Type 0} (act : StepAction E) (workers : ℕ) (schedule : Pool E → Move)
    (group : List WorkflowStep) (w : World E)
    → All (Ends act) group
    → Returns (λ results. Unit) (run_parallel_group act (suc workers) schedule group w).0
unfolding run_parallel_group group_outcome
run_parallel_group-Returns act workers schedule group w h =
    let quiet =
      drive-keeps act (suc workers) (IsQuiet act (suc workers)) (keeps_IsQuiet act (suc workers))
        schedule (3 * length group) (submitted group w)
        (record {
          waiting_end = h;
          running_end = tt;
          finished_returned = tt;
          none_raised = refl;
        }) in
    rw (quiet.none_raised, raised_in_order-nil group) tt

-- What a unit hands back: a result for each of its steps, in the declared order, or a result that
-- stops the workflow.
pub record Answers (unit : List WorkflowStep) (results : Dict ExecutionResult) : Type 0 where
  pub full : (keys results ≡ step_names unit) ⊎ (first_stopping_failure unit results ≢ none)
  pub unique : are_unique (keys results) ≡ true

module _ {E : Type 0} (engine : WorkflowEngine E) (options : WorkflowExecutionOptions E)
    (context : WorkflowContext) (accepted : make_engine engine ≡ returned engine) where
  workers_positive :
      (s : WorkflowStep) (group : List WorkflowStep)
      → (k : ℕ) × (workers_for engine (s ∷ group) ≡ suc k)
  unfolding make_engine
  workers_positive s group = elim (Option-cases engine.max_concurrency) [
    | inl unbounded ↦ (length group, rw unbounded refl)
    | inr (pos (suc n), e) ↦ (n, rw e refl)
    | inr (pos zero, e) ↦ absurd (ground arith)
    | inr (negsuc n, e) ↦ absurd (ground arith)
  ]

  abbrev act : StepAction E
  act = resolve_and_execute_step engine context options

  run_group-Answers :
      (s : WorkflowStep) (rest : List WorkflowStep) (w : World E)
      → are_unique (step_names (s ∷ rest)) ≡ true
      → All (Ends act) (s ∷ rest)
      → Returns (Answers (s ∷ rest)) (run_group engine (s ∷ rest) context options w).0
  run_group-Answers s rest w unique h =
      let group = s ∷ rest in
      let (k, e) = workers_positive s rest in
      let (results, value, done) =
        Returns-witness (run_parallel_group act (suc k) engine.schedule group w).0
          (run_parallel_group-Returns act k engine.schedule group w h) in
      rw (e, value)
        (record {
          full =
              run_parallel_group_complete act (suc k) engine.schedule group w results unique value;
          unique =
              run_parallel_group_unique act (suc k) engine.schedule group w results unique value;
        })

  inline-Answers :
      (s : WorkflowStep) (r : Result ExecutionResult) (w : World E)
      → Returns (λ x. Unit) r
      → Returns (Answers (s ∷ [])) (resume r (λ result. pure ((s.name, result) ∷ [])) w).0
  unfolding keys
  inline-Answers s (raised e) w h = absurd h
  inline-Answers s (returned r) w h = record { full = inl refl; unique = refl }

  -- A unit whose steps end hands an answer back.
  pub run_unit-Answers :
      (unit : List WorkflowStep) (w : World E)
      → unit ≢ []
      → are_unique (step_names unit) ≡ true
      → All (Ends act) unit
      → Returns (Answers unit) (run_unit engine unit context options w).0
  unfolding run_unit
  run_unit-Answers [] w some_step unique h = absurd (some_step refl)
  run_unit-Answers (s ∷ []) w some_step unique h =
      elim (Bool-cases (is_explicitly_parallel s.name options.parallel_groups)) [
        | inl grouped ↦ rw grouped (run_group-Answers s [] w unique h)
        | inr alone ↦ rw alone (inline-Answers s (act s w).0 (act s w).1 (h.0 w))
      ]
  run_unit-Answers (s ∷ t ∷ unit) w some_step unique h = run_group-Answers s (t ∷ unit) w unique h
