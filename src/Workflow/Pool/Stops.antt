-- ===== src/Workflow/Pool/Stops.antt =====
-- Why a step of a parallel group has no result: the group was stopped, or a step raised.
use mellivor_kernel.Prelude.{
  some-injective, ℕ, zero, suc, ◌≤◌, String, ◌≡◌, ◌⊎◌, refl, true, false, not, ◌&&◌, none, some,
  List, [], ◌∷◌, ◌++◌, arith, Bool-cases, Option-cases, inl, inr, Dict, get, put, get-put, subst,
  eq_iff, eq_refl, total, All,
}
use mellivor_kernel.Python.{Result, returned, raised}
use mellivor_kernel.World.{World}
use mellivor_kernel.Execution.Result.{ExecutionResult}
use mellivor_kernel.Workflow.Definition.{WorkflowStep}
use mellivor_kernel.Workflow.Units.{is_stopping}
use mellivor_kernel.Workflow.Pool.{Pool, Move, take_out, StepAction, collect, drive, submitted}
use mellivor_kernel.Workflow.Pool.Moves.{total-take_out, HasMoves, drive-keeps}
use mellivor_kernel.Workflow.Pool.Account.{
  named, ended_named, account, keeps_account, account-submitted,
}

abbrev pub Member : WorkflowStep → List WorkflowStep → Type 0
Member s [] = ⊥
Member s (t ∷ ts) = (s ≡ t) ⊎ Member s ts

pub All-append :
    {A : Type 0} (P : A → Type 0) (xs ys : List A) → All P xs → All P ys → All P (xs ++ ys)
All-append P [] ys hx hy = hy
All-append P (x ∷ xs) ys hx hy = (hx.0, All-append P xs ys hx.1 hy)

pub All-take_out :
    {A : Type 0} (P : A → Type 0) (i : ℕ) (xs : List A) (x : A) (ys : List A)
    → take_out i xs ≡ some (x, ys)
    → All P xs
    → P x × All P ys
unfolding take_out
All-take_out P i [] x ys e h = absurd (cc)
All-take_out P zero (x' ∷ xs) x ys e h = subst (λ p. P p.0 × All P p.1) (some-injective e) h
All-take_out {A} P (suc i) (x' ∷ xs) x ys e h = elim (Option-cases (take_out i xs)) [
  | inl nothing ↦ absurd (ground arith)
  | inr ((y, zs), e') ↦
      let (py, pzs) = All-take_out P i xs y zs e' h.1 in
      let same : ◌≡◌ {A = A × List A} (y, x' ∷ zs) (x, ys) = ground arith in
      subst (λ p. P p.0 × All P p.1) same (py, (h.0, pzs))
]

-- A collected result that stops the workflow.
abbrev pub HasStopping : List WorkflowStep → Dict ExecutionResult → Type 0
HasStopping group completed =
    (s : WorkflowStep) × Member s group
    × ((r : ExecutionResult) × (get s.name completed ≡ some r) × (is_stopping s r ≡ true))

HasStopping-put :
    (group : List WorkflowStep) (k : String) (r : ExecutionResult)
    (completed : Dict ExecutionResult)
    → get k completed ≡ none
    → HasStopping group completed
    → HasStopping group (put k r completed)
HasStopping-put group k r completed absent (s, member, (r', found, stops)) =
    (s, member, (r', ground (arith, get-put k s.name r completed, eq_iff k s.name), stops))

module _ {E : Type 0} (group : List WorkflowStep) where
  pub record IsTracked (pool : Pool E) : Type 0 where
    pub waiting_from : All (λ s. Member s group) pool.waiting
    pub running_from : All (λ s. Member s group) pool.running
    pub finished_from : All (λ f. Member f.0 group) pool.finished
    pub unstopped : pool.is_stopped ≡ false → pool.cancelled ≡ []
    pub stopped : pool.is_stopped ≡ true → HasStopping group pool.completed

module _ {E : Type 0} (act : StepAction E) (max_workers : ℕ) (group : List WorkflowStep) where
  collect-IsTracked :
      (step : WorkflowStep) (outcome : Result ExecutionResult) (pool : Pool E)
      → Member step group
      → get step.name pool.completed ≡ none
      → IsTracked group pool
      → IsTracked group (collect act max_workers step outcome pool)
  unfolding collect
  collect-IsTracked step (raised e) pool member absent h = record {
    waiting_from = h.waiting_from;
    running_from = h.running_from;
    finished_from = h.finished_from;
    unstopped = h.unstopped;
    stopped = h.stopped;
  }
  collect-IsTracked step (returned r) pool member absent h =
      elim (Bool-cases (not pool.is_stopped && is_stopping step r)) [
        | inl stops ↦ rw stops (record {
          waiting_from = tt;
          running_from = h.running_from;
          finished_from = h.finished_from;
          unstopped = λ e. cc;
          stopped = λ e. (
            step,
            member,
            (
              r,
              ground (arith, get-put step.name step.name r pool.completed, eq_refl step.name),
              ground arith,
            ),
          );
        })
        | inr goes_on ↦ rw goes_on (record {
          waiting_from = h.waiting_from;
          running_from = h.running_from;
          finished_from = h.finished_from;
          unstopped = h.unstopped;
          stopped = λ e. HasStopping-put group step.name r pool.completed absent (h.stopped e);
        })
      ]

  module _ (few : (n : String) → total (named n) group ≤ 1) where
    pub record IsSettling (pool : Pool E) : Type 0 where
      pub tracked : IsTracked group pool
      pub accounted : (n : String) → account n pool ≡ total (named n) group

    -- A step whose future was finished has no result yet.
    finished-absent :
        (i : ℕ) (step : WorkflowStep) (outcome : Result ExecutionResult)
        (others : List (WorkflowStep × Result ExecutionResult)) (pool : Pool E)
        → take_out i pool.finished ≡ some ((step, outcome), others)
        → account step.name pool ≤ 1
        → get step.name pool.completed ≡ none
    finished-absent i step outcome others pool e h = ground (
      arith,
      total-take_out (ended_named step.name) i pool.finished (step, outcome) others e,
      eq_refl step.name,
    )

    keeps_IsSettling : HasMoves act max_workers (λ pool pool'. IsSettling pool → IsSettling pool')
    keeps_IsSettling = record {
      begins = λ step steps pool e free h.
          let (member, others) = subst (All (λ s. Member s group)) e h.tracked.waiting_from in
          record {
            tracked = record {
              waiting_from = others;
              running_from =
                  All-append (λ s. Member s group) pool.running (step ∷ []) h.tracked.running_from
                    (member, tt);
              finished_from = h.tracked.finished_from;
              unstopped = h.tracked.unstopped;
              stopped = h.tracked.stopped;
            };
            accounted = λ n.
                (keeps_account act max_workers n _ (few n)).begins step steps pool e free
                  (h.accounted n);
          };
      ends = λ i step others pool e h.
          let (member, rest) =
            All-take_out (λ s. Member s group) i pool.running step others e
              h.tracked.running_from in
          record {
            tracked = record {
              waiting_from = h.tracked.waiting_from;
              running_from = rest;
              finished_from =
                  All-append (λ f. Member f.0 group) pool.finished
                    ((step, (act step pool.world).0) ∷ []) h.tracked.finished_from (member, tt);
              unstopped = h.tracked.unstopped;
              stopped = h.tracked.stopped;
            };
            accounted = λ n.
                (keeps_account act max_workers n _ (few n)).ends i step others pool e
                  (h.accounted n);
          };
      yields = λ i step outcome others pool e h.
          let (member, rest) =
            All-take_out (λ f. Member f.0 group) i pool.finished (step, outcome) others e
              h.tracked.finished_from in
          let absent =
            finished-absent i step outcome others pool e
              (omega (arith, h.accounted step.name, few step.name)) in
          record {
            tracked =
                collect-IsTracked step outcome (record pool { finished = others }) member absent
                  (record {
                    waiting_from = h.tracked.waiting_from;
                    running_from = h.tracked.running_from;
                    finished_from = rest;
                    unstopped = h.tracked.unstopped;
                    stopped = h.tracked.stopped;
                  });
            accounted = λ n.
                (keeps_account act max_workers n _ (few n)).yields i step outcome others pool e
                  (h.accounted n);
          };
    }

    pub members :
        (steps : List WorkflowStep)
        → ((s : WorkflowStep) → Member s steps → Member s group)
        → All (λ s. Member s group) steps
    members [] h = tt
    members (s ∷ steps) h = (h s (inl refl), members steps (λ t m. h t (inr m)))

    pub drive-IsSettling :
        (schedule : Pool E → Move) (moves : ℕ) (w : World E)
        → IsSettling (drive act max_workers schedule moves (submitted group w))
    drive-IsSettling schedule moves w =
        drive-keeps act max_workers IsSettling keeps_IsSettling schedule moves (submitted group w)
          (record {
            tracked = record {
              waiting_from = members group (λ s m. m);
              running_from = tt;
              finished_from = tt;
              unstopped = λ e. refl;
              stopped = λ e. absurd (cc);
            };
            accounted = λ n. account-submitted group w n;
          })
