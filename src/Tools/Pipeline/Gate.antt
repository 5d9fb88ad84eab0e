-- ===== src/Tools/Pipeline/Gate.antt =====
-- What a tool must pass before its code runs.
use mellivor_kernel.Prelude.{◌≡◌, ◌⊎◌, [], ◌∷◌, List, arith, inl, inr}
use mellivor_kernel.Python.{Payload, returned}
use mellivor_kernel.World.{World, tool_validated, tool_executed}
use mellivor_kernel.Tools.Permissions.{Permission, missing_permissions}
use mellivor_kernel.Tools.Permissions.Sets.{Covers, missing_permissions-nil_iff}
use mellivor_kernel.Tools.Base.{BaseTool}
use mellivor_kernel.Tools.Pipeline.{Timer, run}

module _ {E : Type 0} (timer : Timer E) (tool : BaseTool E) (request : Payload)
    (granted : List Permission) (w : World E) where
  abbrev Stopped : Type 0
  Stopped = (run timer tool request granted w).1.trace ≡ tool_validated tool.id ∷ w.trace

  abbrev Ran : Type 0
  Ran =
      (run timer tool request granted w).1.trace
      ≡ tool_executed tool.id ∷ tool_validated tool.id ∷ w.trace

  run_missing :
      Stopped
      ⊎ Ran
        × ((tool.validate request w.env).0 ≡ returned tt)
        × (missing_permissions tool.permissions granted ≡ [])
  unfolding run
  run_missing = ground arith

  -- The pipeline runs a tool's code at most once, behind its validation, and only if the validation
  -- passes and the granted permissions cover those that the tool declares.
  pub run_gate :
      Stopped
      ⊎ Ran × ((tool.validate request w.env).0 ≡ returned tt) × Covers granted tool.permissions
  run_gate = elim run_missing [
    | inl stopped ↦ inl stopped
    | inr (ran, valid, none_missing) ↦
        inr (ran, valid, (missing_permissions-nil_iff tool.permissions granted).0 none_missing)
  ]

  ran_of_none_missing :
      (tool.validate request w.env).0 ≡ returned tt
      → missing_permissions tool.permissions granted ≡ []
      → Ran
  unfolding run
  ran_of_none_missing valid none_missing = ground arith

  -- A tool whose validation passes and whose permissions are covered is run.
  pub run_covered :
      (tool.validate request w.env).0 ≡ returned tt → Covers granted tool.permissions → Ran
  run_covered valid covers =
      ran_of_none_missing valid ((missing_permissions-nil_iff tool.permissions granted).1 covers)
