-- ===== src/Core/Runtime.antt =====
-- src/mellivor_kernel/core/runtime.py. The settings, the container and the logger are no part of
-- the lifecycle; `configure_logging` enters by its outcome.
pub mod Reach
use mellivor_kernel.Prelude.{
  String, Bool, true, false, not, Option, none, some, List, [], ◌∷◌, if◌then◌else◌,
}
use mellivor_kernel.Python.{
  Text, lit, quoted, text_or, Result, returned, raised, error, startup_error, Action,
}

pub data KernelState : Type 0 where
  not_started starting running stopping stopped failed : KernelState

-- KernelState.….value
unfoldable pub state_value : KernelState → String
state_value not_started = "not_started"
state_value starting = "starting"
state_value running = "running"
state_value stopping = "stopping"
state_value stopped = "stopped"
state_value failed = "failed"

pub record HealthStatus : Type 0 where
  pub healthy : Bool
  pub state : KernelState
  pub detail : Text

pub record Kernel : Type 0 where
  pub state : KernelState
  pub failure_detail : Option Text

-- __init__
abbrev pub new_kernel : Kernel
new_kernel = record { state = not_started; failure_detail = none }

abbrev pub is_startable : KernelState → Bool
is_startable not_started = true
is_startable stopped = true
is_startable failed = true
is_startable _ = false

abbrev pub is_running : KernelState → Bool
is_running running = true
is_running _ = false

abbrev pub is_failed : KernelState → Bool
is_failed failed = true
is_failed _ = false

-- The `try` of `start`, from the state STARTING, by the outcome of `configure_logging`.
configured : Result Unit → Action Kernel Unit
configured (raised e) k = (
  raised (error startup_error (lit "Kernel startup failed: " ∷ e.message)),
  record { state = failed; failure_detail = some e.message },
)
configured (returned _) k = (returned tt, record k { state = running })

unfoldable pub start : Result Unit → Action Kernel Unit
unfolding configured
start logging k =
    if not (is_startable k.state)
    then (
      raised (
          error startup_error
            (lit "Cannot start kernel from state " ∷ quoted (state_value k.state) ∷ lit "." ∷ [])),
      k,
    )
    else configured logging (record { state = starting; failure_detail = none })

unfoldable pub shutdown : Kernel → Kernel
shutdown k =
    if not (is_running k.state)
    then k
    else (let stopping_kernel = record k { state = stopping } in
        record stopping_kernel { state = stopped })

unfoldable pub health : Kernel → HealthStatus
health k =
    if is_running k.state
    then record { healthy = true; state = k.state; detail = [] }
    else if is_failed k.state
    then record {
      healthy = false;
      state = k.state;
      detail = text_or k.failure_detail (lit "Kernel failed to start." ∷ []);
    }
    else record {
      healthy = false;
      state = k.state;
      detail = lit "Kernel is not running (state=" ∷ lit (state_value k.state) ∷ lit ")." ∷ [];
    }
