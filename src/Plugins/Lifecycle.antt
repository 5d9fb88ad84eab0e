-- ===== src/Plugins/Lifecycle.antt =====
-- src/mellivor_kernel/plugins/lifecycle.py
pub mod Protocol
use mellivor_kernel.Prelude.{String, Bool, true, false, not, ◌||◌, List, [], ◌∷◌, if◌then◌else◌}
use mellivor_kernel.Python.{
  Text, lit, quoted, Exception, Result, returned, raised, error, plugin_lifecycle_error, Action,
}

pub data PluginLifecycleState : Type 0 where
  registered initialized running stopped disposed failed : PluginLifecycleState

unfoldable pub state_value : PluginLifecycleState → String
state_value registered = "registered"
state_value initialized = "initialized"
state_value running = "running"
state_value stopped = "stopped"
state_value disposed = "disposed"
state_value failed = "failed"

-- The four methods of a plugin (plugins/base.py).
pub data Method : Type 0 where
  initialize start stop dispose : Method

unfoldable pub method_name : Method → String
method_name initialize = "initialize"
method_name start = "start"
method_name stop = "stop"
method_name dispose = "dispose"

-- A managed plugin: its identifier, its state, and the calls that its methods have had, the newest
-- first. The calls are only recorded here; no code reads them.
pub record PluginLifecycle : Type 0 where
  pub plugin_id : String
  pub state : PluginLifecycleState
  pub calls : List Method

-- __init__
abbrev pub manage : String → PluginLifecycle
manage id = record { plugin_id = id; state = registered; calls = [] }

-- The states that `_require` allows for a method.
unfoldable pub allowed : Method → PluginLifecycleState → Bool
allowed initialize registered = true
allowed initialize _ = false
allowed start initialized = true
allowed start stopped = true
allowed start _ = false
allowed stop running = true
allowed stop _ = false
allowed dispose running = false
allowed dispose disposed = false
allowed dispose _ = true

-- The state behind a method that returns.
unfoldable pub target : Method → PluginLifecycleState
target initialize = initialized
target start = running
target stop = stopped
target dispose = disposed

-- `_run`: call the plugin's method, which answers with `outcome`.
unfoldable pub run : Method → Result Unit → Action PluginLifecycle Unit
unfolding target state_value
run m (raised e) l = (
  raised (
      error plugin_lifecycle_error (
        lit "Plugin "
        ∷ quoted l.plugin_id
        ∷ lit " failed during lifecycle transition to "
        ∷ quoted (state_value (target m))
        ∷ lit ": "
        ∷ e.message)),
  record l { state = failed; calls = m ∷ l.calls },
)
run m (returned _) l = (returned tt, record l { state = target m; calls = m ∷ l.calls })

-- `_require` and then `_run`
unfoldable pub guarded : Method → Result Unit → Action PluginLifecycle Unit
unfolding allowed run method_name
guarded m outcome l =
    if not (allowed m l.state)
    then (
      raised (
          error plugin_lifecycle_error (
            lit "Cannot "
            ∷ lit (method_name m)
            ∷ lit " plugin "
            ∷ quoted l.plugin_id
            ∷ lit " from state "
            ∷ quoted (state_value l.state)
            ∷ lit "."
            ∷ [])),
      l,
    )
    else run m outcome l

abbrev is_disposed : PluginLifecycleState → Bool
is_disposed disposed = true
is_disposed _ = false

-- `initialize`, `start`, `stop` and `dispose` of PluginLifecycle
unfoldable pub perform : Method → Result Unit → Action PluginLifecycle Unit
unfolding guarded
perform dispose outcome l =
    if is_disposed l.state then (returned tt, l) else guarded dispose outcome l
perform m outcome l = guarded m outcome l
