-- ===== src/Examples/Dispatching.antt =====
-- The theorems about the dispatcher, on the host of the samples.
use mellivor_kernel.Prelude.{[], ◌∷◌}
use mellivor_kernel.Python.{Returns}
use mellivor_kernel.Execution.Result.{IsValidResult}
use mellivor_kernel.Execution.Dispatch.{dispatch}
use mellivor_kernel.Execution.Dispatch.Reach.{Reached, dispatch-Reached}
use mellivor_kernel.Execution.Dispatch.Total.{dispatch_total}
use mellivor_kernel.Examples.Samples.{
  host, new_world, read_request, echo_request, host-IsWellBehaved,
}

dispatch-Reached_example :
    Reached host read_request
      ("filesystem.read" ∷ [])
      []
      (dispatch host read_request ("filesystem.read" ∷ []) new_world).1.trace
dispatch-Reached_example = dispatch-Reached host read_request ("filesystem.read" ∷ []) new_world

dispatch_total_example : Returns IsValidResult (dispatch host echo_request [] new_world).0
dispatch_total_example = dispatch_total host echo_request [] new_world host-IsWellBehaved
