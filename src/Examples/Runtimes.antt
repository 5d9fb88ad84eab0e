-- ===== src/Examples/Runtimes.antt =====
-- The theorems about the kernel's runtime, on a kernel whose logging could not be configured.
use mellivor_kernel.Prelude.{◌≡◌, ◌≢◌, ◌↔◌, ◌⊎◌, true, []}
use mellivor_kernel.Python.{Result, returned, raised, error, other_error}
use mellivor_kernel.Core.Runtime.{Kernel, new_kernel, start, shutdown, health, running, failed}
use mellivor_kernel.Core.Runtime.Reach.{
  Reach, new, next, starts, IsSettled, Reach-IsSettled, Reach-start,
}

abbrev broken_logging : Result Unit
broken_logging = raised (error other_error [])

abbrev good_logging : Result Unit
good_logging = returned tt

abbrev failed_kernel : Kernel
failed_kernel = (start broken_logging new_kernel).1

failed_kernel-Reach : Reach failed_kernel
failed_kernel-Reach = next new (starts broken_logging new_kernel)

Reach-IsSettled_example : IsSettled failed_kernel
Reach-IsSettled_example = Reach-IsSettled failed_kernel-Reach

Reach-start_example :
    (((start good_logging failed_kernel).0 ≡ returned tt)
      ↔ (failed_kernel.state ≢ running) × (good_logging ≡ returned tt))
    × (((start good_logging failed_kernel).1.state ≡ running)
        ↔ (failed_kernel.state ≡ running) ⊎ (good_logging ≡ returned tt))
    × (((start good_logging failed_kernel).1.state ≡ failed)
        ↔ (failed_kernel.state ≢ running) × (good_logging ≢ returned tt))
    × ((shutdown failed_kernel).state ≢ running)
    × (shutdown (shutdown failed_kernel) ≡ shutdown failed_kernel)
    × (((health failed_kernel).healthy ≡ true) ↔ (failed_kernel.state ≡ running))
Reach-start_example = Reach-start good_logging failed_kernel-Reach
