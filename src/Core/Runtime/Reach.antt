-- ===== src/Core/Runtime/Reach.antt =====
-- The states that a kernel can be in between two calls, and what its methods do there.
use mellivor_kernel.Prelude.{◌≡◌, ◌≢◌, ◌↔◌, ◌⊎◌, true, false, none, arith}
use mellivor_kernel.Python.{Result, returned}
use mellivor_kernel.Core.Runtime.{
  Kernel, new_kernel, starting, stopping, running, failed, is_failed, start, shutdown, health,
}

-- A call of a method that changes the state, with any outcome of `configure_logging`.
pub data Step : Kernel → Kernel → Type 0 where
  starts : (logging : Result Unit) (k : Kernel) → Step k (start logging k).1
  shuts : (k : Kernel) → Step k (shutdown k)

pub data Reach : Kernel → Type 0 where
  new : Reach new_kernel
  next : {k l : Kernel} → Reach k → Step k l → Reach l

-- No transition is under way, and a failure is remembered in the state FAILED only.
pub record IsSettled (k : Kernel) : Type 0 where
  pub not_starting : k.state ≢ starting
  pub not_stopping : k.state ≢ stopping
  pub detail : is_failed k.state ≡ false → k.failure_detail ≡ none
  pub reason : is_failed k.state ≡ true → k.failure_detail ≢ none

start-IsSettled : (logging : Result Unit) (k : Kernel) → IsSettled k → IsSettled (start logging k).1
unfolding start
start-IsSettled logging k h = ground arith

shutdown-IsSettled : (k : Kernel) → IsSettled k → IsSettled (shutdown k)
unfolding shutdown
shutdown-IsSettled k h = ground arith

-- Whatever calls a kernel has had, no transition is under way in it, and it remembers the text of a
-- failure exactly in the state FAILED.
pub Reach-IsSettled : {k : Kernel} → Reach k → IsSettled k
Reach-IsSettled new = ground arith
Reach-IsSettled (next r (starts logging k)) = start-IsSettled logging k (Reach-IsSettled r)
Reach-IsSettled (next r (shuts k)) = shutdown-IsSettled k (Reach-IsSettled r)

-- In a kernel that calls can lead to: `start` returns exactly if the kernel does not run and
-- `configure_logging` returns; it leaves the kernel running exactly if it ran or `configure_logging`
-- returned, and failed exactly if neither holds. `shutdown` leaves no kernel running and does
-- nothing more a second time, and a kernel is healthy exactly while it runs.
pub Reach-start :
    {k : Kernel} (logging : Result Unit)
    → Reach k
    → (((start logging k).0 ≡ returned tt) ↔ (k.state ≢ running) × (logging ≡ returned tt))
      × (((start logging k).1.state ≡ running) ↔ (k.state ≡ running) ⊎ (logging ≡ returned tt))
      × (((start logging k).1.state ≡ failed) ↔ (k.state ≢ running) × (logging ≢ returned tt))
      × ((shutdown k).state ≢ running)
      × (shutdown (shutdown k) ≡ shutdown k)
      × (((health k).healthy ≡ true) ↔ (k.state ≡ running))
unfolding start shutdown health
Reach-start {k} logging r =
    let settled = Reach-IsSettled r in ground (arith, settled.not_starting, settled.not_stopping)
