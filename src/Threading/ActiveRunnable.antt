-- ===== src/Threading/ActiveRunnable.antt =====
-- `ActiveRunnable` of common/include/common/threading/Runnable.hpp, once `run` has started its
-- thread: the thread, its clients and `stop`, step by step. `_running` changes under `_notifyLock`
-- only, so what the thread does from taking the lock until it waits or releases it is one step.
pub mod Schedules
pub mod Laws
pub mod Hang
mod Tests
use common_lib.Common.{ℕ, Bool, true, false, Option, none, some, List, [], ◌∷◌, ◌++◌, if◌then◌else◌}

-- Where the thread is: at the test of `_running`; before the lock; in `_cv.wait`; notified, and
-- before the lock again; in `__work`; at its end; or past `_tasks[0]` of an empty vector, where
-- everything is undefined.
pub data Phase {ℓ} (A : Type ℓ) : Type ℓ where
  at_test at_lock waiting notified ended undefined : Phase A
  serving : A → Phase A

pub record Runner {ℓ} (A : Type ℓ) : Type ℓ where
  pub running : Bool
  pub tasks : List A
  pub phase : Phase A
  pub served : List A

pub data Move {ℓ} (A : Type ℓ) : Type ℓ where
  works : Move A
  notifies : A → Move A
  stops : Move A
  spurious : Move A

module _ {ℓ} {A : Type ℓ} where
  -- After `run`.
  unfoldable pub started : Runner A
  started = record { running = true; tasks = []; phase = at_test; served = [] }

  -- From the second test of `_running` on: the first task, in order.
  unfoldable pub take_task : Runner A → List A → Runner A
  take_task r [] = record r { phase = if r.running then undefined else ended }
  take_task r (task ∷ tasks) =
      if r.running
      then record r { tasks = tasks; phase = serving task }
      else record r { phase = ended }

  unfoldable pub lock_step : Runner A → List A → Runner A
  lock_step r [] = record r { phase = waiting }
  lock_step r (task ∷ tasks) = take_task r (task ∷ tasks)

  -- The next step of the thread, if it can take one.
  unfoldable pub work : Runner A → Phase A → Option (Runner A)
  work r at_test = some (record r { phase = if r.running then at_lock else ended })
  work r at_lock = some (lock_step r r.tasks)
  work r waiting = none
  work r notified = some (take_task r r.tasks)
  work r (serving request) = some (record r { served = r.served ++ request ∷ []; phase = at_test })
  work r ended = none
  work r undefined = none

  unfoldable pub woken : Phase A → Phase A
  woken waiting = notified
  woken p = p

  unfoldable pub notify : Runner A → A → Runner A
  notify r request = record r { tasks = r.tasks ++ request ∷ []; phase = woken r.phase }

  unfoldable pub stop : Runner A → Runner A
  stop r = record r { running = false; phase = woken r.phase }

  -- `spurious` ends a wait that nobody notified, as `std::condition_variable` may.
  unfoldable pub step : Move A → Runner A → Option (Runner A)
  step works r = work r r.phase
  step (notifies request) r = some (notify r request)
  step stops r = some (stop r)
  step spurious r = some (record r { phase = woken r.phase })

  unfoldable pub run : List (Move A) → Runner A → Option (Runner A)
  run [] r = some r
  run (m ∷ ms) r = elim (step m r) [ none ↦ none | some r' ↦ run ms r' ]
