-- ===== src/Threading/TaskExecutor.antt =====
-- `TaskExecutor` of common/include/common/threading/TaskExecutor.hpp with the waiting of `WorkQueue`:
-- its workers, its clients and the one thread that calls `stop`, step by step. A task is a number.
-- A step is what a thread does while it holds a lock, or one access to an atomic variable.
pub mod Schedules
pub mod Tasks
pub mod Laws
pub mod Stop
pub mod Hang
mod Tests
use common_lib.Common.{
  ℕ, suc, ◌+◌, ◌-◌, ◌%◌, ◌^◌, bit_and, Bool, true, false, ◌&&◌, ◌||◌, Option, none, some, List, [],
  ◌∷◌, ◌++◌, length, get_elem?, get_or, set, replicate, ltb, if◌then◌else◌,
}
use common_lib.Utils.Misc.{next_pwr_of_2}
use common_lib.Container.WorkQueue.{Popped, waits, null, popped, push, pop, empty, try_steal}

-- Where a worker is in its loop: at the test of `_running`; before the lock of `pop`; in its wait,
-- the condition tested and the lock still held; asleep in it; running a task of its own queue; at
-- the test of its queue; at a turn of the stealing loop; running a stolen task; at its end.
pub data Phase : Type 0 where
  at_loop at_pop blocking asleep at_empty finished : Phase
  own stealing stolen : ℕ → Phase

-- `stop`: not called; about to wake a queue; waiting for a worker; returned.
pub data Stopper : Type 0 where
  idle stopped : Stopper
  finalizing joining : ℕ → Stopper

-- `notices` are the queues that `push` has added to and not notified yet.
pub record Executor : Type 0 where
  pub running : Bool
  pub index : ℕ
  pub queues : List (List ℕ)
  pub workers : List Phase
  pub stopper : Stopper
  pub notices : List ℕ
  pub executed : List ℕ

-- The constructor, with as many queues and workers as the next power of two.
unfoldable pub create : ℕ → Executor
create thread_count = record {
  running = true;
  index = 0;
  queues = replicate (next_pwr_of_2 thread_count) [];
  workers = replicate (next_pwr_of_2 thread_count) at_loop;
  stopper = idle;
  notices = [];
  executed = [];
}

-- What a step of a worker leaves.
pub record Turn : Type 0 where
  pub phase : Phase
  pub queues : List (List ℕ)
  pub executed : List ℕ

abbrev pub stay : Executor → Phase → Turn
stay s p = record { phase = p; queues = s.queues; executed = s.executed }

unfoldable pub is_blocking : Phase → Bool
is_blocking blocking = true
is_blocking _ = false

-- A worker that waits for a task holds its queue's lock until it is asleep.
abbrev pub is_locked : Executor → ℕ → Bool
is_locked s i = is_blocking (get_or s.workers i finished)

unfoldable pub pop_turn : Executor → ℕ → Popped ℕ → Turn
pop_turn s i waits = stay s blocking
pop_turn s i null = stay s at_empty
pop_turn s i (popped t rest) = record {
  phase = own t;
  queues = set s.queues i rest;
  executed = s.executed;
}

unfoldable pub steal_turn : Executor → ℕ → ℕ → Option (ℕ × List ℕ) → Turn
steal_turn s target k none = stay s (stealing (suc k))
steal_turn s target k (some (t, rest)) = record {
  phase = stolen t;
  queues = set s.queues target rest;
  executed = s.executed;
}

-- The next step of worker `i`, if it can take one. `busy` is a lock that another thread holds for a
-- moment when the worker tries to steal.
unfoldable pub work : Bool → Executor → ℕ → Phase → Option Turn
unfolding pop_turn steal_turn
work busy s i at_loop = some (stay s (if s.running then at_pop else finished))
work busy s i at_pop = some (pop_turn s i (pop s.running (get_or s.queues i [])))
work busy s i blocking = some (stay s asleep)
work busy s i asleep = none
work busy s i (own t) =
    some (record { phase = at_empty; queues = s.queues; executed = s.executed ++ t ∷ [] })
work busy s i at_empty =
    some (stay s (if empty (get_or s.queues i []) then stealing 1 else at_loop))
work busy s i (stealing k) =
    let target = (i + k) % length s.queues in
    some (
      if ltb k (length s.queues) && s.running
      then steal_turn s target k
          (try_steal (busy || is_locked s target) (get_or s.queues target []))
      else stay s at_loop)
work busy s i (stolen t) =
    some (record { phase = at_loop; queues = s.queues; executed = s.executed ++ t ∷ [] })
work busy s i finished = none

unfoldable pub take_turn : Executor → ℕ → Option Turn → Option Executor
take_turn s i none = none
take_turn s i (some t) =
    some (record s { queues = t.queues; executed = t.executed; workers = set s.workers i t.phase })

unfoldable pub worker_step : Bool → Executor → ℕ → Option Phase → Option Executor
unfolding work take_turn
worker_step busy s i none = none
worker_step busy s i (some p) = take_turn s i (work busy s i p)

-- The queue that `load` takes.
unfoldable pub queue_index : Executor → ℕ
queue_index s = bit_and s.index (length s.queues - 1)

-- `load`, which waits for the queue's lock.
unfoldable pub load : Executor → ℕ → Option Executor
load s task =
    let i = queue_index s in
    if is_locked s i
    then none
    else some (record s {
      index = (s.index + 1) % 2 ^ 32;
      queues = set s.queues i (push (get_or s.queues i []) task);
      notices = s.notices ++ i ∷ [];
    })

unfoldable pub woken : Phase → Phase
woken asleep = at_pop
woken p = p

-- `notify_one` and `notify_all`: at most the queue's own worker waits.
unfoldable pub wake : Executor → ℕ → Executor
wake s i = record s { workers = set s.workers i (woken (get_or s.workers i finished)) }

unfoldable pub notify : Executor → List ℕ → Option Executor
notify s [] = none
notify s (i ∷ is) = some (record (wake s i) { notices = is })

abbrev pub is_finished : Phase → Bool
is_finished finished = true
is_finished _ = false

unfoldable pub stop_step : Executor → Stopper → Option Executor
unfolding wake
stop_step s idle =
    if s.running
    then some (record s { running = false; stopper = finalizing 0 })
    else some (record s { stopper = stopped })
stop_step s (finalizing i) =
    if ltb i (length s.workers)
    then some (record (wake s i) { stopper = joining i })
    else some (record s { stopper = stopped })
stop_step s (joining i) =
    if is_finished (get_or s.workers i finished)
    then some (record s { stopper = finalizing (suc i) })
    else none
stop_step s stopped = none

-- A schedule names who moves; `spurious` wakes a worker that nobody notified.
pub data Move : Type 0 where
  works : Bool → ℕ → Move
  loads : ℕ → Move
  notifies stops : Move
  spurious : ℕ → Move

-- `none` where the thread cannot move.
unfoldable pub step : Move → Executor → Option Executor
unfolding worker_step
step (works busy i) s = worker_step busy s i (get_elem? s.workers i)
step (loads t) s = load s t
step notifies s = notify s s.notices
step stops s = stop_step s s.stopper
step (spurious i) s = some (wake s i)

unfoldable pub run : List Move → Executor → Option Executor
run [] s = some s
run (m ∷ ms) s = elim (step m s) [ none ↦ none | some s' ↦ run ms s' ]
