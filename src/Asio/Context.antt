-- ===== src/Asio/Context.antt =====
-- `IOContext` of common/include/common/asio/IOContext.hpp on the steps of its TaskExecutor: the calls
-- of `run` and `stop`, by one thread, and its workers, each of which runs `io_context::run`.
pub mod Laws
mod Tests
use common_lib.Common.{
  ℕ, suc, Bool, true, false, not, ◌||◌, Option, none, some, List, [], ◌∷◌, get_elem?, ltb,
  if◌then◌else◌,
}
use common_lib.Threading.TaskExecutor
use common_lib.Threading.TaskExecutor.{
  Phase, at_loop, at_pop, blocking, asleep, at_empty, finished, own, stealing, stolen, Stopper,
  idle, stopped, finalizing, joining, Executor,
}

-- Where the caller is: outside; in `run`, about to load a task or to notify its queue; in `stop`,
-- before `_context.stop()`, in `_executor->stop()`, before `_context.restart()`, and before it clears
-- `_running`.
pub data Caller : Type 0 where
  away halting waiting restarting clearing : Caller
  loading notifying : ℕ → Caller

-- `guarded` is the work guard, `halted` what `_context.stop()` sets and `restart` resets.
pub record Context : Type 0 where
  pub running : Bool
  pub guarded : Bool
  pub halted : Bool
  pub executor : Executor
  pub caller : Caller

-- `_executorCount`.
abbrev pub executor_count : ℕ
executor_count = 4

unfoldable pub create : Context
create = record {
  running = false;
  guarded = true;
  halted = false;
  executor = TaskExecutor.create executor_count;
  caller = away;
}

-- The worker is in `io_context::run`, the only task that `run` loads.
unfoldable pub is_looping : Option Phase → Bool
is_looping (some (own t)) = true
is_looping (some (stolen t)) = true
is_looping _ = false

-- `io_context::run` returns once the context is stopped, or has no work and no guard.
unfoldable pub may_step : Context → ℕ → Bool
may_step c i = not (is_looping (get_elem? c.executor.workers i)) || c.halted || not c.guarded

unfoldable pub with_executor : Context → Caller → Option Executor → Option Context
with_executor c to none = none
with_executor c to (some s) = some (record c { executor = s; caller = to })

-- The build without strict mode logs a second `run`, and returns.
unfoldable pub run_starts : Caller → Context → Option Context
run_starts away c = some (if c.running then c else record c { running = true; caller = loading 0 })
run_starts _ c = none

unfoldable pub stop_starts : Caller → Context → Option Context
stop_starts away c = some (if c.running then record c { guarded = false; caller = halting } else c)
stop_starts _ c = none

abbrev pub is_stopped : Stopper → Bool
is_stopped stopped = true
is_stopped _ = false

-- The next step of the caller inside `run` or `stop`.
unfoldable pub caller_step : Caller → Context → Option Context
unfolding with_executor
caller_step away c = none
caller_step (loading i) c =
    if ltb i executor_count
    then with_executor c (notifying i) (TaskExecutor.step (TaskExecutor.loads i) c.executor)
    else some (record c { caller = away })
caller_step (notifying i) c =
    with_executor c (loading (suc i)) (TaskExecutor.step TaskExecutor.notifies c.executor)
caller_step halting c = some (record c { halted = true; caller = waiting })
caller_step waiting c =
    if is_stopped c.executor.stopper
    then some (record c { caller = restarting })
    else with_executor c waiting (TaskExecutor.step TaskExecutor.stops c.executor)
caller_step restarting c = some (record c { halted = false; caller = clearing })
caller_step clearing c = some (record c { running = false; caller = away })

pub data Move : Type 0 where
  calls_run calls_stop caller_goes : Move
  works : Bool → ℕ → Move
  spurious : ℕ → Move

unfoldable pub step : Move → Context → Option Context
unfolding with_executor
step calls_run c = run_starts c.caller c
step calls_stop c = stop_starts c.caller c
step caller_goes c = caller_step c.caller c
step (works busy i) c =
    if may_step c i
    then with_executor c c.caller (TaskExecutor.step (TaskExecutor.works busy i) c.executor)
    else none
step (spurious i) c =
    with_executor c c.caller (TaskExecutor.step (TaskExecutor.spurious i) c.executor)

unfoldable pub run : List Move → Context → Option Context
run [] c = some c
run (m ∷ ms) c = elim (step m c) [ none ↦ none | some c' ↦ run ms c' ]
