-- ===== src/Threading/TaskExecutor/Tests.antt =====
-- Tests of common/include/common/threading/TaskExecutor.hpp.
use common_lib.Common.{ℕ, ◌≡◌, refl, arith, true, false, some, List, [], ◌∷◌, All}
use common_lib.Utils.Misc.{next_pwr_of_2, spread32, or_shift}
use common_lib.Container.WorkQueue.{push, pop, empty, take_back, try_steal, popped}
use common_lib.Threading.TaskExecutor.{
  at_loop, asleep, finished, idle, stopped, joining, Executor, create, is_blocking, queue_index,
  load, Move, works, loads, stops, run, step, worker_step, work, take_turn, pop_turn, steal_turn,
  woken, wake, stop_step,
}
use common_lib.Threading.TaskExecutor.Tasks.{tasks, loaded}
use common_lib.Threading.TaskExecutor.Laws.{run-create-tasks}
use common_lib.Threading.TaskExecutor.Stop.{stop-finished}
use common_lib.Threading.TaskExecutor.Hang.{stop-joining}

deque_ends :
    (pop {A = ℕ} true (1 ∷ 2 ∷ []) ≡ popped 1 (2 ∷ []))
    × (try_steal {A = ℕ} false (1 ∷ 2 ∷ []) ≡ some (2, 1 ∷ []))
unfolding pop try_steal take_back
deque_ends = (refl, refl)

-- Two tasks go to the two queues; worker 0 runs its own and then steals the other.
abbrev schedule : List Move
schedule =
    loads 7
    ∷ loads 8
    ∷ works false 0
    ∷ works false 0
    ∷ works false 0
    ∷ works false 0
    ∷ works false 0
    ∷ works false 0
    ∷ []

abbrev after_schedule : Executor
after_schedule = record {
  running = true;
  index = 2;
  queues = [] ∷ [] ∷ [];
  workers = at_loop ∷ at_loop ∷ [];
  stopper = idle;
  notices = 0 ∷ 1 ∷ [];
  executed = 7 ∷ 8 ∷ [];
}

run-schedule : run schedule (create 2) ≡ some after_schedule
unfolding run create next_pwr_of_2 spread32 or_shift step load queue_index is_blocking push
    worker_step work take_turn pop_turn pop empty steal_turn try_steal take_back
run-schedule = refl

run-create-tasks_example : tasks 8 after_schedule ≡ loaded 8 schedule
run-create-tasks_example =
    run-create-tasks 2 8 schedule after_schedule (omega arith) (omega arith) run-schedule

abbrev wrapping : Executor
wrapping = record after_schedule { index = 4294967295 }

abbrev wrapped : Executor
wrapped = record after_schedule { index = 0; queues = [] ∷ (9 ∷ []) ∷ []; notices = 0 ∷ 1 ∷ 1 ∷ [] }

abbrev shutdown : List Move
shutdown = stops ∷ works false 0 ∷ stops ∷ stops ∷ stops ∷ []

abbrev shut_down : Executor
shut_down = record {
  running = false;
  index = 0;
  queues = [] ∷ [];
  workers = finished ∷ [];
  stopper = stopped;
  notices = [];
  executed = [];
}

stop-finished_example : All (λ p. p ≡ finished) shut_down.workers
unfolding run create next_pwr_of_2 step worker_step work take_turn stop_step wake woken
stop-finished_example = stop-finished 1 shutdown shut_down refl refl

abbrev sleeping : Executor
sleeping = record {
  running = false;
  index = 0;
  queues = [] ∷ [];
  workers = asleep ∷ [];
  stopper = joining 0;
  notices = [];
  executed = [];
}

stop-joining_example : sleeping.stopper ≡ joining 0
unfolding run create next_pwr_of_2 step worker_step work take_turn pop_turn pop stop_step wake woken
stop-joining_example =
    stop-joining 1 (works false 0 ∷ []) sleeping (omega arith) (omega arith) (tt, tt) refl
