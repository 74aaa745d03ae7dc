-- ===== src/Threading/Manager.antt =====
-- `TimerManager` of common/src/threading/Timer.cpp, with `Timer::create`, `Timer::async` and the
-- destructor of a timer: who owns which timer, and which thread destroys it, step by step. The loop of
-- a timer is a single stage here; Threading/Timer has its steps. A call that takes the lock without
-- waiting in between is one step, `regist` with its test.
pub mod Stuck
pub mod Hang
pub mod Turn
pub mod Waits
pub mod Shutdown
mod Tests
use common_lib.Common.{
  ℕ, suc, Bool, true, false, not, ◌&&◌, ◌||◌, List, [], ◌∷◌, ◌++◌, if◌then◌else◌, ◌==◌,
}

-- Where the thread of a timer is: not started; in its loop; after `set_value`; in destructors, which
-- wait for the threads of these timers; or past its end, where the future of the thread is ready.
pub data Stage : Type 0 where
  fresh looping promised ended : Stage
  waits : List ℕ → Stage

-- `held` says that the user has the timer, and `gone` that its destructor was called.
pub record Timer : Type 0 where
  pub running : Bool
  pub held : Bool
  pub gone : Bool
  pub stage : Stage

-- Who has `_lock`: nobody; the thread of a timer; `force_stop_all`, before it stops the first of these
-- timers, or while it waits for it.
pub data Holder : Type 0 where
  free : Holder
  thread : ℕ → Holder
  stopping awaiting : List ℕ → Holder

-- Timers are numbered as they are made; `timers` is `_timers`.
pub record Manager : Type 0 where
  pub count : ℕ
  pub table : ℕ → Timer
  pub timers : List ℕ
  pub shutting_down : Bool
  pub holder : Holder

-- A step may be impossible, or end the program, where an exception leaves a thread.
pub data Outcome : Type 0 where
  done : Manager → Outcome
  impossible crashed : Outcome

unfoldable pub create : Manager
create = record {
  count = 0;
  table = λ i. record { running = false; held = false; gone = false; stage = fresh };
  timers = [];
  shutting_down = false;
  holder = free;
}

abbrev pub put : (ℕ → Timer) → ℕ → Timer → ℕ → Timer
put table i t j = if j == i then t else table j

abbrev pub change : ℕ → Timer → Manager → Manager
change i t m = record m { table = put m.table i t }

abbrev pub mem : ℕ → List ℕ → Bool
mem i [] = false
mem i (j ∷ js) = (i == j) || mem i js

-- The stages in which the destructor of a timer has to wait for its thread.
abbrev pub is_busy : Stage → Bool
is_busy fresh = false
is_busy ended = false
is_busy _ = true

abbrev pub is_free : Holder → Bool
is_free free = true
is_free _ = false

unfoldable pub regist : ℕ → Manager → Outcome
regist i m =
    if m.shutting_down
    then done m
    else if is_free m.holder
    then done (record m { timers = m.timers ++ i ∷ [] })
    else impossible

-- The destructor, but for its wait.
abbrev pub destroyed : Timer → Timer
destroyed t = record t { running = false; gone = true }

-- The user's share of a timer goes; the manager may have another.
unfoldable pub drop : ℕ → Manager → Manager
drop i m =
    let t = record (m.table i) { held = false } in
    change i (if mem i m.timers then t else destroyed t) m

abbrev pub new : Bool → Stage → Manager → Manager
new running stage m = record m {
  count = suc m.count;
  table =
      put m.table m.count (record { running = running; held = true; gone = false; stage = stage });
}

-- `Timer::create`.
unfoldable pub make : Manager → Outcome
unfolding regist
make m = regist m.count (new false fresh m)

-- `Timer::async`, at whose end the caller's share goes.
unfoldable pub async : Manager → Outcome
unfolding regist drop
async m = elim (regist m.count (new true looping m)) [
  | done m' ↦ done (drop m.count m')
  | impossible ↦ impossible
  | crashed ↦ crashed
]

abbrev pub select : (ℕ → Bool) → List ℕ → List ℕ
select p [] = []
select p (i ∷ is) = if p i then i ∷ select p is else select p is

-- The manager's share of these timers goes. The destructors of those that nobody else has are called;
-- `keep` is the timer that the caller of `unregist` has a share of.
abbrev pub dropped : ℕ → List ℕ → (ℕ → Timer) → ℕ → Timer
dropped keep is table j =
    if mem j is && not (table j).held && not (j == keep) then destroyed (table j) else table j

-- The timers that `unregist` takes out.
abbrev pub taken : ℕ → Manager → List ℕ
taken i m = select (λ j. (j == i) || not (m.table j).running) m.timers

-- Those of them whose destructors wait.
abbrev pub waited : ℕ → Manager → List ℕ
waited i m =
    select (λ j. not (j == i) && not (m.table j).held && is_busy (m.table j).stage) (taken i m)

abbrev pub after_waits : List ℕ → Stage
after_waits [] = ended
after_waits is = waits is

abbrev pub held_by : ℕ → List ℕ → Holder
held_by i [] = free
held_by i js = thread i

-- The body of `unregist` in the thread of timer `i`, with the lock. The lock is free again when the
-- destructors of the others are over; the share that the call has goes after that, and with it the
-- timer itself, if nobody else has it.
unfoldable pub erase : ℕ → Manager → Manager
erase i m =
    let t = m.table i in
    let others = waited i m in
    let own = if t.held then [] else i ∷ [] in
    let t' = record (if t.held then t else destroyed t) { stage = after_waits (others ++ own) } in
    record m {
      table = put (dropped i (taken i m) m.table) i t';
      timers = select (λ j. not (mem j (taken i m))) m.timers;
      holder = held_by i others;
    }

-- The end of the thread: `shared_from_this()` throws where the destructor was called, and `unregist`
-- returns where it does not get the lock.
unfoldable pub unregist : Stage → ℕ → Manager → Outcome
unregist promised i m =
    let t = m.table i in
    if t.gone
    then crashed
    else if is_free m.holder
    then done (erase i m)
    else done (change i (record t { stage = ended }) m)
unregist _ i m = impossible

abbrev pub has_ended : Stage → Bool
has_ended ended = true
has_ended _ = false

abbrev pub next_holder : ℕ → List ℕ → Holder → Holder
next_holder i js (thread k) = elim (select (λ j. not (j == i)) js) [
  | [] ↦ if k == i then free else thread k
  | _ ↦ thread k
]
next_holder i js h = h

-- A thread that waits in a destructor goes on.
unfoldable pub resume : Stage → ℕ → Manager → Outcome
resume (waits (j ∷ js)) i m =
    if has_ended (m.table j).stage
    then done (record (change i (record (m.table i) { stage = after_waits js }) m) {
      holder = next_holder i js m.holder;
    })
    else impossible
resume _ i m = impossible

abbrev pub out_of_loop : ℕ → Manager → Manager
out_of_loop i m = change i (record (m.table i) { stage = promised }) m

-- The loop finds `_running` cleared, before its first round or after any other.
unfoldable pub leave : Stage → ℕ → Manager → Outcome
leave looping i m = if (m.table i).running then impossible else done (out_of_loop i m)
leave _ i m = impossible

-- `_func` returns false.
unfoldable pub break_loop : Stage → ℕ → Manager → Outcome
break_loop looping i m = if (m.table i).running then done (out_of_loop i m) else impossible
break_loop _ i m = impossible

-- `start` of a timer that is not running joins the thread of the start before.
unfoldable pub start : ℕ → Manager → Outcome
start i m =
    let t = m.table i in
    if not t.held
    then impossible
    else if t.running
    then done m
    else if is_busy t.stage
    then impossible
    else done (change i (record t { running = true; stage = looping }) m)

unfoldable pub stop : ℕ → Manager → Manager
stop i m = change i (record (m.table i) { running = false }) m

-- `force_stop_all`: the lock, `stop` of the first timer, its wait, and `clear`.
unfoldable pub force_stop : Holder → Manager → Outcome
unfolding stop
force_stop free m = done (record m { shutting_down = true; holder = stopping m.timers })
force_stop (stopping []) m =
    done (record m { table = dropped m.count m.timers m.table; timers = []; holder = free })
force_stop (stopping (i ∷ is)) m = done (record (stop i m) { holder = awaiting (i ∷ is) })
force_stop (awaiting (i ∷ is)) m =
    if is_busy (m.table i).stage then impossible else done (record m { holder = stopping is })
force_stop _ m = impossible

abbrev pub if_held : ℕ → Manager → Outcome → Outcome
if_held i m o = if (m.table i).held then o else impossible

pub data Move : Type 0 where
  makes asyncs force_stops : Move
  starts stops drops leaves breaks unregisters resumes : ℕ → Move

unfoldable pub step : Move → Manager → Outcome
unfolding make async start stop drop leave break_loop unregist resume force_stop
step makes m = make m
step asyncs m = async m
step force_stops m = force_stop m.holder m
step (starts i) m = start i m
step (stops i) m = if_held i m (done (stop i m))
step (drops i) m = if_held i m (done (drop i m))
step (leaves i) m = leave (m.table i).stage i m
step (breaks i) m = break_loop (m.table i).stage i m
step (unregisters i) m = unregist (m.table i).stage i m
step (resumes i) m = resume (m.table i).stage i m

unfoldable pub run : List Move → Manager → Outcome
run [] m = done m
run (v ∷ vs) m = elim (step v m) [
  | done m' ↦ run vs m'
  | impossible ↦ impossible
  | crashed ↦ crashed
]
