-- ===== src/Threading/Timer.antt =====
-- `TimerDetail` of common/src/threading/Timer.cpp that is not `async`: a timer, the threads that call
-- it and the thread it starts, step by step.
pub mod Laws
pub mod Restart
mod Tests
use common_lib.Common.{ℕ, ◌+◌, Bool, true, false, Option, none, some, List, [], ◌∷◌, if◌then◌else◌}

-- Where the thread of the timer is: in `wait_for`, before it tests `_running`, between the test and
-- the sleep, or asleep; at the head of the `while`; in `_func`; before `set_value`; or past its end,
-- which is also where it is before the first start.
pub data Stage : Type 0 where
  checking blocking waiting testing calling finishing ended : Stage

-- Where `start` is: outside, or at the assignment to `_thread`.
pub data Owner : Type 0 where
  idle replacing : Owner

-- `count` is how often `_func` was called.
pub record Timer : Type 0 where
  pub running : Bool
  pub stage : Stage
  pub owner : Owner
  pub count : ℕ

unfoldable pub create : Timer
create = record { running = false; stage = ended; owner = idle; count = 0 }

-- The next step of the thread, where it is not asleep; `goes_on` is what `_func` returns.
unfoldable pub work : Stage → Bool → Timer → Option Timer
work checking goes_on t = some (record t { stage = if t.running then blocking else testing })
work blocking goes_on t = some (record t { stage = waiting })
work waiting goes_on t = none
work testing goes_on t = some (
    if t.running
    then record t { stage = calling; count = t.count + 1 }
    else record t { stage = finishing })
work calling goes_on t = some (record t { stage = if goes_on then checking else finishing })
work finishing goes_on t = some (record t { stage = ended })
work ended goes_on t = none

-- The interval is over.
unfoldable pub expire : Stage → Timer → Option Timer
expire waiting t = some (record t { stage = testing })
expire _ t = none

-- The thread is awake, for `notify_all` or without a reason, and tests `_running` again.
abbrev pub awake : Stage → Stage
awake waiting = checking
awake s = s

-- `start` throws while `_running` is set.
unfoldable pub start : Owner → Timer → Option Timer
start idle t = some (if t.running then t else record t { running = true; owner = replacing })
start replacing t = none

abbrev pub has_ended : Stage → Bool
has_ended ended = true
has_ended _ = false

-- The assignment to `_thread` joins the thread of the start before; then the new one starts.
unfoldable pub replace : Owner → Timer → Option Timer
replace idle t = none
replace replacing t =
    if has_ended t.stage then some (record t { stage = checking; owner = idle }) else none

-- `stops` and `notifies` are the two steps of `stop`.
pub data Move : Type 0 where
  works : Bool → Move
  expires spurious starts replaces stops notifies : Move

unfoldable pub step : Move → Timer → Option Timer
step (works goes_on) t = work t.stage goes_on t
step expires t = expire t.stage t
step spurious t = some (record t { stage = awake t.stage })
step starts t = start t.owner t
step replaces t = replace t.owner t
step stops t = some (record t { running = false })
step notifies t = some (record t { stage = awake t.stage })

unfoldable pub run : List Move → Timer → Option Timer
run [] t = some t
run (m ∷ ms) t = elim (step m t) [ none ↦ none | some t' ↦ run ms t' ]
