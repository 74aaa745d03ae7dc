-- ===== src/Threading/Thread.antt =====
-- `ThreadDetail` of common/src/threading/Thread.cpp in its Linux build: an object, the thread that
-- owns it and calls its members, and the threads that it has started, step by step.
pub mod Invariant
pub mod Steps
pub mod Reached
pub mod Returns
pub mod Early
mod Tests
use common_lib.Common.{
  ℕ, zero, suc, ◌+◌, Bool, true, false, not, ◌&&◌, Option, none, some, List, [], ◌∷◌, if◌then◌else◌,
  ltb, ◌==◌,
}

-- Where a started thread is in its function, named for what it did last; `serving` is `work()`.
pub data Stage : Type 0 where
  fresh marked prioritised named serving unmarked ended : Stage

-- `_thread`: null, the `std::thread` of the thread with this number, or one that is not joinable.
pub data Handle : Type 0 where
  absent unjoinable : Handle
  joinable : ℕ → Handle

-- Where the owner is in `start`: outside; before `join()`; before the new `std::thread`; before the
-- assignment to `_thread`; before `initFuture.wait()`.
pub data Owner : Type 0 where
  idle joining spawning assigning awaiting : Owner

-- `fulfilled` says that the promise of `_promise` has its value, and `crashed` that the program is
-- over: a null pointer was followed, or an exception left a thread.
pub record Thread : Type 0 where
  pub handle : Handle
  pub started : Bool
  pub fulfilled : Bool
  pub priority : ℕ × ℕ
  pub name : List ℕ
  pub owner : Owner
  pub spawned : ℕ
  pub stages : ℕ → Stage
  pub crashed : Bool

-- What a call answers; `throws` is BadHandlingException.
pub data Answer : Type 0 where
  replies : Bool → Answer
  throws undefined : Answer

-- A new object; `name` is the one of the application.
unfoldable pub create : List ℕ → Thread
create name = record {
  handle = absent;
  started = false;
  fulfilled = false;
  priority = (0, 0);
  name = name;
  owner = idle;
  spawned = 0;
  stages = λ i. ended;
  crashed = false;
}

abbrev pub put : (ℕ → Stage) → ℕ → Stage → ℕ → Stage
put stages i s j = if j == i then s else stages j

abbrev pub has_ended : Stage → Bool
has_ended ended = true
has_ended _ = false

-- `_thread->joinable()`.
unfoldable pub test_joinable : Handle → Answer
test_joinable absent = undefined
test_joinable unjoinable = replies false
test_joinable (joinable i) = replies true

-- The test at the head of `set_priority` and `set_name`.
unfoldable pub test_handle : Thread → Answer
test_handle t =
    if t.started
    then elim (test_joinable t.handle) [
      | replies b ↦ if b then replies true else throws
      | throws ↦ throws
      | undefined ↦ undefined
    ]
    else replies true

-- `accepted` is what sched_setscheduler says.
unfoldable pub set_priority : Bool → ℕ × ℕ → Thread → Answer × Thread
set_priority accepted priority t = elim (test_handle t) [
  | replies b ↦ (
    replies (if t.started && not ((priority.0 == 0) && (priority.1 == 0)) then accepted else true),
    record t { priority = priority },
  )
  | throws ↦ (throws, t)
  | undefined ↦ (undefined, t)
]

unfoldable pub set_name : List ℕ → Thread → Answer × Thread
set_name name t = elim (test_handle t) [
  | replies b ↦ (replies true, record t { name = name })
  | throws ↦ (throws, t)
  | undefined ↦ (undefined, t)
]

-- `_thread->join()` waits: there is no step before the other thread has ended.
unfoldable pub join : Handle → Thread → Option Thread
join absent t = some t
join unjoinable t = some t
join (joinable i) t =
    if has_ended (t.stages i) then some (record t { handle = unjoinable }) else none

-- Without a thread it throws, and changes nothing.
unfoldable pub detach : Handle → Thread → Thread
detach (joinable i) t = record t { handle = unjoinable }
detach _ t = t

-- An exception reaches the owner; a null pointer ends the program.
unfoldable pub answered : Answer × Thread → Thread
answered (undefined, t) = record t { crashed = true }
answered (_, t) = t

-- The calls of the owner.
pub data Call : Type 0 where
  starts joins detaches : Call
  prioritises : Bool → ℕ × ℕ → Call
  renames : List ℕ → Call

-- `starts` is the test of `start`, which throws if the thread runs.
unfoldable pub call : Call → Thread → Option Thread
call starts t = some (if t.started then t else record t { owner = joining })
call joins t = join t.handle t
call detaches t = some (detach t.handle t)
call (prioritises accepted priority) t = some (answered (set_priority accepted priority t))
call (renames name) t = some (answered (set_name name t))

-- The new promise, once the old thread is joined.
unfoldable pub renew : Option Thread → Option Thread
renew none = none
renew (some t) = some (record t { owner = spawning; fulfilled = false })

-- Whether `ip->set_value()` was reached.
abbrev pub announced : Stage → Bool
announced serving = true
announced unmarked = true
announced ended = true
announced _ = false

-- `_thread = …`, and `initFuture.wait()`, once so many threads were started.
unfoldable pub assign : ℕ → Thread → Option Thread
assign zero t = none
assign (suc i) t = some (record t { owner = awaiting; handle = joinable i })

unfoldable pub await : ℕ → Thread → Option Thread
await zero t = none
await (suc i) t = if announced (t.stages i) then some (record t { owner = idle }) else none

-- The next step of the owner within `start`.
unfoldable pub proceed : Owner → Thread → Option Thread
proceed idle t = none
proceed joining t = renew (join t.handle t)
proceed spawning t =
    some (record t {
      owner = assigning;
      spawned = suc t.spawned;
      stages = put t.stages t.spawned fresh;
    })
proceed assigning t = assign t.spawned t
proceed awaiting t = await t.spawned t

-- An exception in a thread that nothing catches ends the program.
unfoldable pub survives : Stage → ℕ → Answer × Thread → Thread
survives s i (replies b, t) = record t { stages = put t.stages i s }
survives s i (_, t) = record t { crashed = true }

-- The next step of thread `i`, at this stage; to set a promise twice throws.
unfoldable pub work : Stage → ℕ → Bool → Thread → Option Thread
work fresh i accepted t = some (record t { started = true; stages = put t.stages i marked })
work marked i accepted t = some (survives prioritised i (set_priority accepted t.priority t))
work prioritised i accepted t = some (survives named i (set_name t.name t))
work named i accepted t = some (record t { stages = put t.stages i serving })
work serving i accepted t = some (record t { started = false; stages = put t.stages i unmarked })
work unmarked i accepted t = some (
    if t.fulfilled
    then record t { crashed = true }
    else record t { fulfilled = true; stages = put t.stages i ended })
work ended i accepted t = none

pub data Move : Type 0 where
  calls : Call → Move
  proceeds : Move
  works : ℕ → Bool → Move

-- A call is made outside `start`.
unfoldable pub call_at : Owner → Call → Thread → Option Thread
call_at idle c t = call c t
call_at _ c t = none

unfoldable pub move : Move → Thread → Option Thread
move (calls c) t = call_at t.owner c t
move proceeds t = proceed t.owner t
move (works i accepted) t = if ltb i t.spawned then work (t.stages i) i accepted t else none

unfoldable pub step : Move → Thread → Option Thread
step m t = if t.crashed then none else move m t

unfoldable pub run : List Move → Thread → Option Thread
run [] t = some t
run (m ∷ ms) t = elim (step m t) [ none ↦ none | some t' ↦ run ms t' ]
