-- ===== src/Threading/Runnable.antt =====
-- `Runnable` of common/include/common/threading/Runnable.hpp: its thread, and the calls of `run` and
-- `stop`, step by step. What the body does is `__work`.
pub mod Laws
mod Tests
use common_lib.Common.{ℕ, suc, Bool, true, false, Option, none, some, List, [], ◌∷◌, if◌then◌else◌}

-- Where the thread is: at the test of `_running`; in `__work`; past its end, which is also where it is
-- before the first `run`.
pub data Stage : Type 0 where
  testing working ended : Stage

-- Where the caller of `run` is: outside, or at the assignment to `_t`.
pub data Caller : Type 0 where
  away replacing : Caller

-- `rounds` counts the calls of `__work`.
pub record Runnable : Type 0 where
  pub running : Bool
  pub stage : Stage
  pub caller : Caller
  pub rounds : ℕ

unfoldable pub create : Runnable
create = record { running = false; stage = ended; caller = away; rounds = 0 }

-- The next step of the thread.
unfoldable pub work : Stage → Runnable → Option Runnable
work testing r = some (
    if r.running
    then record r { stage = working; rounds = suc r.rounds }
    else record r { stage = ended })
work working r = some (record r { stage = testing })
work ended r = none

-- `run` throws while `_running` is set.
unfoldable pub begin_run : Caller → Runnable → Option Runnable
begin_run away r = some (if r.running then r else record r { running = true; caller = replacing })
begin_run replacing r = none

-- The assignment to `_t` releases the thread of the `run` before, which joins it; then the new one
-- starts.
unfoldable pub replace : Caller → Stage → Runnable → Option Runnable
replace replacing ended r = some (record r { stage = testing; caller = away })
replace _ _ r = none

unfoldable pub stop : Runnable → Runnable
stop r = record r { running = false }

pub data Move : Type 0 where
  works runs replaces stops : Move

unfoldable pub step : Move → Runnable → Option Runnable
unfolding work begin_run replace stop
step works r = work r.stage r
step runs r = begin_run r.caller r
step replaces r = replace r.caller r.stage r
step stops r = some (stop r)

unfoldable pub run : List Move → Runnable → Option Runnable
run [] r = some r
run (m ∷ ms) r = elim (step m r) [ none ↦ none | some r' ↦ run ms r' ]
