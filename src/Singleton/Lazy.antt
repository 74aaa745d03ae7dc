-- ===== src/Singleton/Lazy.antt =====
-- `LazySingleton::get_instance` of common/include/common/Singleton.hpp where WINDOWS is not defined,
-- called by any number of threads. An instance is the number of the `make_shared` that made it. Each
-- access to the static pointer is a step.
pub mod Laws
mod Tests
use common_lib.Common.{ℕ, suc, Option, none, some, List, [], ◌∷◌}
use common_lib.Singleton.{put}

-- Where a call is: before the test; before `make_shared`; before the assignment of what it made;
-- before the copy that it returns; and past its return, with that copy.
pub data Place : Type 0 where
  testing making returning : Place
  assigning : ℕ → Place
  returned : Option ℕ → Place

pub record Lazy : Type 0 where
  pub instance_of : Option ℕ
  pub place : ℕ → Place
  pub made : ℕ

abbrev pub start : Lazy
start = record { instance_of = none; place = λ i. testing; made = 0 }

unfoldable pub test : Option ℕ → Place
test none = making
test (some x) = returning

-- The next step of the call of thread `i`, which is here.
unfoldable pub call_step : ℕ → Place → Lazy → Lazy
unfolding test
call_step i testing s = record s { place = put s.place i (test s.instance_of) }
call_step i making s = record s { place = put s.place i (assigning s.made); made = suc s.made }
call_step i (assigning x) s = record s { instance_of = some x; place = put s.place i returning }
call_step i returning s = record s { place = put s.place i (returned s.instance_of) }
call_step i (returned x) s = s

-- A schedule names the threads that move.
unfoldable pub run : List ℕ → Lazy → Lazy
unfolding call_step
run [] s = s
run (i ∷ is) s = run is (call_step i (s.place i) s)
