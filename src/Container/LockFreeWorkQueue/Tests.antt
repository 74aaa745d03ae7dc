-- ===== src/Container/LockFreeWorkQueue/Tests.antt =====
-- Tests of common/include/common/container/LockFreeWorkQueue.hpp.
use common_lib.Common.{ℕ, ◌≡◌, arith, List, [], ◌∷◌}
use common_lib.Container.LockFreeWorkQueue.{create}
use common_lib.Container.LockFreeWorkQueue.Refine.{
  Call, pushes, pops, steals, run, spec_run, deque_refines,
}

abbrev calls : List (Call ℕ)
calls = pushes 2 ∷ pushes 3 ∷ steals ∷ pops ∷ pops ∷ pops ∷ pushes 4 ∷ steals ∷ []

deque_refines_example : run (pushes 1 ∷ calls) (create 2) ≡ spec_run (pushes 1 ∷ calls) []
deque_refines_example = deque_refines 2 1 calls (omega arith) (omega arith)
