-- ===== src/Container/LockFreeWorkQueue/EmptyPop.antt =====
-- `pop` on a deque that was never pushed to.
use common_lib.Common.{ℕ, ◌-◌, ◌^◌, ◌≡◌, refl, true}
use common_lib.Container.LockFreeWorkQueue.{create, pop, size}

-- On a fresh deque of any capacity `pop` returns true though nothing was pushed: `_bottom - 1` wraps,
-- so that the deque looks non-empty, and afterwards its size is the largest `size_t`.
pub pop-create {ℓ} :
    (A : Type ℓ) (initial : ℕ)
    → let (ok, x, d) = pop (create {A = A} initial) in (ok ≡ true) × (size d ≡ 2 ^ 64 - 1)
unfolding pop create size
pop-create A initial = (refl, refl)
