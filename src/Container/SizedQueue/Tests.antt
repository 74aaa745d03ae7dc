-- ===== src/Container/SizedQueue/Tests.antt =====
-- Tests of common/include/common/container/SizedQueue.hpp.
use common_lib.Common.{ℕ, ◌≡◌, refl, some, none, [], ◌∷◌}
use common_lib.Container.SizedQueue.{front, pop_front}

fresh_ends : (front {A = ℕ} [] ≡ none) × (pop_front {A = ℕ} (4 ∷ 5 ∷ []) ≡ some (5 ∷ []))
unfolding front pop_front
fresh_ends = (refl, refl)
