-- ===== src/Container/SizedQueue.antt =====
-- `SizedQueue<_tp, _size>` of common/include/common/container/SizedQueue.hpp. The `std::queue` is a
-- list, oldest first.
pub mod Laws
mod Tests
use common_lib.Common.{
  ℕ, Bool, true, false, Option, none, some, List, [], ◌∷◌, ◌++◌, length, if◌then◌else◌, ◌==◌,
}

module _ {ℓ} {A : Type ℓ} where
  -- `std::queue::front`; `none` is the undefined access to an empty queue.
  unfoldable pub front : List A → Option A
  front [] = none
  front (x ∷ q) = some x

  unfoldable pub back : List A → Option A
  back [] = none
  back (x ∷ []) = some x
  back (x ∷ y ∷ q) = back (y ∷ q)

  unfoldable pub empty : List A → Bool
  empty [] = true
  empty (x ∷ q) = false

  unfoldable pub size : List A → ℕ
  size q = length q

  -- `std::queue::pop`, for which an empty queue is undefined: only `pop_front` may meet one.
  unfoldable pub pop_front : List A → Option (List A)
  pop_front [] = none
  pop_front (x ∷ q) = some q

  -- `emplace_back`: a full queue first drops its oldest entry.
  unfoldable pub emplace_back : ℕ → List A → A → List A
  unfolding pop_front
  emplace_back limit q x =
      if length q == limit
      then elim (pop_front q) [ none ↦ x ∷ [] | some r ↦ r ++ x ∷ [] ]
      else q ++ x ∷ []

  -- The two `push_back` overloads call `emplace_back`.
  unfoldable pub push_back : ℕ → List A → A → List A
  push_back limit q x = emplace_back limit q x

  -- A client that pushes in turn.
  unfoldable pub push_all : ℕ → List A → List A → List A
  push_all limit q [] = q
  push_all limit q (x ∷ xs) = push_all limit (push_back limit q x) xs
