-- ===== src/Container/LockFreeWorkQueue/Shared/Reached.antt =====
-- Every order of the steps of a shared deque.
use common_lib.Common.{ℕ, suc, ◌+◌, ◌^◌, ◌≤◌, ◌<◌, ◌≡◌, refl, ap, subst, arith, Option, none, some}
use common_lib.Container.LockFreeWorkQueue.Refine.{capacity}
use common_lib.Container.LockFreeWorkQueue.Shared.{
  Owner, idle, popping, restoring, growing, placing, placed, racing, Shared, create, own_step, push,
  pop, Move, pushes, pops, owner_goes, thief_goes, step,
}
use common_lib.Container.LockFreeWorkQueue.Shared.Invariant.{
  limit_of, limit, contents, IsOwner, IsShared,
}
use common_lib.Container.LockFreeWorkQueue.Shared.Linear.{Yields, nothing, IsLinear, Kept}
use common_lib.Container.LockFreeWorkQueue.Shared.Steals.{steal-Kept}
use common_lib.Container.LockFreeWorkQueue.Shared.Pushes.{owner-Kept, grow-Kept}
use common_lib.Container.LockFreeWorkQueue.Shared.Places.{place-Kept, publish-Kept}
use common_lib.Container.LockFreeWorkQueue.Shared.Pops.{
  pop-Kept, restore-Kept, look-Kept, race-Kept,
}

module _ {A : Type 0} where
  -- `pop` is not called while `_bottom` is 0, as it is before the first push.
  abbrev pub IsCareful : Move A → Shared A → Type 0
  IsCareful pops s = 0 < s.bottom
  IsCareful _ s = Unit

  -- The states of a deque of this capacity after so many steps.
  pub data Reached (initial : ℕ) : ℕ → Shared A → Type 0 where
    begun : Reached initial 0 (create initial)
    next :
        (k : ℕ) (m : Move A) (s s' : Shared A)
        → Reached initial k s
        → IsCareful m s
        → step m s ≡ some s'
        → Reached initial (suc k) s'

  -- What is true of the state that a step gives, if it gives one.
  abbrev Holds : (Shared A → Type 0) → Option (Shared A) → Type 0
  Holds P none = Unit
  Holds P (some t) = P t

  own_step-Kept :
      (left : ℕ) (s s' : Shared A) (o : Owner A)
      → s.owner ≡ o
      → IsShared (suc left) s
      → IsOwner s o
      → own_step o s ≡ some s'
      → Kept left s s'
  unfolding own_step
  own_step-Kept left s s' idle o v h e = subst (Holds (Kept left s)) e tt
  own_step-Kept left s s' popping o v h e = subst (Holds (Kept left s)) e (look-Kept left s v o)
  own_step-Kept left s s' restoring o v h e =
      subst (Holds (Kept left s)) e (restore-Kept left s v o h)
  own_step-Kept left s s' (growing item top) o v h e =
      subst (Holds (Kept left s)) e (grow-Kept left top item s v o h)
  own_step-Kept left s s' (placing item top) o v h e =
      subst (Holds (Kept left s)) e (place-Kept left top item s v o h)
  own_step-Kept left s s' (placed item top) o v h e =
      subst (Holds (Kept left s)) e (publish-Kept left top item s v o h)
  own_step-Kept left s s' (racing top item) o v h e =
      subst (Holds (Kept left s)) e (race-Kept left s v top item o h)

  push-Kept :
      (left : ℕ) (s s' : Shared A) (item : A) (o : Owner A)
      → s.owner ≡ o
      → IsShared (suc left) s
      → push o item s ≡ some s'
      → Kept left s s'
  unfolding push
  push-Kept left s s' item idle o v e =
      subst (Holds (Kept left s)) e
        (owner-Kept left s (growing item s.top) v bound (omega arith, omega (arith, v.room, bound)))
    where
      bound : limit s ≡ s.bottom
      bound = ap (λ x. limit_of x s.bottom) o
  push-Kept left s s' item popping o v e = subst (Holds (Kept left s)) e tt
  push-Kept left s s' item restoring o v e = subst (Holds (Kept left s)) e tt
  push-Kept left s s' item (growing x top) o v e = subst (Holds (Kept left s)) e tt
  push-Kept left s s' item (placing x top) o v e = subst (Holds (Kept left s)) e tt
  push-Kept left s s' item (placed x top) o v e = subst (Holds (Kept left s)) e tt
  push-Kept left s s' item (racing top x) o v e = subst (Holds (Kept left s)) e tt

  starts_pop-Kept :
      (left : ℕ) (s s' : Shared A) (o : Owner A)
      → s.owner ≡ o
      → IsShared (suc left) s
      → 0 < s.bottom
      → pop o s ≡ some s'
      → Kept left s s'
  unfolding pop
  starts_pop-Kept left s s' idle o v started e =
      subst (Holds (Kept left s)) e (pop-Kept left s v o started)
  starts_pop-Kept left s s' popping o v started e = subst (Holds (Kept left s)) e tt
  starts_pop-Kept left s s' restoring o v started e = subst (Holds (Kept left s)) e tt
  starts_pop-Kept left s s' (growing x top) o v started e = subst (Holds (Kept left s)) e tt
  starts_pop-Kept left s s' (placing x top) o v started e = subst (Holds (Kept left s)) e tt
  starts_pop-Kept left s s' (placed x top) o v started e = subst (Holds (Kept left s)) e tt
  starts_pop-Kept left s s' (racing top x) o v started e = subst (Holds (Kept left s)) e tt

  step-Kept :
      (left : ℕ) (m : Move A) (s s' : Shared A)
      → IsShared (suc left) s
      → IsCareful m s
      → step m s ≡ some s'
      → Kept left s s'
  unfolding step
  step-Kept left (pushes item) s s' v h e = push-Kept left s s' item s.owner refl v e
  step-Kept left pops s s' v h e = starts_pop-Kept left s s' s.owner refl v h e
  step-Kept left owner_goes s s' v h e = own_step-Kept left s s' s.owner refl v v.owner e
  step-Kept left (thief_goes i) s s' v h e =
      subst (Holds (Kept left s)) e (steal-Kept left i s (s.thieves i) v (v.thieves i))

  create-IsShared :
      (initial left : ℕ) → initial ≤ 2 ^ 60 → left < 2 ^ 60 → IsShared left (create {A = A} initial)
  unfolding create
  create-IsShared initial left h few = record {
    ordered = omega arith;
    room = omega arith;
    positive = (capacity initial h).0;
    small = omega (arith, capacity initial h);
    low = omega (arith, few);
    owner = tt;
    thieves = λ i. tt;
  }

  create-IsLinear : (initial : ℕ) → IsLinear (create {A = A} initial)
  unfolding create
  create-IsLinear initial = nothing

  Reached-IsShared :
      (initial k left : ℕ) (s : Shared A)
      → initial ≤ 2 ^ 60
      → left + k < 2 ^ 60
      → Reached initial k s
      → IsShared left s × IsLinear s
  Reached-IsShared initial _ left _ h few begun =
      (create-IsShared initial left h (omega (arith, few)), create-IsLinear initial)
  Reached-IsShared initial _ left _ h few (next k m s s' r careful e) =
      let (v, linear) = Reached-IsShared initial k (suc left) s h (omega (arith, few)) r in
      let (v', keeps) = step-Kept left m s s' v careful e in (v', keeps linear)

  -- With `_array` an atomic shared pointer and the new array of `push` made shared, without which the
  -- class does not compile: fewer than 2 ^ 60 steps of the owner and of any number of thieves, on a
  -- deque of a capacity up to 2 ^ 60 that is not popped while `_bottom` is 0, are linearizable, in
  -- whatever order they interleave and whenever the array grows: the pushes, the pops and the steals
  -- that returned an element, and the pops that returned false, in the order in which they took effect,
  -- each done at once to a double-ended list, lead to the elements of the deque. So each element is
  -- taken once.
  pub Reached-Yields :
      (initial k : ℕ) (s : Shared A)
      → initial ≤ 2 ^ 60
      → k < 2 ^ 60
      → Reached initial k s
      → Yields s.log (contents s)
  Reached-Yields initial k s h few r = (Reached-IsShared initial k 0 s h (omega (arith, few)) r).1
