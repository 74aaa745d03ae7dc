-- ===== src/Container/LockFreeWorkQueue/Shared/Tests.antt =====
-- The owner and a thief race for one element.
use common_lib.Common.{ℕ, ◌≡◌, refl, arith, Option, none, some, List, [], ◌∷◌}
use common_lib.Container.LockFreeWorkQueue.{next_power_of_2, spread64}
use common_lib.Container.LockFreeWorkQueue.Shared.{
  Shared, pushed, popped, stolen, found_empty, create, grow, place, publish, look, race, own_step,
  push, pop, compare_exchange, steal_step, Move, pushes, pops, owner_goes, thief_goes, step,
}
use common_lib.Container.LockFreeWorkQueue.Shared.Invariant.{contents}
use common_lib.Container.LockFreeWorkQueue.Shared.Linear.{Yields}
use common_lib.Container.LockFreeWorkQueue.Shared.Reached.{Reached, begun, next, Reached-Yields}

abbrev out : Option (Shared ℕ) → Shared ℕ → Shared ℕ
out none s = s
out (some s') s = s'

abbrev after : List (Move ℕ) → Shared ℕ
after [] = create 1
after (m ∷ ms) = out (step m (after ms)) (after ms)

-- The moves, the latest first: 7 is pushed, thief 0 takes hold of it, the owner pops and sees the
-- last element, and the thief is faster.
abbrev pushing : List (Move ℕ)
pushing = owner_goes ∷ owner_goes ∷ owner_goes ∷ pushes 7 ∷ []

abbrev stealing : List (Move ℕ)
stealing = thief_goes 0 ∷ thief_goes 0 ∷ thief_goes 0 ∷ thief_goes 0 ∷ pushing

abbrev racing_moves : List (Move ℕ)
racing_moves = owner_goes ∷ owner_goes ∷ thief_goes 0 ∷ owner_goes ∷ pops ∷ stealing

race_log : (after racing_moves).log ≡ found_empty ∷ stolen (some 7) ∷ pushed 7 ∷ []
unfolding create grow place publish look race own_step push pop compare_exchange steal_step step
    next_power_of_2 spread64
race_log = refl

-- Without the thief the owner gets it.
alone_log :
    (after (owner_goes ∷ owner_goes ∷ owner_goes ∷ pops ∷ stealing)).log
    ≡ popped (some 7) ∷ pushed 7 ∷ []
unfolding create grow place publish look race own_step push pop compare_exchange steal_step step
    next_power_of_2 spread64
alone_log = refl

pushing-Reached : Reached 1 4 (after pushing)
unfolding create grow place publish own_step push step next_power_of_2 spread64
pushing-Reached =
    next 3 owner_goes _ _
      (next 2 owner_goes _ _ (next 1 owner_goes _ _ (next 0 (pushes 7) _ _ begun tt refl) tt refl)
        tt refl)
      tt refl

stealing-Reached : Reached 1 8 (after stealing)
unfolding create grow place publish own_step push step steal_step next_power_of_2 spread64
stealing-Reached =
    next 7 (thief_goes 0) _ _
      (next 6 (thief_goes 0) _ _
        (next 5 (thief_goes 0) _ _ (next 4 (thief_goes 0) _ _ pushing-Reached tt refl) tt refl) tt
        refl)
      tt refl

race-Reached : Reached 1 13 (after racing_moves)
unfolding create grow place publish look race own_step push pop compare_exchange step steal_step
    next_power_of_2 spread64
race-Reached =
    next 12 owner_goes _ _
      (next 11 owner_goes _ _
        (next 10 (thief_goes 0) _ _
          (next 9 owner_goes _ _ (next 8 pops _ _ stealing-Reached (omega arith) refl) tt refl) tt
          refl)
        tt refl)
      tt refl

Reached-Yields_example : Yields (after racing_moves).log (contents (after racing_moves))
Reached-Yields_example =
    Reached-Yields 1 13 (after racing_moves) (omega arith) (omega arith) race-Reached
