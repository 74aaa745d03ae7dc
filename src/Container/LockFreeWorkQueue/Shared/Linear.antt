-- ===== src/Container/LockFreeWorkQueue/Shared/Linear.antt =====
-- The events of a shared deque as those of a double-ended list.
use common_lib.Common.{ℕ, ◌≡◌, subst, Option, some, List, [], ◌∷◌, ◌++◌}
use common_lib.Container.LockFreeWorkQueue.Shared.{
  Event, pushed, popped, stolen, found_empty, Shared,
}
use common_lib.Container.LockFreeWorkQueue.Shared.Invariant.{contents, IsShared}

-- One event after the other, each done at once to a list, lead from no elements to these: a push adds
-- its element at the end, a `pop` takes the last and returns it, or finds none, and a `steal` takes
-- the first and returns it.
pub data Yields {A : Type 0} : List (Event A) → List (Option A) → Type 0 where
  nothing : Yields [] []
  pushes :
      (x : A) (es : List (Event A)) (l : List (Option A))
      → Yields es l
      → Yields (pushed x ∷ es) (l ++ some x ∷ [])
  pops :
      (x : Option A) (es : List (Event A)) (l : List (Option A))
      → Yields es (l ++ x ∷ [])
      → Yields (popped x ∷ es) l
  finds_none : (es : List (Event A)) → Yields es [] → Yields (found_empty ∷ es) []
  steals :
      (x : Option A) (es : List (Event A)) (l : List (Option A))
      → Yields es (x ∷ l)
      → Yields (stolen x ∷ es) l

module _ {A : Type 0} where
  -- The elements are those that the events lead to.
  abbrev pub IsLinear : Shared A → Type 0
  IsLinear s = Yields s.log (contents s)

  -- What a step keeps.
  abbrev pub Kept : ℕ → Shared A → Shared A → Type 0
  Kept left s s' = IsShared left s' × (IsLinear s → IsLinear s')

  pub Yields-subst :
      {es : List (Event A)} {l l' : List (Option A)} → l ≡ l' → Yields es l → Yields es l'
  Yields-subst {es} e y = subst (Yields es) e y
