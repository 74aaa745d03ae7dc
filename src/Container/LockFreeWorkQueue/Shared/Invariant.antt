-- ===== src/Container/LockFreeWorkQueue/Shared/Invariant.antt =====
-- What holds between the steps of the owner and the thieves of a shared deque.
use common_lib.Common.{
  ℕ, suc, ◌+◌, ◌-◌, ◌*◌, ◌^◌, ◌≤◌, ◌<◌, ◌≡◌, sym, ◌∙◌, subst, arith, Option, some, List, ◌==◌,
  if◌then◌else◌, Bool-cases, inl, inr,
}
use common_lib.Container.LockFreeWorkQueue.Window.{window}
use common_lib.Container.LockFreeWorkQueue.Shared.{
  Owner, idle, popping, restoring, growing, placing, placed, racing, Thief, away, loaded, checked,
  holding, taken, Shared, set, get_in,
}

module _ {A : Type 0} where
  -- One past the last element: while `pop` is under way, the element that it may take still counts.
  abbrev pub limit_of : Owner A → ℕ → ℕ
  limit_of popping bottom = suc bottom
  limit_of (racing top item) bottom = suc bottom
  limit_of restoring bottom = suc bottom
  limit_of _ bottom = bottom

  abbrev pub limit : Shared A → ℕ
  limit s = limit_of s.owner s.bottom

  abbrev pub array_size : Shared A → ℕ
  array_size s = (s.arrays s.current).size

  abbrev pub contents : Shared A → List (Option A)
  contents s = window (s.arrays s.current).cells (array_size s) s.top (limit s - s.top)

  abbrev pub IsOwner : Shared A → Owner A → Type 0
  IsOwner s idle = Unit
  IsOwner s popping = Unit
  IsOwner s restoring = s.top ≡ suc s.bottom
  IsOwner s (growing item top) = (top ≤ s.top) × (s.bottom - top ≤ array_size s)
  IsOwner s (placing item top) = (top ≤ s.top) × (s.bottom - top < array_size s)
  IsOwner s (placed item top) =
      (top ≤ s.top) × (s.bottom - top < array_size s) × (get_in s s.current s.bottom ≡ some item)
  IsOwner s (racing top item) =
      (top ≡ s.bottom) × (top ≤ s.top) × (item ≡ get_in s s.current s.bottom)

  -- While `_top` is what the thief loaded, its element is in the deque.
  abbrev pub Sees : Shared A → ℕ → Type 0
  Sees s top = (top ≤ s.top) × (top ≡ s.top → top < limit s)

  abbrev pub IsThief : Shared A → Thief A → Type 0
  IsThief s away = Unit
  IsThief s (loaded top) = top ≤ s.top
  IsThief s (checked top) = Sees s top
  IsThief s (holding top g) =
      Sees s top × (g ≤ s.current) × (top ≡ s.top → get_in s g top ≡ get_in s s.current top)
  IsThief s (taken top item) = Sees s top × (top ≡ s.top → item ≡ get_in s s.current top)

  -- With so many steps to go.
  pub record IsShared (left : ℕ) (s : Shared A) : Type 0 where
    pub ordered : s.top ≤ limit s
    pub room : limit s - s.top ≤ array_size s
    pub positive : 0 < array_size s
    pub small : array_size s * 3 ≤ 2 ^ 63
    pub low : limit s + left < 2 ^ 60
    pub owner : IsOwner s s.owner
    pub thieves : (i : ℕ) → IsThief s (s.thieves i)

  -- A change that a thief can bear: `_top` does not come down, and if it stays, its element stays in
  -- the deque, in all arrays up to now and in the one after.
  pub record Spares (s s' : Shared A) : Type 0 where
    pub up : s.top ≤ s'.top
    pub numbers : s.current ≤ s'.current
    pub live : s'.top ≡ s.top → s.top < limit s → s.top < limit s'
    pub same :
        (g : ℕ)
        → s'.top ≡ s.top
        → s.top < limit s
        → g ≤ s.current
        → get_in s' g s.top ≡ get_in s g s.top
    pub latest :
        s'.top ≡ s.top → s.top < limit s → get_in s' s'.current s.top ≡ get_in s s.current s.top

  Sees-Spares : (s s' : Shared A) (top : ℕ) → Spares s s' → Sees s top → Sees s' top
  Sees-Spares s s' top k (le, live) = (
    omega (arith, k.up),
    λ e. omega (arith, k.live (omega (arith, k.up)) (omega (arith, live, k.up)), k.up),
  )

  pub IsThief-Spares : (s s' : Shared A) (th : Thief A) → Spares s s' → IsThief s th → IsThief s' th
  IsThief-Spares s s' away k h = tt
  IsThief-Spares s s' (loaded top) k h = omega (arith, k.up)
  IsThief-Spares s s' (checked top) k h = Sees-Spares s s' top k h
  IsThief-Spares s s' (holding top g) k ((le, live), known, agrees) = (
    Sees-Spares s s' top k (le, live),
    omega (arith, k.numbers),
    λ e.
        let here : top ≡ s.top = omega (arith, k.up) in
        let stays : s'.top ≡ s.top = sym e ∙ here in
        let inside : s.top < limit s = omega (arith, live here) in
        subst (λ t. get_in s' g t ≡ get_in s' s'.current t) (sym here)
          (k.same g stays inside known
            ∙ subst (λ t. get_in s g t ≡ get_in s s.current t) here (agrees here)
            ∙ sym (k.latest stays inside)),
  )
  IsThief-Spares s s' (taken top item) k ((le, live), agrees) = (
    Sees-Spares s s' top k (le, live),
    λ e.
        let here : top ≡ s.top = omega (arith, k.up) in
        let stays : s'.top ≡ s.top = sym e ∙ here in
        let inside : s.top < limit s = omega (arith, live here) in
        subst (λ t. item ≡ get_in s' s'.current t) (sym here)
          (subst (λ t. item ≡ get_in s s.current t) here (agrees here)
            ∙ sym (k.latest stays inside)),
  )

  -- All thieves but the one that moves.
  pub thieves-set :
      (s s' : Shared A) (i : ℕ) (th : Thief A)
      → Spares s s'
      → ((j : ℕ) → IsThief s (s.thieves j))
      → IsThief s' th
      → (j : ℕ) → IsThief s' (set s.thieves i th j)
  thieves-set s s' i th k h own j = elim (Bool-cases (j == i)) [
    | inl e ↦ subst (λ b. IsThief s' (if b then th else s.thieves j)) (sym e) own
    | inr e ↦
        subst (λ b. IsThief s' (if b then th else s.thieves j)) (sym e)
          (IsThief-Spares s s' (s.thieves j) k (h j))
  ]
