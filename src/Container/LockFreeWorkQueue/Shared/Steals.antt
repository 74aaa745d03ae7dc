-- ===== src/Container/LockFreeWorkQueue/Shared/Steals.antt =====
-- The steps of a thief.
use common_lib.Common.{
  ℕ, suc, ◌+◌, ◌-◌, ◌≤◌, ◌<◌, ◌≡◌, refl, ap, sym, ◌∙◌, subst, arith, Option, ◌∷◌, ◌==◌, ltb,
  if◌then◌else◌, Bool-cases, inl, inr, Bool,
}
use common_lib.Container.LockFreeWorkQueue.{add_size}
use common_lib.Container.LockFreeWorkQueue.Window.{window}
use common_lib.Container.LockFreeWorkQueue.Shared.{
  Owner, idle, popping, restoring, growing, placing, placed, racing, Thief, away, loaded, checked,
  holding, taken, stolen, Shared, set, get_in, compare_exchange, steal_step,
}
use common_lib.Container.LockFreeWorkQueue.Shared.Invariant.{
  limit_of, limit, array_size, contents, IsOwner, IsThief, IsShared, Spares, thieves-set,
}
use common_lib.Container.LockFreeWorkQueue.Shared.Linear.{steals, Kept, Yields-subst}

module _ {A : Type 0} where
  -- Only the thieves have moved.
  Spares-thieves : (s : Shared A) (f : ℕ → Thief A) → Spares s (record s { thieves = f })
  Spares-thieves s f = record {
    up = omega arith;
    numbers = omega arith;
    live = λ e h. h;
    same = λ g e h le. refl;
    latest = λ e h. refl;
  }

  IsOwner-thieves :
      (s : Shared A) (f : ℕ → Thief A) (o : Owner A)
      → IsOwner s o
      → IsOwner (record s { thieves = f }) o
  IsOwner-thieves s f idle h = h
  IsOwner-thieves s f popping h = h
  IsOwner-thieves s f restoring h = h
  IsOwner-thieves s f (growing item top) h = h
  IsOwner-thieves s f (placing item top) h = h
  IsOwner-thieves s f (placed item top) h = h
  IsOwner-thieves s f (racing top item) h = h

  -- Thief `i` has come to `th`.
  moved :
      (left i : ℕ) (th : Thief A) (s : Shared A)
      → IsShared (suc left) s
      → IsThief (record s { thieves = set s.thieves i th }) th
      → Kept left s (record s { thieves = set s.thieves i th })
  moved left i th s v h = (
    record {
      ordered = v.ordered;
      room = v.room;
      positive = v.positive;
      small = v.small;
      low = omega (arith, v.low);
      owner = IsOwner-thieves s (set s.thieves i th) s.owner v.owner;
      thieves =
          thieves-set s (record s { thieves = set s.thieves i th }) i th
            (Spares-thieves s (set s.thieves i th)) v.thieves h;
    },
    λ y. y,
  )

  -- A thief gets the element at `_top`.
  won : Shared A → ℕ → Option A → Shared A
  won s i item = record s {
    top = s.top + 1;
    thieves = set s.thieves i away;
    log = stolen item ∷ s.log;
  }

  Spares-won : (s : Shared A) (i : ℕ) (item : Option A) → Spares s (won s i item)
  unfolding won
  Spares-won s i item = record {
    up = omega arith;
    numbers = omega arith;
    live = λ e h. absurd (omega arith);
    same = λ g e h le. absurd (omega arith);
    latest = λ e h. absurd (omega arith);
  }

  IsOwner-won :
      (s : Shared A) (i : ℕ) (item : Option A) (o : Owner A)
      → s.top < limit_of o s.bottom
      → IsOwner s o
      → IsOwner (won s i item) o
  unfolding won
  IsOwner-won s i item idle lt h = h
  IsOwner-won s i item popping lt h = h
  IsOwner-won s i item restoring lt h = absurd (omega arith)
  IsOwner-won s i item (growing x top) lt h = (omega arith, h.1)
  IsOwner-won s i item (placing x top) lt h = (omega arith, h.1)
  IsOwner-won s i item (placed x top) lt h = (omega arith, h.1, h.2)
  IsOwner-won s i item (racing top x) lt h = (h.0, omega arith, h.2)

  won-Kept :
      (left i : ℕ) (item : Option A) (s : Shared A)
      → IsShared (suc left) s
      → s.top < limit s
      → item ≡ get_in s s.current s.top
      → Kept left s (won s i item)
  unfolding won
  won-Kept left i item s v lt e = (
    record {
      ordered = omega arith;
      room = omega (arith, v.room);
      positive = v.positive;
      small = v.small;
      low = omega (arith, v.low);
      owner = IsOwner-won s i item s.owner lt v.owner;
      thieves = thieves-set s (won s i item) i away (Spares-won s i item) v.thieves tt;
    },
    λ y. steals item s.log (contents (won s i item)) (Yields-subst first_one y),
  )
    where
      one_more : (l t : ℕ) → t < l → l - t ≡ suc (l - (t + 1))
      one_more l t h = omega arith

      first_one : contents s ≡ item ∷ contents (won s i item)
      first_one =
          ap (window (s.arrays s.current).cells (array_size s) s.top) (one_more (limit s) s.top lt)
          ∙ ap (λ x. x ∷ contents (won s i item)) (sym e)

  compare_exchange-Kept :
      (left i top : ℕ) (item : Option A) (s : Shared A)
      → IsShared (suc left) s
      → IsThief s (taken top item)
      → Kept left s (compare_exchange i top item s)
  unfolding compare_exchange won
  compare_exchange-Kept left i top item s v ((le, live), agrees) =
      elim (Bool-cases (s.top == top)) [
        | inr e ↦ subst (Kept left s) (sym (ap end e)) (moved left i away s v tt)
        | inl e ↦
            let here : top ≡ s.top = ground (arith, e) in
            subst (Kept left s) (sym (ap end e)) (
              subst (λ k. Kept left s (record (won s i item) { top = k })) (next here)
                (won-Kept left i item s v (omega (arith, live here, here))
                  (subst (λ t. item ≡ get_in s s.current t) here (agrees here))))
      ]
    where
      end : Bool → Shared A
      end b =
          if b
          then record s {
            top = add_size top 1;
            thieves = set s.thieves i away;
            log = stolen item ∷ s.log;
          }
          else record s { thieves = set s.thieves i away }

      next : top ≡ s.top → s.top + 1 ≡ add_size top 1
      next here = omega (arith, v.low, v.ordered, here)

  limit-ge : (o : Owner A) (bottom : ℕ) → bottom ≤ limit_of o bottom
  limit-ge o bottom = ground arith

  pub steal-Kept :
      (left i : ℕ) (s : Shared A) (th : Thief A)
      → IsShared (suc left) s
      → IsThief s th
      → Kept left s (steal_step i th s)
  unfolding steal_step
  steal-Kept left i s away v h = moved left i (loaded s.top) s v (omega arith)
  steal-Kept left i s (loaded top) v h = elim (Bool-cases (ltb top s.bottom)) [
    | inr e ↦ subst (λ b. Kept left s (goes b)) (sym e) (moved left i away s v tt)
    | inl e ↦
        subst (λ b. Kept left s (goes b)) (sym e)
          (moved left i (checked top) s v (h, λ q. ground (arith, e, limit-ge s.owner s.bottom)))
  ]
    where
      goes : Bool → Shared A
      goes b = record s { thieves = set s.thieves i (if b then checked top else away) }
  steal-Kept left i s (checked top) v h =
      moved left i (holding top s.current) s v (h, omega arith, λ e. refl)
  steal-Kept left i s (holding top g) v (sees, known, agrees) =
      moved left i (taken top (get_in s g top)) s v (sees, agrees)
  steal-Kept left i s (taken top item) v h = compare_exchange-Kept left i top item s v h
