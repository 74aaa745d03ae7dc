-- ===== src/Container/LockFreeWorkQueue/Shared/Pushes.antt =====
-- The steps of the owner in `push`, up to the growth of the array.
use common_lib.Common.{
  ℕ, suc, ◌-◌, ◌*◌, ◌/◌, ◌^◌, ◌≤◌, ◌<◌, ◌≡◌, ◌≢◌, refl, ap, sym, ◌∙◌, subst, arith, none, leb,
  if◌then◌else◌, Bool, Bool-cases, inl, inr,
}
use common_lib.Container.LockFreeWorkQueue.{get, add_size, sub_size, mul_size, resize}
use common_lib.Container.LockFreeWorkQueue.Window.{window, window-cong, copy_cells-get}
use common_lib.Container.LockFreeWorkQueue.Shared.{
  Owner, idle, popping, restoring, growing, placing, placed, racing, Shared, set, get_in, grow,
}
use common_lib.Container.LockFreeWorkQueue.Shared.Invariant.{
  limit_of, limit, array_size, IsOwner, IsThief-Spares, IsShared, Spares,
}
use common_lib.Container.LockFreeWorkQueue.Shared.Linear.{Kept, Yields-subst}

pub set_self : {B : Type 0} (f : ℕ → B) (i : ℕ) (x : B) → set f i x i ≡ x
set_self f i x = ground arith

pub set_other : {B : Type 0} (f : ℕ → B) (i j : ℕ) (x : B) → j ≢ i → set f i x j ≡ f j
set_other f i j x n = ground arith

module _ {A : Type 0} where
  IsOwner-owner :
      (s : Shared A) (o' o : Owner A) → IsOwner s o → IsOwner (record s { owner = o' }) o
  IsOwner-owner s o' idle h = h
  IsOwner-owner s o' popping h = h
  IsOwner-owner s o' restoring h = h
  IsOwner-owner s o' (growing item top) h = h
  IsOwner-owner s o' (placing item top) h = h
  IsOwner-owner s o' (placed item top) h = h
  IsOwner-owner s o' (racing top item) h = h

  -- Only the owner has moved, and what counts as an element is the same.
  pub owner-Kept :
      (left : ℕ) (s : Shared A) (o : Owner A)
      → IsShared (suc left) s
      → limit s ≡ limit_of o s.bottom
      → IsOwner s o
      → Kept left s (record s { owner = o })
  owner-Kept left s o v e h = (
    record {
      ordered = omega (arith, v.ordered, e);
      room = omega (arith, v.room, e);
      positive = v.positive;
      small = v.small;
      low = omega (arith, v.low, e);
      owner = IsOwner-owner s o o h;
      thieves = λ i. IsThief-Spares s s' (s.thieves i) spares (v.thieves i);
    },
    Yields-subst (ap (λ l. window (s.arrays s.current).cells (array_size s) s.top (l - s.top)) e),
  )
    where
      s' : Shared A
      s' = record s { owner = o }

      spares : Spares s s'
      spares = record {
        up = omega arith;
        numbers = omega arith;
        live = λ q lt. omega (arith, e, lt);
        same = λ g q lt le. refl;
        latest = λ q lt. refl;
      }

  -- The array is replaced by a copy twice as large.
  grown : Shared A → ℕ → Owner A → Shared A
  grown s top o = record s {
    arrays = set s.arrays (suc s.current) (record {
      size = mul_size (array_size s) 2;
      cells = resize (s.arrays s.current).cells (array_size s) s.bottom top;
    });
    current = suc s.current;
    resize_count = add_size s.resize_count 1;
    owner = o;
  }

  grown-get :
      (s : Shared A) (top j : ℕ) (o : Owner A)
      → top ≤ j
      → j < s.bottom
      → s.bottom - top ≤ array_size s
      → array_size s * 3 ≤ 2 ^ 63
      → get_in (grown s top o) (suc s.current) j ≡ get_in s s.current j
  unfolding grown resize
  grown-get s top j o lo hi room small =
      ap (λ b. get b.cells b.size j) (set_self s.arrays (suc s.current) _)
      ∙ copy_cells-get (s.arrays s.current).cells (array_size s) (s.bottom - top) top j (λ k. none)
          (omega arith) lo (omega arith)

  grown-old :
      (s : Shared A) (top g j : ℕ) (o : Owner A)
      → g ≤ s.current
      → get_in (grown s top o) g j ≡ get_in s g j
  unfolding grown
  grown-old s top g j o le =
      ap (λ b. get b.cells b.size j)
        (set_other s.arrays (suc s.current) g _ (λ e. absurd (omega arith)))

  grown-size :
      (s : Shared A) (top : ℕ) (o : Owner A)
      → array_size (grown s top o) ≡ mul_size (array_size s) 2
  unfolding grown
  grown-size s top o = ap (λ b. b.size) (set_self s.arrays (suc s.current) _)

  Spares-grown :
      (left top : ℕ) (item : A) (s : Shared A)
      → IsShared (suc left) s
      → s.owner ≡ growing item top
      → (top ≤ s.top) × (s.bottom - top ≤ array_size s)
      → Spares s (grown s top (placing item top))
  unfolding grown
  Spares-grown left top item s v o (le, room) = record {
    up = omega arith;
    numbers = omega arith;
    live = λ e lt. omega (arith, lt, bound);
    same = λ g e lt known. grown-old s top g s.top (placing item top) known;
    latest =
        λ e lt. grown-get s top s.top (placing item top) le (omega (arith, lt, bound)) room v.small;
  }
    where
      bound : limit s ≡ s.bottom
      bound = ap (λ x. limit_of x s.bottom) o

  grown-Kept :
      (left top : ℕ) (item : A) (s : Shared A)
      → IsShared (suc left) s
      → s.owner ≡ growing item top
      → (top ≤ s.top) × (s.bottom - top ≤ array_size s)
      → array_size s * 6 ≤ 2 ^ 63
      → Kept left s (grown s top (placing item top))
  unfolding grown
  grown-Kept left top item s v o (le, room) half =
      let bound : limit s ≡ s.bottom = ap (λ x. limit_of x s.bottom) o in
      let twice : array_size s' ≡ mul_size (array_size s) 2 = grown-size s top (placing item top) in
      (
        record {
          ordered = omega (arith, v.ordered, bound);
          room = omega (arith, v.room, v.small, bound, twice);
          positive = omega (arith, v.positive, v.small, twice);
          small = omega (arith, half, twice);
          low = omega (arith, v.low, bound);
          owner = (le, omega (arith, room, v.positive, v.small, twice));
          thieves = λ i.
              IsThief-Spares s s' (s.thieves i) (Spares-grown left top item s v o (le, room))
                (v.thieves i);
        },
        Yields-subst (
            ap (λ l. window (s.arrays s.current).cells (array_size s) s.top (l - s.top)) bound
            ∙ sym (
                window-cong (s'.arrays s'.current).cells (s.arrays s.current).cells (array_size s')
                  (array_size s) s.top (s.bottom - s.top)
                  (λ j lo hi.
                    grown-get s top j (placing item top) (omega (arith, le, lo)) (omega (arith, hi))
                      room v.small))),
      )
    where
      s' : Shared A
      s' = grown s top (placing item top)

  pub grow-Kept :
      (left top : ℕ) (item : A) (s : Shared A)
      → IsShared (suc left) s
      → s.owner ≡ growing item top
      → (top ≤ s.top) × (s.bottom - top ≤ array_size s)
      → Kept left s (record (grow top s) { owner = placing item top })
  unfolding grow grown
  grow-Kept left top item s v o (le, room) =
      elim (Bool-cases (leb (mul_size (array_size s) 3 / 4) (sub_size s.bottom top))) [
        | inr e ↦ subst (Kept left s) (sym (ap end e)) (
            owner-Kept left s (placing item top) v bound
              (le, ground (arith, e, v.small, v.positive, v.low, v.ordered, bound, le)))
        | inl e ↦ subst (Kept left s) (sym (ap end e)) (
            grown-Kept left top item s v o (le, room)
              (ground (arith, e, v.small, v.low, v.ordered, bound, le)))
      ]
    where
      bound : limit s ≡ s.bottom
      bound = ap (λ x. limit_of x s.bottom) o

      end : Bool → Shared A
      end b = record (if b then grown s top s.owner else s) { owner = placing item top }
