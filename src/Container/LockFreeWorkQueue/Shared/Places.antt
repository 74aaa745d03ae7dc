-- ===== src/Container/LockFreeWorkQueue/Shared/Places.antt =====
-- The steps of the owner in `push` that write the element and publish it.
use native.Mathlib.Decide.{ℕ_discrete}
use common_lib.Common.{
  ℕ, suc, ◌+◌, ◌-◌, ◌≤◌, ◌<◌, ◌≡◌, refl, ap, sym, ◌∙◌, arith, Option, some, List, [], ◌∷◌, ◌++◌,
}
use common_lib.Container.LockFreeWorkQueue.{get, add_size}
use common_lib.Container.LockFreeWorkQueue.Window.{
  window, window-cong, window-snoc, get-put_ne, get-put_self, mod-ne,
}
use common_lib.Container.LockFreeWorkQueue.Shared.{
  placing, placed, Shared, set, get_in, place, publish,
}
use common_lib.Container.LockFreeWorkQueue.Shared.Invariant.{
  limit_of, limit, array_size, contents, IsThief-Spares, IsShared, Spares,
}
use common_lib.Container.LockFreeWorkQueue.Shared.Linear.{pushes, Kept, Yields-subst}
use common_lib.Container.LockFreeWorkQueue.Shared.Pushes.{set_self, set_other}

module _ {A : Type 0} where
  -- The element is written behind the last.
  abbrev pub written : Shared A → A → ℕ → Shared A
  written s item top = record (place item s) { owner = placed item top }

  written-get :
      (s : Shared A) (item : A) (top g j : ℕ)
      → j < s.bottom
      → s.bottom < j + array_size s
      → get_in (written s item top) g j ≡ get_in s g j
  unfolding place
  written-get s item top g j lt near = elim (ℕ_discrete g s.current) [
    | no n ↦ ap (λ b. get b.cells b.size j) (set_other s.arrays s.current g _ n)
    | yes e ↦
        ap (λ b. get b.cells b.size j)
          (ap (set s.arrays s.current _) e ∙ set_self s.arrays s.current _)
        ∙ get-put_ne (s.arrays s.current).cells (array_size s) j s.bottom (some item)
            (mod-ne j s.bottom (array_size s) lt near)
        ∙ ap (λ k. get_in s k j) (sym e)
  ]

  pub place-Kept :
      (left top : ℕ) (item : A) (s : Shared A)
      → IsShared (suc left) s
      → s.owner ≡ placing item top
      → (top ≤ s.top) × (s.bottom - top < array_size s)
      → Kept left s (written s item top)
  unfolding place
  place-Kept left top item s v o (le, room) =
      let bound : limit s ≡ s.bottom = ap (λ x. limit_of x s.bottom) o in
      let same : array_size s' ≡ array_size s = ap (λ b. b.size) (set_self s.arrays s.current _) in
      (
        record {
          ordered = omega (arith, v.ordered, bound);
          room = omega (arith, v.room, bound, same);
          positive = omega (arith, v.positive, same);
          small = omega (arith, v.small, same);
          low = omega (arith, v.low, bound);
          owner = (
            le,
            omega (arith, room, same),
            ap (λ b. get b.cells b.size s.bottom) (set_self s.arrays s.current _)
                ∙ get-put_self (s.arrays s.current).cells (array_size s) s.bottom s.bottom
                    (some item) refl,
          );
          thieves = λ i. IsThief-Spares s s' (s.thieves i) (spares bound) (v.thieves i);
        },
        Yields-subst (
            ap (λ l. window (s.arrays s.current).cells (array_size s) s.top (l - s.top)) bound
            ∙ sym (
                window-cong (s'.arrays s'.current).cells (s.arrays s.current).cells (array_size s')
                  (array_size s) s.top (s.bottom - s.top)
                  (λ j lo hi.
                    written-get s item top s.current j (omega (arith, hi))
                      (omega (arith, lo, room, le))))),
      )
    where
      s' : Shared A
      s' = written s item top

      spares : limit s ≡ s.bottom → Spares s s'
      spares bound = record {
        up = omega arith;
        numbers = omega arith;
        live = λ e lt. omega (arith, lt, bound);
        same = λ g e lt known.
            written-get s item top g s.top (omega (arith, lt, bound)) (omega (arith, room, le));
        latest = λ e lt.
            written-get s item top s.current s.top (omega (arith, lt, bound))
              (omega (arith, room, le));
      }

  pub publish-Kept :
      (left top : ℕ) (item : A) (s : Shared A)
      → IsShared (suc left) s
      → s.owner ≡ placed item top
      → (top ≤ s.top) × (s.bottom - top < array_size s) × (get_in s s.current s.bottom ≡ some item)
      → Kept left s (publish item top s)
  unfolding publish
  publish-Kept left top item s v o (le, room, at_end) =
      let bound : limit s ≡ s.bottom = ap (λ x. limit_of x s.bottom) o in
      let up : add_size s.bottom 1 ≡ suc s.bottom = omega (arith, v.low, bound) in
      (
        record {
          ordered = omega (arith, v.ordered, bound, up);
          room = omega (arith, v.ordered, room, le, bound, up);
          positive = v.positive;
          small = v.small;
          low = omega (arith, v.low, bound, up);
          owner = tt;
          thieves = λ i. IsThief-Spares s s' (s.thieves i) (spares bound up) (v.thieves i);
        },
        λ y. Yields-subst (sym (longer bound up)) (pushes item s.log (contents s) y),
      )
    where
      s' : Shared A
      s' = publish item top s

      spares : limit s ≡ s.bottom → add_size s.bottom 1 ≡ suc s.bottom → Spares s s'
      spares bound up = record {
        up = omega arith;
        numbers = omega arith;
        live = λ e lt. omega (arith, lt, bound, up);
        same = λ g e lt known. refl;
        latest = λ e lt. refl;
      }

      c : ℕ → ℕ → List (Option A)
      c t n = window (s.arrays s.current).cells (array_size s) t n

      one_more : (b t l : ℕ) → t ≤ l → l ≡ b → suc b - t ≡ suc (b - t)
      one_more b t l h e = omega arith

      place_of : (b t l : ℕ) → t ≤ l → l ≡ b → t + (b - t) ≡ b
      place_of b t l h e = omega arith

      longer :
          limit s ≡ s.bottom
          → add_size s.bottom 1 ≡ suc s.bottom
          → contents s' ≡ contents s ++ some item ∷ []
      longer bound up =
          ap (λ b. c s.top (b - s.top)) up
          ∙ ap (c s.top) (one_more s.bottom s.top (limit s) v.ordered bound)
          ∙ window-snoc (s.arrays s.current).cells (array_size s) s.top (s.bottom - s.top)
          ∙ ap (λ k. c s.top (s.bottom - s.top) ++ get_in s s.current k ∷ [])
              (place_of s.bottom s.top (limit s) v.ordered bound)
          ∙ ap (λ x. c s.top (s.bottom - s.top) ++ x ∷ []) at_end
          ∙ ap (λ l. c s.top (l - s.top) ++ some item ∷ []) (sym bound)
