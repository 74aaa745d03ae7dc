-- ===== src/Container/LockFreeWorkQueue/Shared/Pops.antt =====
-- The steps of the owner in `pop`.
use common_lib.Common.{
  ℕ, suc, ◌+◌, ◌-◌, ◌≤◌, ◌<◌, ◌≡◌, refl, ap, ap₂, sym, ◌∙◌, subst, arith, Option, List, [], ◌∷◌,
  ◌++◌, ◌==◌, leb, if◌then◌else◌, Bool, Bool-cases, inl, inr,
}
use common_lib.Container.LockFreeWorkQueue.{add_size, sub_size}
use common_lib.Container.LockFreeWorkQueue.Window.{window, window-snoc}
use common_lib.Container.LockFreeWorkQueue.Shared.{
  Owner, idle, popping, restoring, racing, Event, popped, found_empty, Shared, get_in, look, race,
}
use common_lib.Container.LockFreeWorkQueue.Shared.Invariant.{
  limit_of, limit, array_size, contents, IsOwner, IsThief-Spares, IsShared, Spares,
}
use common_lib.Container.LockFreeWorkQueue.Shared.Linear.{
  pops, finds_none, IsLinear, Kept, Yields-subst,
}

module _ {A : Type 0} where
  -- `_bottom`, `_top`, the place of the owner and the log change, and no array.
  abbrev changed : Shared A → ℕ → ℕ → Owner A → List (Event A) → Shared A
  changed s top bottom o es = record s { top = top; bottom = bottom; owner = o; log = es }

  -- `_top` stays, and if an element is at `_top`, it stays in the deque; or `_top` goes up.
  changed-Kept :
      (left : ℕ) (s : Shared A) (top bottom : ℕ) (o : Owner A) (es : List (Event A))
      → IsShared (suc left) s
      → s.top ≤ top
      → top ≤ limit_of o bottom
      → limit_of o bottom ≤ limit s
      → (top ≡ s.top → s.top < limit s → s.top < limit_of o bottom)
      → IsOwner (changed s top bottom o es) o
      → (IsLinear s → IsLinear (changed s top bottom o es))
      → Kept left s (changed s top bottom o es)
  changed-Kept left s top bottom o es v up ordered down live own linear = (
    record {
      ordered = ordered;
      room = omega (arith, v.room, up, down);
      positive = v.positive;
      small = v.small;
      low = omega (arith, v.low, down);
      owner = own;
      thieves =
          λ i. IsThief-Spares s (changed s top bottom o es) (s.thieves i) spares (v.thieves i);
    },
    linear,
  )
    where
      spares : Spares s (changed s top bottom o es)
      spares = record {
        up = up;
        numbers = omega arith;
        live = live;
        same = λ g e lt known. refl;
        latest = λ e lt. refl;
      }

  module _ (left : ℕ) (s : Shared A) (v : IsShared (suc left) s) where
    -- `pop` begins, once something has been pushed.
    pub pop-Kept :
        s.owner ≡ idle
        → 0 < s.bottom
        → Kept left s (record s { bottom = sub_size s.bottom 1; owner = popping })
    pop-Kept o started =
        let bound : limit s ≡ s.bottom = ap (λ x. limit_of x s.bottom) o in
        let down : sub_size s.bottom 1 ≡ s.bottom - 1 = omega (arith, v.low, bound) in
        changed-Kept left s s.top (sub_size s.bottom 1) popping s.log v (omega arith)
          (omega (arith, v.ordered, bound, down)) (omega (arith, bound, down))
          (λ e lt. omega (arith, lt, bound, down)) tt
          (Yields-subst (
            ap (λ l. window (s.arrays s.current).cells (array_size s) s.top (l - s.top))
              (same s.bottom (sub_size s.bottom 1) (limit s) bound down started)))
      where
        same : (b b' l : ℕ) → l ≡ b → b' ≡ b - 1 → 0 < b → l ≡ suc b'
        same b b' l e e' h = omega arith

    -- The end of `pop`.
    pub restore-Kept :
        s.owner ≡ restoring
        → s.top ≡ suc s.bottom
        → Kept left s (record s { bottom = add_size s.bottom 1; owner = idle })
    restore-Kept o e =
        let bound : limit s ≡ suc s.bottom = ap (λ x. limit_of x s.bottom) o in
        let up : add_size s.bottom 1 ≡ suc s.bottom = omega (arith, v.low, bound) in
        changed-Kept left s s.top (add_size s.bottom 1) idle s.log v (omega arith)
          (omega (arith, e, up)) (omega (arith, bound, up)) (λ q lt. omega (arith, lt, bound, up))
          tt
          (Yields-subst (
            ap (λ l. window (s.arrays s.current).cells (array_size s) s.top (l - s.top))
              (bound ∙ sym up)))

    -- No element is left.
    none_left : limit s ≡ s.top → contents s ≡ []
    none_left e =
        ap (λ l. window (s.arrays s.current).cells (array_size s) s.top (l - s.top)) e
        ∙ ap (window (s.arrays s.current).cells (array_size s) s.top) (nought s.top)
      where
        nought : (n : ℕ) → n - n ≡ 0
        nought n = omega arith

    empty-Kept :
        limit s ≡ suc s.bottom
        → s.top ≡ suc s.bottom
        → Kept left s (record s { owner = restoring; log = found_empty ∷ s.log })
    empty-Kept bound e =
        changed-Kept left s s.top s.bottom restoring (found_empty ∷ s.log) v (omega arith)
          (omega (arith, e)) (omega (arith, bound)) (λ q lt. omega (arith, lt, bound)) e
          (λ y.
            Yields-subst (sym nothing_left ∙ same) (finds_none s.log (Yields-subst nothing_left y)))
      where
        nothing_left : contents s ≡ []
        nothing_left = none_left (bound ∙ sym e)

        same : contents s ≡ contents (record s { owner = restoring; log = found_empty ∷ s.log })
        same = ap (λ l. window (s.arrays s.current).cells (array_size s) s.top (l - s.top)) bound

    -- The last element.
    back :
        limit s ≡ suc s.bottom
        → s.top ≤ s.bottom
        → contents s
          ≡ window (s.arrays s.current).cells (array_size s) s.top (s.bottom - s.top)
            ++ get_in s s.current s.bottom ∷ []
    back bound le =
        ap (c s.top) (one_more (limit s) s.bottom s.top bound le)
        ∙ window-snoc (s.arrays s.current).cells (array_size s) s.top (s.bottom - s.top)
        ∙ ap (λ k. c s.top (s.bottom - s.top) ++ get_in s s.current k ∷ [])
            (place_of s.bottom s.top le)
      where
        c : ℕ → ℕ → List (Option A)
        c t n = window (s.arrays s.current).cells (array_size s) t n

        one_more : (l b t : ℕ) → l ≡ suc b → t ≤ b → l - t ≡ suc (b - t)
        one_more l b t e h = omega arith

        place_of : (b t : ℕ) → t ≤ b → t + (b - t) ≡ b
        place_of b t h = omega arith

    pub look-Kept : s.owner ≡ popping → Kept left s (look s)
    unfolding look
    look-Kept o = elim (Bool-cases (leb s.top s.bottom)) [
      | inr a ↦
          subst (Kept left s) (sym (ap (outer (s.top == s.bottom)) a))
            (empty-Kept bound (ground (arith, a, v.ordered, bound)))
      | inl a ↦ elim (Bool-cases (s.top == s.bottom)) [
        | inl b ↦ subst (Kept left s) (sym (ap (outer (s.top == s.bottom)) a ∙ ap inner b)) (
            changed-Kept left s s.top s.bottom (racing s.top item) s.log v (omega arith)
              (omega (arith, v.ordered, bound)) (omega (arith, bound))
              (λ q lt. omega (arith, lt, bound)) (ground (arith, b), omega arith, refl)
              (Yields-subst (
                ap (λ l. window (s.arrays s.current).cells (array_size s) s.top (l - s.top))
                  bound)))
        | inr b ↦ subst (Kept left s) (sym (ap (outer (s.top == s.bottom)) a ∙ ap inner b)) (
            let le : s.top ≤ s.bottom = ground (arith, a) in
            changed-Kept left s s.top s.bottom idle (popped item ∷ s.log) v (omega arith) le
              (omega (arith, bound)) (λ q lt. ground (arith, b, le)) tt
              (λ y.
                pops item s.log
                  (window (s.arrays s.current).cells (array_size s) s.top (s.bottom - s.top))
                  (Yields-subst (back bound le) y)))
      ]
    ]
      where
        bound : limit s ≡ suc s.bottom
        bound = ap (λ x. limit_of x s.bottom) o

        item : Option A
        item = get_in s s.current s.bottom

        inner : Bool → Shared A
        inner b =
            if b
            then record s { owner = racing s.top item }
            else record s { owner = idle; log = popped item ∷ s.log }

        outer : Bool → Bool → Shared A
        outer b a = if a then inner b else record s { owner = restoring; log = found_empty ∷ s.log }

    pub race-Kept :
        (top : ℕ) (item : Option A)
        → s.owner ≡ racing top item
        → (top ≡ s.bottom) × (top ≤ s.top) × (item ≡ get_in s s.current s.bottom)
        → Kept left s (race top item s)
    unfolding race
    race-Kept top item o (at_bottom, le, e) = elim (Bool-cases (s.top == top)) [
      | inr a ↦
          subst (Kept left s) (sym (ap end a))
            (empty-Kept bound (ground (arith, a, v.ordered, bound, le, at_bottom)))
      | inl a ↦ subst (Kept left s) (sym (ap end a)) (
          let here : s.top ≡ s.bottom = ground (arith, a, at_bottom) in
          let up : add_size top 1 ≡ suc s.bottom = omega (arith, v.low, bound, at_bottom) in
          changed-Kept left s (add_size top 1) s.bottom restoring (popped item ∷ s.log) v
            (omega (arith, here, up)) (omega (arith, up)) (omega (arith, bound))
            (λ q lt. absurd (omega (arith, here, up, q))) up
            (λ y. pops item s.log (rest (add_size top 1)) (Yields-subst (only here up) y)))
    ]
      where
        bound : limit s ≡ suc s.bottom
        bound = ap (λ x. limit_of x s.bottom) o

        rest : ℕ → List (Option A)
        rest t = window (s.arrays s.current).cells (array_size s) t (suc s.bottom - t)

        gone : (n : ℕ) → n - n ≡ 0
        gone n = omega arith

        only :
            s.top ≡ s.bottom
            → add_size top 1 ≡ suc s.bottom
            → contents s ≡ rest (add_size top 1) ++ item ∷ []
        only here up =
            back bound (omega (arith, here))
            ∙ ap₂ (λ l x. l ++ x ∷ [])
                (ap (λ t. window (s.arrays s.current).cells (array_size s) s.top (s.bottom - t))
                    here
                  ∙ ap (window (s.arrays s.current).cells (array_size s) s.top) (gone s.bottom)
                  ∙ sym (
                      ap rest up
                      ∙ ap (window (s.arrays s.current).cells (array_size s) (suc s.bottom))
                          (gone (suc s.bottom))))
                (sym e)

        end : Bool → Shared A
        end b =
            if b
            then record s { top = add_size top 1; owner = restoring; log = popped item ∷ s.log }
            else record s { owner = restoring; log = found_empty ∷ s.log }
