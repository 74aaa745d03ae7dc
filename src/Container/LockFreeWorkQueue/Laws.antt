-- ===== src/Container/LockFreeWorkQueue/Laws.antt =====
-- The deque as the list of its elements: what each call does to it.
use native.Mathlib.Decide.{dec_lt}
use common_lib.Common.{
  ℕ, suc, ◌+◌, ◌-◌, ◌*◌, ◌/◌, ◌^◌, ◌≤◌, ◌<◌, ◌≡◌, ◌⊎◌, refl, ap, sym, ◌∙◌, inl, inr, arith, true,
  false, Option, none, some, List, [], ◌∷◌, ◌++◌, ◌==◌, Bool-cases, leb,
}
use common_lib.Container.LockFreeWorkQueue.{
  get, put, mul_size, add_size, sub_size, copy_cells, resize, Deque, grow, append, push, pop, steal,
}
use common_lib.Container.LockFreeWorkQueue.Window.{
  window, window-cong, window-snoc, window-put, copy_cells-get,
}

-- The tests of `pop`, once something has been pushed.
before : (b : ℕ) → b < 2 ^ 60 → 0 < b → sub_size b 1 ≡ b - 1
before b low h = omega arith

nonempty : (t b : ℕ) → b < 2 ^ 60 → t < b → leb t (sub_size b 1) ≡ true
nonempty t b low h = ground arith

several : (t b : ℕ) → b < 2 ^ 60 → suc t < b → (t == sub_size b 1) ≡ false
several t b low h = ground arith

single : (t b : ℕ) → b < 2 ^ 60 → t < b → ¬ (suc t < b) → (t == sub_size b 1) ≡ true
single t b low h last = ground arith

next_top : (t b : ℕ) → b < 2 ^ 60 → t < b → add_size t 1 ≡ t + 1
next_top t b low h = omega arith

restored : (b : ℕ) → b < 2 ^ 60 → 0 < b → add_size (sub_size b 1) 1 ≡ b
restored b low h = omega arith

module _ {ℓ} {A : Type ℓ} where
  -- From `_top` up to `_bottom`.
  abbrev pub contents : Deque A → List (Option A)
  contents d = window d.cells d.size d.top (d.bottom - d.top)

  pub record IsDeque (d : Deque A) : Type 0 where
    pub ordered : d.top ≤ d.bottom
    pub room : d.bottom - d.top ≤ d.size
    pub positive : 0 < d.size
    pub small : d.size * 3 ≤ 2 ^ 63
    pub low : d.bottom < 2 ^ 60

  resize-window :
      (d : Deque A)
      → IsDeque d
      → window (resize d.cells d.size d.bottom d.top) (mul_size d.size 2) d.top (d.bottom - d.top)
        ≡ contents d
  unfolding resize
  resize-window d v =
      window-cong (copy_cells d.cells d.size (λ _. none) d.top (d.bottom - d.top)) d.cells
        (mul_size d.size 2) d.size d.top (d.bottom - d.top)
        λ j lo hi.
          copy_cells-get d.cells d.size (d.bottom - d.top) d.top j (λ _. none)
            (omega (arith, v.room, v.small)) lo hi

  grow-contents : (d : Deque A) → IsDeque d → contents (grow d) ≡ contents d
  unfolding grow
  grow-contents d v = elim (Bool-cases (leb (mul_size d.size 3 / 4) (sub_size d.bottom d.top))) [
    | inr e ↦ rw e
    | inl e ↦ rw e (resize-window d v)
  ]

  -- After it there is room for one more.
  grow-room :
      (d : Deque A)
      → IsDeque d
      → (d.bottom - d.top < (grow d).size)
        × ((grow d).size * 3 ≤ 2 ^ 63)
        × ((grow d).top ≡ d.top)
        × ((grow d).bottom ≡ d.bottom)
  unfolding grow
  grow-room d v = ground arith

  append-contents :
      (d : Deque A) (x : A)
      → d.top ≤ d.bottom
      → d.bottom - d.top < d.size
      → suc d.bottom < 2 ^ 64
      → contents (append d x) ≡ contents d ++ some x ∷ []
  unfolding append
  append-contents d x h room low =
      ap (window (put d.cells d.size d.bottom (some x)) d.size d.top)
        (one_more d.bottom d.top h low)
      ∙ window-put d.cells d.size d.top (d.bottom - d.top) d.bottom (some x) (omega arith) room
    where
      one_more : (b t : ℕ) → t ≤ b → suc b < 2 ^ 64 → add_size b 1 - t ≡ suc (b - t)
      one_more b t h low = omega arith

  append-IsDeque :
      (d : Deque A) (x : A)
      → d.top ≤ d.bottom
      → d.bottom - d.top < d.size
      → d.size * 3 ≤ 2 ^ 63
      → suc d.bottom < 2 ^ 60
      → IsDeque (append d x) × ((append d x).bottom ≡ suc d.bottom)
  unfolding append
  append-IsDeque d x h room small low = omega arith

  -- A push adds its element at the end.
  pub push-contents :
      (d : Deque A) (x : A)
      → IsDeque d
      → suc d.bottom < 2 ^ 60
      → IsDeque (push x d)
        × ((push x d).bottom ≡ suc d.bottom)
        × (contents (push x d) ≡ contents d ++ some x ∷ [])
  unfolding push
  push-contents d x v h =
      let (room, small, top, bottom) = grow-room d v in
      let (valid, up) =
        append-IsDeque (grow d) x (omega (arith, v.ordered)) (omega arith) small (omega arith) in
      (
        valid,
        up ∙ ap suc bottom,
        append-contents (grow d) x (omega (arith, v.ordered)) (omega arith) (omega arith)
            ∙ ap (λ l. l ++ some x ∷ []) (grow-contents d v),
      )

  no_window : (d : Deque A) → d.bottom ≤ d.top → contents d ≡ []
  no_window d h = ap (window d.cells d.size d.top) (none_left d.bottom d.top h)
    where
      none_left : (b t : ℕ) → b ≤ t → b - t ≡ 0
      none_left b t h = omega arith

  front_window :
      (d : Deque A)
      → d.top < d.bottom
      → contents d
        ≡ get d.cells d.size d.top ∷ window d.cells d.size (d.top + 1) (d.bottom - (d.top + 1))
  front_window d h = ap (window d.cells d.size d.top) (one_more d.bottom d.top h)
    where
      one_more : (b t : ℕ) → t < b → b - t ≡ suc (b - (t + 1))
      one_more b t h = omega arith

  back_window :
      (d : Deque A)
      → d.top < d.bottom
      → contents d
        ≡ window d.cells d.size d.top (d.bottom - 1 - d.top)
          ++ get d.cells d.size (d.bottom - 1) ∷ []
  back_window d h =
      ap (window d.cells d.size d.top) (one_more d.bottom d.top h)
      ∙ window-snoc d.cells d.size d.top (d.bottom - 1 - d.top)
      ∙ ap (λ k. window d.cells d.size d.top (d.bottom - 1 - d.top) ++ get d.cells d.size k ∷ [])
          (last d.bottom d.top h)
    where
      one_more : (b t : ℕ) → t < b → b - t ≡ suc (b - 1 - t)
      one_more b t h = omega arith

      last : (b t : ℕ) → t < b → t + (b - 1 - t) ≡ b - 1
      last b t h = omega arith

  -- What `pop` does to a deque whose elements are `l`, once something has been pushed: it takes the
  -- last element, or fails and changes nothing if there is none.
  abbrev pub Pops : Deque A → Type ℓ
  Pops d =
      ((contents d ≡ []) × (pop d ≡ (false, none, d)))
      ⊎ ((l : List (Option A)) × (x : Option A) × (d' : Deque A) × (contents d ≡ l ++ x ∷ [])
          × (pop d ≡ (true, x, d'))
          × (contents d' ≡ l)
          × (d'.bottom ≤ d.bottom)
          × (0 < d'.bottom)
          × IsDeque d')

  pub pop-Pops : (d : Deque A) → IsDeque d → 0 < d.bottom → Pops d
  unfolding pop
  pop-Pops d v started = elim (dec_lt d.top d.bottom) [
    | no none_left ↦ inl (no_window d (omega arith), ground arith)
    | yes some_left ↦ elim (dec_lt (suc d.top) d.bottom) [
      | yes many ↦ inr (
        window d.cells d.size d.top (d.bottom - 1 - d.top),
        get d.cells d.size (d.bottom - 1),
        record d { bottom = d.bottom - 1 },
        back_window d some_left,
        rw (nonempty d.top d.bottom v.low some_left, several d.top d.bottom v.low many)
            (rw (before d.bottom v.low started)),
        refl,
        omega arith,
        omega arith,
        omega (arith, v.ordered, v.room, v.positive, v.small, v.low),
      )
      | no last ↦ inr (
        window d.cells d.size d.top (d.bottom - 1 - d.top),
        get d.cells d.size (d.bottom - 1),
        record d { top = d.top + 1 },
        back_window d some_left,
        rw (nonempty d.top d.bottom v.low some_left, single d.top d.bottom v.low some_left last)
            (rw (next_top d.top d.bottom v.low some_left, restored d.bottom v.low started)
              (rw (before d.bottom v.low started))),
        no_window (record d { top = d.top + 1 }) (omega arith)
            ∙ sym (no_window (record d { bottom = d.bottom - 1 }) (omega arith)),
        omega arith,
        omega arith,
        omega (arith, v.ordered, v.room, v.positive, v.small, v.low),
      )
    ]
  ]

  abbrev pub Steals : Deque A → Type ℓ
  Steals d =
      ((contents d ≡ []) × (steal d ≡ (false, none, d)))
      ⊎ ((x : Option A) × (d' : Deque A) × (contents d ≡ x ∷ contents d')
          × (steal d ≡ (true, x, d'))
          × (d'.bottom ≡ d.bottom)
          × IsDeque d')

  pub steal-Steals : (d : Deque A) → IsDeque d → Steals d
  unfolding steal
  steal-Steals d v = elim (dec_lt d.top d.bottom) [
    | no none_left ↦ inl (no_window d (omega arith), ground arith)
    | yes some_left ↦ inr (
      get d.cells d.size d.top,
      record d { top = d.top + 1 },
      front_window d some_left,
      ground arith,
      refl,
      omega (arith, v.ordered, v.room, v.positive, v.small, v.low),
    )
  ]
