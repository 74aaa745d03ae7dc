-- ===== src/Container/LockFreeWorkQueue/Refine.antt =====
-- A client of the deque sees a double-ended list.
use common_lib.Common.{
  ℕ, zero, suc, ◌+◌, ◌^◌, ◌≤◌, ◌<◌, ◌≡◌, refl, ap, ap₂, sym, ◌∙◌, inl, inr, arith, Bool, true,
  false, Option, none, some, List, [], ◌∷◌, ◌++◌, map, length,
}
use common_lib.Container.LockFreeWorkQueue.{Deque, create, push, pop, steal, next_power_of_2}
use common_lib.Container.LockFreeWorkQueue.Capacity.{next_power_of_2-least}
use common_lib.Container.LockFreeWorkQueue.Laws.{
  contents, IsDeque, push-contents, pop-Pops, steal-Steals,
}

pub data Call {ℓ} (A : Type ℓ) : Type ℓ where
  pushes : A → Call A
  pops : Call A
  steals : Call A

-- What a call returns, and the element that it writes to `result`; nothing for a push.
abbrev pub Reply {ℓ} : Type ℓ → Type ℓ
Reply A = Option (Bool × Option A)

pub capacity : (n : ℕ) → n ≤ 2 ^ 60 → (0 < next_power_of_2 n) × (next_power_of_2 n ≤ 2 ^ 60)
unfolding next_power_of_2
capacity zero h = omega arith
capacity (suc n) h =
    let (k, e, le, least) = next_power_of_2-least (suc n) (omega arith) (omega arith) in
    omega (arith, e, le, least 60 h)

module _ {ℓ} {A : Type ℓ} where
  unfoldable pub run : List (Call A) → Deque A → List (Reply A)
  run [] d = []
  run (pushes x ∷ cs) d = none ∷ run cs (push x d)
  run (pops ∷ cs) d = let (ok, x, d') = pop d in some (ok, x) ∷ run cs d'
  run (steals ∷ cs) d = let (ok, x, d') = steal d in some (ok, x) ∷ run cs d'

  -- The owner's end is the end of the list, the thieves' end its head.
  unfoldable pub take_last : List A → (Bool × Option A) × List A
  take_last [] = ((false, none), [])
  take_last (x ∷ []) = ((true, some x), [])
  take_last (x ∷ y ∷ xs) = let (r, rest) = take_last (y ∷ xs) in (r, x ∷ rest)

  unfoldable pub take_first : List A → (Bool × Option A) × List A
  take_first [] = ((false, none), [])
  take_first (x ∷ xs) = ((true, some x), xs)

  unfoldable pub spec_run : List (Call A) → List A → List (Reply A)
  spec_run [] l = []
  spec_run (pushes x ∷ cs) l = none ∷ spec_run cs (l ++ x ∷ [])
  spec_run (pops ∷ cs) l = let (r, rest) = take_last l in some r ∷ spec_run cs rest
  spec_run (steals ∷ cs) l = let (r, rest) = take_first l in some r ∷ spec_run cs rest

  take_last-snoc : (ys : List A) (z : A) → take_last (ys ++ z ∷ []) ≡ ((true, some z), ys)
  unfolding take_last
  take_last-snoc [] z = refl
  take_last-snoc (y ∷ []) z = refl
  take_last-snoc (y ∷ y' ∷ ys) z = rw (take_last-snoc (y' ∷ ys) z)

  split_last :
      (xs : List A) (l : List (Option A)) (y : Option A)
      → map some xs ≡ l ++ y ∷ []
      → (ys : List A) × (z : A) × (xs ≡ ys ++ z ∷ []) × (l ≡ map some ys) × (y ≡ some z)
  split_last [] [] y e = cc
  split_last [] (a ∷ l) y e = cc
  split_last (x ∷ []) [] y e = ([], x, refl, refl, cc)
  split_last (x ∷ x' ∷ xs) [] y e = cc
  split_last (x ∷ xs) (a ∷ l) y e =
      let tails : map some xs ≡ l ++ y ∷ [] = cc in
      let (ys, z, whole, init, last) = split_last xs l y tails in
      (x ∷ ys, z, ap (λ t. x ∷ t) whole, ap₂ ◌∷◌ (cc) init, last)

  map-snoc : (xs : List A) (x : A) → map some (xs ++ x ∷ []) ≡ map some xs ++ some x ∷ []
  map-snoc [] x = refl
  map-snoc (y ∷ xs) x = ap (λ t. some y ∷ t) (map-snoc xs x)

  -- A call that answers as the list does, and leaves the deque with the list's rest.
  abbrev Answers : Deque A → Bool × Option A × Deque A → (Bool × Option A) × List A → Type ℓ
  Answers d o r =
      (o.0 ≡ r.0.0)
      × (o.1 ≡ r.0.1)
      × IsDeque o.2
      × (0 < o.2.bottom)
      × (o.2.bottom ≤ d.bottom)
      × (contents o.2 ≡ map some r.1)

  pop-Answers :
      (d : Deque A) (xs : List A)
      → IsDeque d
      → 0 < d.bottom
      → contents d ≡ map some xs
      → Answers d (pop d) (take_last xs)
  pop-Answers d xs v started e = elim (pop-Pops d v started) [
    | inl (none_left, q) ↦ rw q (empty xs none_left (sym none_left ∙ e))
    | inr (l, x, d', shown, q, rest, le, pos, v') ↦
        let (ys, z, whole, init, last) = split_last xs l x (sym e ∙ shown) in
        rw (q, whole, take_last-snoc ys z, last) (refl, refl, v', pos, le, rest ∙ init)
  ]
    where
      empty :
          (xs : List A)
          → contents d ≡ []
          → [] ≡ map some xs
          → Answers d (false, none, d) (take_last xs)
      empty [] none_left h = unfold take_last in (refl, refl, v, started, omega arith, none_left)
      empty (x ∷ xs) none_left h = cc

  steal-Answers :
      (d : Deque A) (xs : List A)
      → IsDeque d
      → 0 < d.bottom
      → contents d ≡ map some xs
      → Answers d (steal d) (take_first xs)
  unfolding take_first
  steal-Answers d xs v started e = elim (steal-Steals d v) [
    | inl (none_left, q) ↦ rw q (empty xs none_left (sym none_left ∙ e))
    | inr (x, d', shown, q, same, v') ↦ rw q (full xs x d' (sym e ∙ shown) same v')
  ]
    where
      empty :
          (xs : List A)
          → contents d ≡ []
          → [] ≡ map some xs
          → Answers d (false, none, d) (take_first xs)
      empty [] none_left h = (refl, refl, v, started, omega arith, none_left)
      empty (x ∷ xs) none_left h = cc

      full :
          (xs : List A) (x : Option A) (d' : Deque A)
          → map some xs ≡ x ∷ contents d'
          → d'.bottom ≡ d.bottom
          → IsDeque d'
          → Answers d (true, x, d') (take_first xs)
      full [] x d' h same v' = cc
      full (y ∷ xs) x d' h same v' = (refl, cc, v', omega arith, omega arith, cc)

  run-spec :
      (cs : List (Call A)) (d : Deque A) (xs : List A)
      → IsDeque d
      → 0 < d.bottom
      → d.bottom + length cs < 2 ^ 60
      → contents d ≡ map some xs
      → run cs d ≡ spec_run cs xs
  unfolding run spec_run
  run-spec [] d xs v started low e = refl
  run-spec (pushes x ∷ cs) d xs v started low e =
      let (v', up, e') = push-contents d x v (omega arith) in
      ap (λ t. none ∷ t)
        (run-spec cs (push x d) (xs ++ x ∷ []) v' (omega arith) (omega arith)
          (e' ∙ ap (λ t. t ++ some x ∷ []) e ∙ sym (map-snoc xs x)))
  run-spec (pops ∷ cs) d xs v started low e =
      let (ok, x, v', pos, le, e') = pop-Answers d xs v started e in
      ap₂ ◌∷◌ (ap₂ (λ a b. some (a, b)) ok x)
        (run-spec cs (pop d).2 (take_last xs).1 v' pos (omega arith) e')
  run-spec (steals ∷ cs) d xs v started low e =
      let (ok, x, v', pos, le, e') = steal-Answers d xs v started e in
      ap₂ ◌∷◌ (ap₂ (λ a b. some (a, b)) ok x)
        (run-spec cs (steal d).2 (take_first xs).1 v' pos (omega arith) e')

  create-IsDeque : (n : ℕ) → n ≤ 2 ^ 60 → IsDeque (create {A = A} n)
  unfolding create
  create-IsDeque n h = omega (arith, capacity n h)

  create-contents : (n : ℕ) → contents (create {A = A} n) ≡ []
  unfolding create
  create-contents n = refl

  -- With `_array` an atomic shared pointer and the new array of `push` made shared, without which the
  -- class does not compile: from its construction, with any capacity up to 2 ^ 60, a deque whose first
  -- call is a push answers every sequence of fewer than 2 ^ 59 calls as a double-ended list does,
  -- whatever the growth of its array: elements come off the owner's end newest first, off the thieves'
  -- end oldest first, each once.
  pub deque_refines :
      (initial : ℕ) (x : A) (cs : List (Call A))
      → initial ≤ 2 ^ 60
      → length cs < 2 ^ 59
      → run (pushes x ∷ cs) (create initial) ≡ spec_run (pushes x ∷ cs) []
  unfolding run spec_run
  deque_refines initial x cs h few =
      let (v, up, e) =
        push-contents (create initial) x (create-IsDeque initial h) (started initial) in
      ap (λ t. none ∷ t)
        (run-spec cs (push x (create initial)) (x ∷ []) v (omega (arith, up)) (low initial up)
          (e ∙ ap (λ l. l ++ some x ∷ []) (create-contents initial)))
    where
      started : (n : ℕ) → suc (create {A = A} n).bottom < 2 ^ 60
      started n = unfold create in omega arith

      low :
          (n : ℕ)
          → (push x (create n)).bottom ≡ suc (create {A = A} n).bottom
          → (push x (create n)).bottom + length cs < 2 ^ 60
      low n up = rw up (unfold create in omega (arith, few))
