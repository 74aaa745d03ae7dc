-- ===== src/Singleton/Lazy/Laws.antt =====
-- When the calls of `get_instance` agree.
use native.Mathlib.Decide.{ℕ_discrete}
use common_lib.Common.{
  ℕ, ◌≡◌, ◌≢◌, refl, ap, sym, ◌∙◌, subst, arith, inl, inr, Option, none, some, List, [], ◌∷◌,
  Bool-cases, ◌==◌, if◌then◌else◌,
}
use common_lib.Singleton.{put}
use common_lib.Singleton.Lazy.{
  Place, testing, making, returning, assigning, returned, Lazy, start, test, call_step, run,
}

-- A call that goes on with the instance `x`.
abbrev Agrees : Option ℕ → Place → Type 0
Agrees x testing = Unit
Agrees x returning = Unit
Agrees x making = x ≡ none
Agrees x (assigning y) = x ≡ none
Agrees x (returned y) = y ≡ x

-- The instance is made, and no call is about to make another.
abbrev IsSettled : ℕ → Lazy → Type 0
IsSettled x s = (s.instance_of ≡ some x) × ((i : ℕ) → Agrees (some x) (s.place i))

Agrees-put :
    (x : Option ℕ) (f : ℕ → Place) (i : ℕ) (p : Place)
    → ((j : ℕ) → Agrees x (f j))
    → Agrees x p
    → (j : ℕ) → Agrees x (put f i p j)
Agrees-put x f i p h own j = elim (Bool-cases (i == j)) [
  | inl e ↦ subst (λ b. Agrees x (if b then p else f j)) (sym e) own
  | inr e ↦ subst (λ b. Agrees x (if b then p else f j)) (sym e) (h j)
]

call_step-IsSettled :
    (x i : ℕ) (s : Lazy) (p : Place)
    → IsSettled x s
    → Agrees (some x) p
    → IsSettled x (call_step i p s)
unfolding call_step
call_step-IsSettled x i s testing (e, h) a = (
  e,
  Agrees-put (some x) s.place i _ h
      (subst (λ o. Agrees (some x) (test o)) (sym e) (unfold test in tt)),
)
call_step-IsSettled x i s making (e, h) a = absurd (let clash : some x ≡ none = a in cc)
call_step-IsSettled x i s (assigning y) (e, h) a = absurd (let clash : some x ≡ none = a in cc)
call_step-IsSettled x i s returning (e, h) a = (e, Agrees-put (some x) s.place i _ h e)
call_step-IsSettled x i s (returned y) (e, h) a = (e, h)

run-IsSettled : (x : ℕ) (is : List ℕ) (s : Lazy) → IsSettled x s → IsSettled x (run is s)
unfolding run
run-IsSettled x [] s v = v
run-IsSettled x (i ∷ is) s v =
    run-IsSettled x is (call_step i (s.place i) s) (call_step-IsSettled x i s (s.place i) v (v.1 i))

put_self : (f : ℕ → Place) (i : ℕ) (p : Place) → put f i p i ≡ p
put_self f i p = ground arith

put_ne : (f : ℕ → Place) (i j : ℕ) (p : Place) → i ≢ j → put f i p j ≡ f j
put_ne f i j p n = ground arith

run-next :
    (i : ℕ) (is : List ℕ) (s : Lazy) (p : Place)
    → s.place i ≡ p
    → run (i ∷ is) s ≡ run is (call_step i p s)
unfolding run
run-next i is s p e = ap (λ p. run is (call_step i p s)) e

run-nil : (s : Lazy) → run [] s ≡ s
unfolding run
run-nil s = refl

-- A call that begins makes the instance, and is next to its assignment.
abbrev made_by : ℕ → Lazy
made_by i = record {
  instance_of = none;
  place = put (put start.place i making) i (assigning 0);
  made = 1;
}

-- A call of thread `i` alone.
first_call :
    (i : ℕ) (is : List ℕ)
    → (s : Lazy) × (IsSettled 0 s) × (run (i ∷ i ∷ i ∷ i ∷ is) start ≡ run is s)
unfolding call_step test
first_call i is = (
  call_step i returning (call_step i (assigning 0) (made_by i)),
  (
    refl,
    λ j. elim (ℕ_discrete i j) [
      | yes e ↦
          subst (Agrees (some 0))
            (sym (ap (λ k. put p3 i (returned (some 0)) k) (sym e) ∙ put_self p3 i _)) refl
      | no n ↦
          subst (Agrees (some 0))
            (sym (
              put_ne p3 i j _ n
              ∙ put_ne p2 i j _ n
              ∙ put_ne p1 i j _ n
              ∙ put_ne start.place i j _ n))
            tt
    ],
  ),
  run-next i (i ∷ i ∷ i ∷ is) start testing refl
      ∙ run-next i (i ∷ i ∷ is) _ making (put_self start.place i making)
      ∙ run-next i (i ∷ is) (made_by i) (assigning 0) (put_self p1 i _)
      ∙ run-next i is (call_step i (assigning 0) (made_by i)) returning (put_self p2 i _),
)
  where
    p1 : ℕ → Place
    p1 = put start.place i making

    p2 : ℕ → Place
    p2 = put p1 i (assigning 0)

    p3 : ℕ → Place
    p3 = put p2 i returning

-- If one call returns before any other begins, then however the later calls interleave, all that
-- return have returned the instance of the first.
pub run-first :
    (i j : ℕ) (is : List ℕ) (o : Option ℕ)
    → (run (i ∷ i ∷ i ∷ i ∷ is) start).place j ≡ returned o
    → o ≡ some 0
run-first i j is o e =
    let (s, v, f) = first_call i is in
    subst (Agrees (some 0)) (ap (λ s. s.place j) (sym f) ∙ e) ((run-IsSettled 0 is s v).1 j)

-- If a second thread tests the pointer before the first has assigned it, then both make an instance,
-- and the calls return different ones.
pub run-twice :
    (i j : ℕ)
    → i ≢ j
    → let s = run (i ∷ j ∷ i ∷ i ∷ i ∷ j ∷ j ∷ j ∷ []) start in
      (s.place i ≡ returned (some 0)) × (s.place j ≡ returned (some 1)) × (s.made ≡ 2)
unfolding call_step test
run-twice i j n =
    subst (λ s. (s.place i ≡ returned (some 0)) × (s.place j ≡ returned (some 1)) × (s.made ≡ 2))
      (sym (
        run-next i (j ∷ i ∷ i ∷ i ∷ j ∷ j ∷ j ∷ []) start testing refl
        ∙ run-next j (i ∷ i ∷ i ∷ j ∷ j ∷ j ∷ []) _ testing (put_ne start.place i j making n)
        ∙ run-next i (i ∷ i ∷ j ∷ j ∷ j ∷ []) _ making
            (put_ne p1 j i making m ∙ put_self start.place i making)
        ∙ run-next i (i ∷ j ∷ j ∷ j ∷ []) _ (assigning 0) (put_self p2 i _)
        ∙ run-next i (j ∷ j ∷ j ∷ []) _ returning (put_self p3 i _)
        ∙ run-next j (j ∷ j ∷ []) _ making
            (put_ne p4 i j _ n ∙ put_ne p3 i j _ n ∙ put_ne p2 i j _ n ∙ put_self p1 j making)
        ∙ run-next j (j ∷ []) _ (assigning 1) (put_self p5 j _)
        ∙ run-next j [] _ returning (put_self p6 j _)
        ∙ run-nil at_end))
      (
        put_ne p7 j i _ m ∙ put_ne p6 j i _ m ∙ put_ne p5 j i _ m ∙ put_self p4 i _,
        put_self p7 j _,
        refl,
      )
  where
    m : j ≢ i
    m e = n (sym e)

    p1 : ℕ → Place
    p1 = put start.place i making

    p2 : ℕ → Place
    p2 = put p1 j making

    p3 : ℕ → Place
    p3 = put p2 i (assigning 0)

    p4 : ℕ → Place
    p4 = put p3 i returning

    p5 : ℕ → Place
    p5 = put p4 i (returned (some 0))

    p6 : ℕ → Place
    p6 = put p5 j (assigning 1)

    p7 : ℕ → Place
    p7 = put p6 j returning

    at_end : Lazy
    at_end = record { instance_of = some 1; place = put p7 j (returned (some 1)); made = 2 }
