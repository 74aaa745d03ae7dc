-- ===== src/Threading/Timer/Laws.antt =====
-- A timer that is stopped ends.
use common_lib.Common.{
  ℕ, suc, ◌+◌, ◌≤◌, ◌≡◌, ◌≢◌, ◌⊎◌, inl, inr, refl, ap, sym, ◌∙◌, subst, arith, Bool, true, false,
  Option, none, some, List, [], ◌∷◌, Option-cases,
}
use common_lib.Threading.Timer.{
  Stage, checking, blocking, waiting, testing, calling, finishing, ended, Timer, work, expire, Move,
  works, expires, spurious, starts, replaces, stops, notifies, step, run,
}

-- What holds after a step, if there is one.
abbrev pub After : (Timer → Type 0) → Option Timer → Type 0
After P none = Unit
After P (some t) = P t

pub run-cons :
    (m : Move) (ms : List Move) (t t' : Timer)
    → run (m ∷ ms) t ≡ some t'
    → (t1 : Timer) × (step m t ≡ some t1) × (run ms t1 ≡ some t')
unfolding run
run-cons m ms t t' e = elim (Option-cases (step m t)) [
  | inl f ↦ absurd (none-some (ap next (sym f) ∙ e))
  | inr (t1, f) ↦ (t1, f, ap next (sym f) ∙ e)
]
  where
    next : Option Timer → Option Timer
    next o = elim o [ none ↦ none | some t1 ↦ run ms t1 ]

    none-some : none ≢ some t'
    none-some f = cc

pub run-nil : (t t' : Timer) → run [] t ≡ some t' → t ≡ t'
unfolding run
run-nil t t' e = cc

-- The steps of the timer's own thread.
abbrev pub IsOwn : Move → Type 0
IsOwn (works goes_on) = Unit
IsOwn expires = Unit
IsOwn _ = ⊥

abbrev pub AllOwn : List Move → Type 0
AllOwn [] = Unit
AllOwn (m ∷ ms) = IsOwn m × AllOwn ms

abbrev pub length : List Move → ℕ
length [] = 0
length (m ∷ ms) = suc (length ms)

-- The steps left at most, once `_running` is cleared.
abbrev pub steps_left : Stage → ℕ
steps_left checking = 3
steps_left blocking = 4
steps_left waiting = 3
steps_left testing = 2
steps_left calling = 4
steps_left finishing = 1
steps_left ended = 0

-- A step that goes down, and calls nothing.
abbrev GoesDown : Timer → Timer → Type 0
GoesDown t t' =
    (t'.running ≡ false) × (t'.count ≡ t.count) × (steps_left t'.stage + 1 ≤ steps_left t.stage)

work-GoesDown :
    (s : Stage) (goes_on : Bool) (t : Timer)
    → t.running ≡ false
    → After
        (λ t'.
          (t'.running ≡ false) × (t'.count ≡ t.count) × (steps_left t'.stage + 1 ≤ steps_left s))
        (work s goes_on t)
unfolding work
work-GoesDown checking goes_on t z = rw z (refl, refl, omega arith)
work-GoesDown blocking goes_on t z = (z, refl, omega arith)
work-GoesDown waiting goes_on t z = tt
work-GoesDown testing goes_on t z = rw z (refl, refl, omega arith)
work-GoesDown calling true t z = (z, refl, omega arith)
work-GoesDown calling false t z = (z, refl, omega arith)
work-GoesDown finishing goes_on t z = (z, refl, omega arith)
work-GoesDown ended goes_on t z = tt

expire-GoesDown :
    (s : Stage) (t : Timer)
    → t.running ≡ false
    → After
        (λ t'.
          (t'.running ≡ false) × (t'.count ≡ t.count) × (steps_left t'.stage + 1 ≤ steps_left s))
        (expire s t)
unfolding expire
expire-GoesDown waiting t z = (z, refl, omega arith)
expire-GoesDown checking t z = tt
expire-GoesDown blocking t z = tt
expire-GoesDown testing t z = tt
expire-GoesDown calling t z = tt
expire-GoesDown finishing t z = tt
expire-GoesDown ended t z = tt

step-GoesDown : (m : Move) (t : Timer) → IsOwn m → t.running ≡ false → After (GoesDown t) (step m t)
unfolding step
step-GoesDown (works goes_on) t own z = work-GoesDown t.stage goes_on t z
step-GoesDown expires t own z = expire-GoesDown t.stage t z
step-GoesDown spurious t own z = absurd own
step-GoesDown starts t own z = absurd own
step-GoesDown replaces t own z = absurd own
step-GoesDown stops t own z = absurd own
step-GoesDown notifies t own z = absurd own

-- The thread has a step to take.
abbrev pub Goes : Timer → Type 0
Goes t = (m : Move) × IsOwn m × ((t' : Timer) × (step m t ≡ some t'))

Goes-ended : (t : Timer) → (t.stage ≡ ended) ⊎ Goes t
unfolding step work expire
Goes-ended t = go t.stage refl
  where
    works_on : Option Timer → Option Timer → Type 0
    works_on o o' = ((t' : Timer) × (o ≡ some t')) ⊎ ((t' : Timer) × (o' ≡ some t'))

    stage_works : (s : Stage) → (s ≡ ended) ⊎ works_on (work s true t) (expire s t)
    stage_works checking = inr (inl (_, refl))
    stage_works blocking = inr (inl (_, refl))
    stage_works waiting = inr (inr (_, refl))
    stage_works testing = inr (inl (_, refl))
    stage_works calling = inr (inl (_, refl))
    stage_works finishing = inr (inl (_, refl))
    stage_works ended = inl refl

    go : (s : Stage) → t.stage ≡ s → (t.stage ≡ ended) ⊎ Goes t
    go s e = elim (stage_works t.stage) [
      | inl f ↦ inl f
      | inr (inl w) ↦ inr (works true, tt, w)
      | inr (inr w) ↦ inr (expires, tt, w)
    ]

run-left :
    (ms : List Move) (t t' : Timer)
    → AllOwn ms
    → t.running ≡ false
    → run ms t ≡ some t'
    → (length ms + steps_left t'.stage ≤ steps_left t.stage) × (t'.count ≡ t.count)
run-left [] t t' own z e =
    let f : t ≡ t' = run-nil t t' e in
    (
      subst (λ x. 0 + steps_left x.stage ≤ steps_left t.stage) f (omega arith),
      ap (λ x. x.count) (sym f),
    )
run-left (m ∷ ms) t t' (own, owns) z e =
    let (t1, f, g) = run-cons m ms t t' e in
    let (z1, n, less) : GoesDown t t1 = subst (After (GoesDown t)) f (step-GoesDown m t own z) in
    let (le, n') = run-left ms t1 t' owns z1 g in (omega (arith, le, less), n' ∙ n)

-- Once `_running` is cleared, the thread of the timer, on its own, takes at most four steps, the end
-- of an interval that it sleeps through among them; it does not call the function again, and it has
-- a next step until it has ended.
pub run-ends :
    (ms : List Move) (t t' : Timer)
    → AllOwn ms
    → t.running ≡ false
    → run ms t ≡ some t'
    → (length ms ≤ 4) × (t'.count ≡ t.count) × ((t'.stage ≡ ended) ⊎ Goes t')
run-ends ms t t' own z e =
    let (le, n) = run-left ms t t' own z e in (omega (arith, le, few t.stage), n, Goes-ended t')
  where
    few : (s : Stage) → steps_left s ≤ 4
    few s = ground arith
