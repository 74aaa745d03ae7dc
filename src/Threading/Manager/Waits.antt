-- ===== src/Threading/Manager/Waits.antt =====
-- `force_stop_all` waits for every thread.
use common_lib.Common.{
  ℕ, ◌≡◌, ◌≢◌, ◌⊎◌, inl, inr, refl, ap, sym, ◌∙◌, subst, Bool, true, false, Bool-cases, List, [],
  ◌∷◌, All, ◌==◌, ==_iff, ==_refl, if◌then◌else◌, ◌||◌,
}
use common_lib.Threading.Manager.{
  Stage, fresh, looping, promised, ended, waits, Timer, Holder, free, is_free, thread, stopping,
  awaiting, Manager, Outcome, done, impossible, crashed, put, mem, is_busy, dropped, taken, erase,
  unregist, resume, leave, break_loop, after_waits, next_holder, has_ended, stop, force_stop, Move,
  makes, asyncs, force_stops, starts, stops, drops, leaves, breaks, unregisters, resumes, step, run,
}
use common_lib.Threading.Manager.Stuck.{put-Same, dropped-Same}
use common_lib.Threading.Manager.Hang.{put_other}

-- Every step but those of the user.
abbrev pub IsOwn : Move → Type 0
IsOwn force_stops = Unit
IsOwn (leaves i) = Unit
IsOwn (breaks i) = Unit
IsOwn (unregisters i) = Unit
IsOwn (resumes i) = Unit
IsOwn _ = ⊥

abbrev IsQuiet : Manager → ℕ → Type 0
IsQuiet m k = is_busy (m.table k).stage ≡ false

-- `force_stop_all` has these left, the first of which it may be waiting for.
abbrev Has : List ℕ → Manager → Type 0
Has rest m = (m.holder ≡ stopping rest) ⊎ (m.holder ≡ awaiting rest)

abbrev Holds : (Manager → Type 0) → Outcome → Type 0
Holds P (done m) = P m
Holds P impossible = Unit
Holds P crashed = Unit

if-Holds :
    (P : Manager → Type 0) (b : Bool) (o o' : Outcome)
    → (b ≡ true → Holds P o)
    → (b ≡ false → Holds P o')
    → Holds P (if b then o else o')
if-Holds P true o o' h h' = h refl
if-Holds P false o o' h h' = h' refl

-- A thread that does not run goes on not to, and the same ones are left.
abbrev Keeps : Manager → Manager → Type 0
Keeps m m' =
    ((rest : List ℕ) → Has rest m → m'.holder ≡ m.holder) × ((k : ℕ) → IsQuiet m k → IsQuiet m' k)

Has-busy : (rest : List ℕ) (m : Manager) → Has rest m → is_free m.holder ≡ false
Has-busy rest m (inl e) = ap is_free e
Has-busy rest m (inr e) = ap is_free e

Has-next :
    (i : ℕ) (js rest : List ℕ) (m : Manager) → Has rest m → next_holder i js m.holder ≡ m.holder
Has-next i js rest m (inl e) = ap (next_holder i js) e ∙ sym e
Has-next i js rest m (inr e) = ap (next_holder i js) e ∙ sym e

module _ (m : Manager) where
  busy_other : (j k : ℕ) → is_busy (m.table j).stage ≡ true → IsQuiet m k → k ≢ j
  busy_other j k b q e = let c = sym b ∙ (ap (λ x. is_busy (m.table x).stage) (sym e) ∙ q) in cc

  -- The entry of a thread that runs changes.
  put-IsQuiet :
      (j : ℕ) (t : Timer)
      → is_busy (m.table j).stage ≡ true
      → (k : ℕ) → IsQuiet m k
      → is_busy (put m.table j t k).stage ≡ false
  put-IsQuiet j t b k q =
      ap (λ x. is_busy x.stage) (put_other m.table j k t (busy_other j k b q)) ∙ q

  leave-Keeps : (j : ℕ) (s : Stage) → (m.table j).stage ≡ s → Holds (Keeps m) (leave s j m)
  unfolding leave
  leave-Keeps j looping e =
      if-Holds (Keeps m) (m.table j).running _ _ (λ r. tt)
        (λ r.
          (λ rest h. refl, put-IsQuiet j (record (m.table j) { stage = promised }) (ap is_busy e)))
  leave-Keeps j fresh e = tt
  leave-Keeps j promised e = tt
  leave-Keeps j ended e = tt
  leave-Keeps j (waits js) e = tt

  break_loop-Keeps :
      (j : ℕ) (s : Stage) → (m.table j).stage ≡ s → Holds (Keeps m) (break_loop s j m)
  unfolding break_loop
  break_loop-Keeps j looping e =
      if-Holds (Keeps m) (m.table j).running _ _
        (λ r.
          (λ rest h. refl, put-IsQuiet j (record (m.table j) { stage = promised }) (ap is_busy e)))
        (λ r. tt)
  break_loop-Keeps j fresh e = tt
  break_loop-Keeps j promised e = tt
  break_loop-Keeps j ended e = tt
  break_loop-Keeps j (waits js) e = tt

  erase-IsQuiet :
      (j : ℕ) → is_busy (m.table j).stage ≡ true → (k : ℕ) → IsQuiet m k → IsQuiet (erase j m) k
  unfolding erase
  erase-IsQuiet j b k q =
      ap (λ x. is_busy x.stage)
        (put_other (dropped j (taken j m) m.table) j k _ (busy_other j k b q))
      ∙ ap is_busy (dropped-Same k j (taken j m) m.table).0
      ∙ q

  unregist-Keeps : (j : ℕ) (s : Stage) → (m.table j).stage ≡ s → Holds (Keeps m) (unregist s j m)
  unfolding unregist
  unregist-Keeps j promised e =
      if-Holds (Keeps m) (m.table j).gone _ _ (λ g. tt)
        (λ g.
          if-Holds (Keeps m) (is_free m.holder) _ _
            (λ f. (
              λ rest h. absurd (let c = sym f ∙ Has-busy rest m h in clash c),
              erase-IsQuiet j (ap is_busy e),
            ))
            (λ f. (
              λ rest h. refl,
              put-IsQuiet j (record (m.table j) { stage = ended }) (ap is_busy e),
            )))
    where
      clash : true ≢ false
      clash c = cc
  unregist-Keeps j fresh e = tt
  unregist-Keeps j looping e = tt
  unregist-Keeps j ended e = tt
  unregist-Keeps j (waits js) e = tt

  resume-Keeps : (j : ℕ) (s : Stage) → (m.table j).stage ≡ s → Holds (Keeps m) (resume s j m)
  unfolding resume
  resume-Keeps j (waits (n ∷ js)) e =
      if-Holds (Keeps m) (has_ended (m.table n).stage) _ _
        (λ g. (
          λ rest h. Has-next j js rest m h,
          put-IsQuiet j (record (m.table j) { stage = after_waits js }) (ap is_busy e),
        ))
        (λ g. tt)
  resume-Keeps j (waits []) e = tt
  resume-Keeps j fresh e = tt
  resume-Keeps j looping e = tt
  resume-Keeps j ended e = tt
  resume-Keeps j promised e = tt

  stop-IsQuiet : (j k : ℕ) → IsQuiet m k → IsQuiet (stop j m) k
  unfolding stop
  stop-IsQuiet j k q =
      ap is_busy
        (put-Same k j (record (m.table j) { running = false }) m.table
          (λ e. (ap (λ x. (m.table x).stage) (sym e), ap (λ x. (m.table x).held) (sym e)))).0
      ∙ q

-- Each of the timers is dealt with, or is still to be.
abbrev Covers : List ℕ → List ℕ → Manager → Type 0
Covers is rest m = All (λ k. IsQuiet m k ⊎ (mem k rest ≡ true)) is

abbrev Serves : List ℕ → Manager → Type 0
Serves is m = All (IsQuiet m) is ⊎ ((rest : List ℕ) × Has rest m × Covers is rest m)

All-map : (P Q : ℕ → Type 0) (is : List ℕ) → ((k : ℕ) → P k → Q k) → All P is → All Q is
All-map P Q [] h a = tt
All-map P Q (i ∷ is) h (p, a) = (h i p, All-map P Q is h a)

module _ (is : List ℕ) (m : Manager) where
  Keeps-Serves : (o : Outcome) → Holds (Keeps m) o → Serves is m → Holds (Serves is) o
  Keeps-Serves (done m') (same, stays) (inl q) = inl (All-map _ _ is stays q)
  Keeps-Serves (done m') (same, stays) (inr (rest, h, c)) =
      inr (rest, has h, All-map _ _ is (λ k. go k) c)
    where
      has : Has rest m → Has rest m'
      has (inl e) = inl (same rest (inl e) ∙ e)
      has (inr e) = inr (same rest (inr e) ∙ e)

      go : (k : ℕ) → IsQuiet m k ⊎ (mem k rest ≡ true) → IsQuiet m' k ⊎ (mem k rest ≡ true)
      go k (inl q) = inl (stays k q)
      go k (inr e) = inr e
  Keeps-Serves impossible h s = tt
  Keeps-Serves crashed h s = tt

  force_stop-Serves : (h : Holder) → m.holder ≡ h → Serves is m → Holds (Serves is) (force_stop h m)
  unfolding force_stop
  force_stop-Serves free e (inl q) = inl q
  force_stop-Serves free e (inr (rest, inl f, c)) = absurd (let g = sym e ∙ f in cc)
  force_stop-Serves free e (inr (rest, inr f, c)) = absurd (let g = sym e ∙ f in cc)
  force_stop-Serves (thread i) e s = tt
  force_stop-Serves (stopping []) e s = inl (All-map _ _ is cleared (all_quiet s))
    where
      cleared : (k : ℕ) → IsQuiet m k → is_busy (dropped m.count m.timers m.table k).stage ≡ false
      cleared k q = ap is_busy (dropped-Same k m.count m.timers m.table).0 ∙ q

      none_left : (rest : List ℕ) → Has rest m → rest ≡ []
      none_left rest (inl f) = let g = sym e ∙ f in cc
      none_left rest (inr f) = absurd (let g = sym e ∙ f in cc)

      quiet :
          (rest : List ℕ) → rest ≡ [] → (k : ℕ) → IsQuiet m k ⊎ (mem k rest ≡ true) → IsQuiet m k
      quiet rest n k (inl q) = q
      quiet rest n k (inr f) = absurd (let g = sym (ap (mem k) n) ∙ f in cc)

      all_quiet : Serves is m → All (IsQuiet m) is
      all_quiet (inl q) = q
      all_quiet (inr (rest, h, c)) = All-map _ _ is (quiet rest (none_left rest h)) c
  force_stop-Serves (stopping (i ∷ js)) e (inl q) = inl (All-map _ _ is (stop-IsQuiet m i) q)
  force_stop-Serves (stopping (i ∷ js)) e (inr (rest, h, c)) =
      inr (i ∷ js, inr refl, All-map _ _ is (still (same h)) c)
    where
      same : Has rest m → rest ≡ i ∷ js
      same (inl f) = let g = sym e ∙ f in cc
      same (inr f) = absurd (let g = sym e ∙ f in cc)

      still :
          rest ≡ i ∷ js
          → (k : ℕ) → IsQuiet m k ⊎ (mem k rest ≡ true)
          → IsQuiet (stop i m) k ⊎ (mem k (i ∷ js) ≡ true)
      still n k (inl q) = inl (stop-IsQuiet m i k q)
      still n k (inr f) = inr (ap (mem k) (sym n) ∙ f)
  force_stop-Serves (awaiting []) e s = tt
  force_stop-Serves (awaiting (i ∷ js)) e s =
      if-Holds (Serves is) (is_busy (m.table i).stage) _ _ (λ b. tt) (λ b. passes b s)
    where
      now : Manager
      now = record m { holder = stopping js }

      same : (rest : List ℕ) → Has rest m → rest ≡ i ∷ js
      same rest (inl f) = absurd (let g = sym e ∙ f in cc)
      same rest (inr f) = let g = sym e ∙ f in cc

      -- The first one is dealt with.
      shorter :
          is_busy (m.table i).stage ≡ false
          → (rest : List ℕ) → rest ≡ i ∷ js
          → (k : ℕ) → IsQuiet m k ⊎ (mem k rest ≡ true)
          → IsQuiet m k ⊎ (mem k js ≡ true)
      shorter b rest n k (inl q) = inl q
      shorter b rest n k (inr f) = elim (Bool-cases (k == i)) [
        | inl g ↦ inl (ap (λ x. is_busy (m.table x).stage) ((==_iff k i).0 g) ∙ b)
        | inr g ↦ inr (sym (ap (λ d. d || mem k js) g) ∙ ap (mem k) (sym n) ∙ f)
      ]

      passes : is_busy (m.table i).stage ≡ false → Serves is m → Serves is now
      passes b (inl q) = inl q
      passes b (inr (rest, h, c)) =
          inr (js, inl refl, All-map _ _ is (shorter b rest (same rest h)) c)

module _ (is : List ℕ) where
  step-Serves : (v : Move) (m : Manager) → IsOwn v → Serves is m → Holds (Serves is) (step v m)
  unfolding step
  step-Serves force_stops m own s = force_stop-Serves is m m.holder refl s
  step-Serves (leaves j) m own s = Keeps-Serves is m _ (leave-Keeps m j (m.table j).stage refl) s
  step-Serves (breaks j) m own s =
      Keeps-Serves is m _ (break_loop-Keeps m j (m.table j).stage refl) s
  step-Serves (unregisters j) m own s =
      Keeps-Serves is m _ (unregist-Keeps m j (m.table j).stage refl) s
  step-Serves (resumes j) m own s = Keeps-Serves is m _ (resume-Keeps m j (m.table j).stage refl) s
  step-Serves makes m own s = absurd own
  step-Serves asyncs m own s = absurd own
  step-Serves (starts j) m own s = absurd own
  step-Serves (stops j) m own s = absurd own
  step-Serves (drops j) m own s = absurd own

  run-Serves :
      (vs : List Move) (m : Manager) → All IsOwn vs → Serves is m → Holds (Serves is) (run vs m)
  unfolding run
  run-Serves [] m owns s = s
  run-Serves (v ∷ vs) m (own, owns) s =
      after (step v m) (step-Serves v m own s) (λ m'. run-Serves vs m' owns)
    where
      after :
          (o : Outcome)
          → Holds (Serves is) o
          → ((m' : Manager) → Serves is m' → Holds (Serves is) (run vs m'))
          → Holds
              (Serves is)
              (elim o [ done m' ↦ run vs m' | impossible ↦ impossible | crashed ↦ crashed ])
      after (done m') h g = g m' h
      after impossible h g = tt
      after crashed h g = tt

mem-All : (P : ℕ → Type 0) (is : List ℕ) → ((k : ℕ) → mem k is ≡ true → P k) → All P is
mem-All P [] h = tt
mem-All P (i ∷ is) h = (
  h i (ap (λ b. b || mem i is) (==_refl i)),
  mem-All P is (λ k e. h k (elim (Bool-cases (k == i)) [
    | inl f ↦ ap (λ b. b || mem k is) f
    | inr f ↦ ap (λ b. b || mem k is) f ∙ e
  ])),
)

-- However the threads and `force_stop_all` move, once the lock is free no thread of these timers runs.
pub run-free :
    (is : List ℕ) (m m' : Manager) (vs : List Move)
    → m.holder ≡ stopping is
    → All IsOwn vs
    → run vs m ≡ done m'
    → m'.holder ≡ free
    → All (λ k. is_busy (m'.table k).stage ≡ false) is
run-free is m m' vs e owns f g = over (
    subst (Holds (Serves is)) f
      (run-Serves is vs m owns (inr (is, inl e, mem-All _ is (λ k q. inr q)))))
  where
    over : Serves is m' → All (IsQuiet m') is
    over (inl q) = q
    over (inr (rest, inl h, c)) = absurd (let n = sym g ∙ h in cc)
    over (inr (rest, inr h, c)) = absurd (let n = sym g ∙ h in cc)
