-- ===== src/Threading/Manager/Turn.antt =====
-- One turn of the loop of `force_stop_all`.
use common_lib.Common.{
  ℕ, suc, ◌≤◌, ◌≡◌, ◌≢◌, refl, ap, ◌∙◌, arith, false, List, [], ◌∷◌, ◌++◌, length, All,
  if◌then◌else◌,
}
use common_lib.Threading.Manager.{
  Stage, fresh, looping, promised, ended, waits, Timer, free, is_free, stopping, awaiting, Manager,
  done, impossible, crashed, change, is_busy, dropped, erase, unregist, stop, force_stop, Move,
  force_stops, leaves, unregisters, resumes, step, run,
}
use common_lib.Threading.Manager.Hang.{put_self, put_other, run-next, left, leaves_lem}

-- Steps of `force_stop_all` and of the threads of timers, whose functions do not return false; none
-- of the user.
abbrev pub IsInternal : Move → Type 0
IsInternal force_stops = Unit
IsInternal (leaves i) = Unit
IsInternal (unregisters i) = Unit
IsInternal (resumes i) = Unit
IsInternal _ = ⊥

-- The thread of a timer waits in no destructor.
abbrev pub IsActive : Stage → Type 0
IsActive (waits js) = ⊥
IsActive _ = Unit

abbrev pub IsLive : Timer → Type 0
IsLive t = (t.gone ≡ false) × IsActive t.stage

abbrev pub cleared : Manager → Manager
cleared m = record m { table = dropped m.count m.timers m.table; timers = []; holder = free }

pub clears : (m : Manager) → m.holder ≡ stopping [] → step force_stops m ≡ done (cleared m)
unfolding step force_stop
clears m e = ap (λ h. force_stop h m) e

-- Steps that lead from one manager to the other.
abbrev pub Leads : ℕ → Manager → Manager → Type 0
Leads n m m' =
    (vs : List Move) × All IsInternal vs
    × (length vs ≤ n)
    × ((rest : List Move) → run (vs ++ rest) m ≡ run rest m')

-- The first timer is dealt with, and the others are as they were.
abbrev pub Turned : ℕ → List ℕ → Manager → Manager → Type 0
Turned i is m m' =
    (m'.holder ≡ stopping is)
    × ((k : ℕ) → k ≢ i → m'.table k ≡ m.table k)
    × (is_busy (m'.table i).stage ≡ false)
    × ((m'.table i).gone ≡ (m.table i).gone)

module _ (i : ℕ) (is : List ℕ) (m : Manager) where
  abbrev halted : Manager
  halted = record (stop i m) { holder = awaiting (i ∷ is) }

  halts : m.holder ≡ stopping (i ∷ is) → step force_stops m ≡ done halted
  unfolding step force_stop
  halts e = ap (λ h. force_stop h m) e

  halted_self : halted.table i ≡ record (m.table i) { running = false }
  unfolding stop
  halted_self = put_self m.table i _

  halted_other : (k : ℕ) → k ≢ i → halted.table k ≡ m.table k
  unfolding stop
  halted_other k d = put_other m.table i k _ d

  abbrev passed : Manager
  passed = record m { holder = stopping is }

  passes :
      m.holder ≡ awaiting (i ∷ is)
      → is_busy (m.table i).stage ≡ false
      → step force_stops m ≡ done passed
  unfolding step force_stop
  passes e f = ap (λ h. force_stop h m) e ∙ ap (λ b. if b then impossible else done passed) f

  abbrev over : Manager
  over = change i (record (m.table i) { stage = ended }) m

  -- A thread that does not get the lock does not wait for it.
  ends :
      m.holder ≡ awaiting (i ∷ is)
      → (m.table i).stage ≡ promised
      → (m.table i).gone ≡ false
      → step (unregisters i) m ≡ done over
  unfolding step unregist
  ends e s g =
      ap (λ st. unregist st i m) s
      ∙ ap (λ b. if b then crashed else if is_free m.holder then done (erase i m) else done over) g
      ∙ ap (λ h. if is_free h then done (erase i m) else done over) e

module _ (i : ℕ) (is : List ℕ) where
  abbrev pub Turns : ℕ → Manager → Type 0
  Turns n m = (m' : Manager) × Leads n m m' × Turned i is m m'

  Turns-step :
      (n : ℕ) (v : Move) (m m1 : Manager)
      → IsInternal v
      → step v m ≡ done m1
      → ((k : ℕ) → k ≢ i → m1.table k ≡ m.table k)
      → (m1.table i).gone ≡ (m.table i).gone
      → Turns n m1
      → Turns (suc n) m
  Turns-step n v m m1 own e same gone (m', (vs, owns, le, leads), (h, others, quiet, gone')) = (
    m',
    (v ∷ vs, (own, owns), omega (arith, le), λ rest. run-next v (vs ++ rest) m m1 e ∙ leads rest),
    (h, λ k d. others k d ∙ same k d, quiet, gone' ∙ gone),
  )

  quiet-Turns :
      (m : Manager) → m.holder ≡ awaiting (i ∷ is) → is_busy (m.table i).stage ≡ false → Turns 1 m
  quiet-Turns m e f =
      Turns-step 0 force_stops m (passed i is m) tt (passes i is m e f) (λ k d. refl) refl
        (passed i is m, ([], tt, omega arith, λ rest. refl), (refl, λ k d. refl, f, refl))

  promised-Turns :
      (m : Manager)
      → m.holder ≡ awaiting (i ∷ is)
      → (m.table i).stage ≡ promised
      → (m.table i).gone ≡ false
      → Turns 2 m
  promised-Turns m e s g =
      let self : (over i is m).table i ≡ record (m.table i) { stage = ended } =
        put_self m.table i _ in
      Turns-step 1 (unregisters i) m (over i is m) tt (ends i is m e s g)
        (λ k d. put_other m.table i k _ d) (ap (λ t. t.gone) self)
        (quiet-Turns (over i is m) e (ap (λ t. is_busy t.stage) self))

  looping-Turns :
      (m : Manager)
      → m.holder ≡ awaiting (i ∷ is)
      → (m.table i).running ≡ false
      → (m.table i).stage ≡ looping
      → (m.table i).gone ≡ false
      → Turns 3 m
  looping-Turns m e r s g =
      let self : (left i m).table i ≡ record (m.table i) { stage = promised } =
        put_self m.table i _ in
      Turns-step 2 (leaves i) m (left i m) tt (leaves_lem i m s r)
        (λ k d. put_other m.table i k _ d) (ap (λ t. t.gone) self)
        (promised-Turns (left i m) e (ap (λ t. t.stage) self) (ap (λ t. t.gone) self ∙ g))

  Turns-le : (n n' : ℕ) (m : Manager) → n ≤ n' → Turns n m → Turns n' m
  Turns-le n n' m l (m', (vs, owns, le, leads), t) =
      (m', (vs, owns, omega (arith, le, l), leads), t)

  live-Turns :
      (m : Manager) (s : Stage)
      → (m.table i).stage ≡ s
      → m.holder ≡ awaiting (i ∷ is)
      → (m.table i).running ≡ false
      → (m.table i).gone ≡ false
      → IsActive s
      → Turns 3 m
  live-Turns m fresh s e r g a = Turns-le 1 3 m (omega arith) (quiet-Turns m e (ap is_busy s))
  live-Turns m ended s e r g a = Turns-le 1 3 m (omega arith) (quiet-Turns m e (ap is_busy s))
  live-Turns m promised s e r g a = Turns-le 2 3 m (omega arith) (promised-Turns m e s g)
  live-Turns m looping s e r g a = looping-Turns m e r s g
  live-Turns m (waits js) s e r g a = absurd a

  pub first-Turns : (m : Manager) → m.holder ≡ stopping (i ∷ is) → IsLive (m.table i) → Turns 4 m
  first-Turns m e (g, a) =
      let self = halted_self i is m in
      Turns-step 3 force_stops m (halted i is m) tt (halts i is m e) (halted_other i is m)
        (ap (λ t. t.gone) self)
        (live-Turns (halted i is m) (m.table i).stage (ap (λ t. t.stage) self) refl
          (ap (λ t. t.running) self) (ap (λ t. t.gone) self ∙ g) a)
