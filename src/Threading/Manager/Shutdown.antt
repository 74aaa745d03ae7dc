-- ===== src/Threading/Manager/Shutdown.antt =====
-- `force_stop_all` comes to its end.
use common_lib.Common.{
  ℕ, ◌+◌, ◌*◌, ◌≤◌, ◌≡◌, ◌≢◌, inl, inr, refl, ap, sym, ◌∙◌, subst, arith, false, Bool-cases, List,
  [], ◌∷◌, ◌++◌, length, All, ◌==◌, ==_iff,
}
use common_lib.Threading.Manager.{
  Stage, fresh, looping, promised, ended, waits, Timer, free, stopping, Manager, done, is_busy,
  Move, force_stops, run,
}
use common_lib.Threading.Manager.Hang.{run-next}
use common_lib.Threading.Manager.Waits.{IsOwn, run-free}
use common_lib.Threading.Manager.Turn.{
  IsInternal, IsActive, IsLive, cleared, clears, Leads, Turned, first-Turns,
}

All-map : (P Q : ℕ → Type 0) (is : List ℕ) → ((k : ℕ) → P k → Q k) → All P is → All Q is
All-map P Q [] h a = tt
All-map P Q (i ∷ is) h (p, a) = (h i p, All-map P Q is h a)

-- What holds of the first timer, and of every other one as it was, holds of each timer after a turn.
turned_each :
    (P : Timer → Type 0) (i : ℕ) (is : List ℕ) (m m' : Manager)
    → Turned i is m m'
    → P (m'.table i)
    → (k : ℕ) → P (m.table k)
    → P (m'.table k)
turned_each P i is m m' (h, others, quiet, gone) p k q = elim (Bool-cases (k == i)) [
  | inl e ↦ subst (λ x. P (m'.table x)) (sym ((==_iff k i).0 e)) p
  | inr e ↦ subst P (sym (others k (λ f. apart e f))) q
]
  where
    apart : (k == i) ≡ false → k ≢ i
    apart e f = ground arith

quiet-IsActive : (s : Stage) → is_busy s ≡ false → IsActive s
quiet-IsActive fresh e = tt
quiet-IsActive looping e = tt
quiet-IsActive promised e = tt
quiet-IsActive ended e = tt
quiet-IsActive (waits js) e = cc

abbrev IsQuiet : Manager → ℕ → Type 0
IsQuiet m k = is_busy (m.table k).stage ≡ false

append-IsInternal :
    (vs ws : List Move) → All IsInternal vs → All IsInternal ws → All IsInternal (vs ++ ws)
append-IsInternal [] ws a b = b
append-IsInternal (v ∷ vs) ws (o, a) b = (o, append-IsInternal vs ws a b)

append_assoc : (vs ws us : List Move) → (vs ++ ws) ++ us ≡ vs ++ (ws ++ us)
append_assoc [] ws us = refl
append_assoc (v ∷ vs) ws us = ap (λ r. v ∷ r) (append_assoc vs ws us)

length-append : (vs ws : List Move) → length (vs ++ ws) ≡ length vs + length ws
length-append [] ws = omega arith
length-append (v ∷ vs) ws = omega (arith, length-append vs ws)

Leads-trans : (n k : ℕ) (m m1 m2 : Manager) → Leads n m m1 → Leads k m1 m2 → Leads (n + k) m m2
Leads-trans n k m m1 m2 (vs, a, l, f) (ws, b, r, g) = (
  vs ++ ws,
  append-IsInternal vs ws a b,
  omega (arith, l, r, length-append vs ws),
  λ rest. ap (λ us. run us m) (append_assoc vs ws rest) ∙ f (ws ++ rest) ∙ g rest,
)

-- Every timer of the list is dealt with.
abbrev AllTurned : List ℕ → Manager → Type 0
AllTurned is m =
    (m' : Manager) × Leads (4 * length is) m m'
    × (m'.holder ≡ stopping [])
    × ((k : ℕ) → IsQuiet m k → IsQuiet m' k)
    × All (IsQuiet m') is

all_turned :
    (is : List ℕ) (m : Manager)
    → m.holder ≡ stopping is
    → All (λ k. IsLive (m.table k)) is
    → AllTurned is m
all_turned [] m e a = (m, ([], tt, omega arith, λ rest. refl), e, λ k q. q, tt)
all_turned (i ∷ is) m e (live, a) =
    let (m1, leads, turned) = first-Turns i is m e live in
    let here : IsLive (m1.table i) =
      (turned.3 ∙ live.0, quiet-IsActive (m1.table i).stage turned.2) in
    let (m2, leads', e', stay, quiet) =
      all_turned is m1 turned.0 (All-map _ _ is (turned_each IsLive i is m m1 turned here) a) in
    (
      m2,
      Leads_le is m m2 (Leads-trans 4 (4 * length is) m m1 m2 leads leads'),
      e',
      λ k q. stay k (turned_each (λ t. is_busy t.stage ≡ false) i is m m1 turned turned.2 k q),
      (stay i turned.2, quiet),
    )
  where
    Leads_le :
        (is : List ℕ) (m m2 : Manager)
        → Leads (4 + 4 * length is) m m2
        → Leads (4 * length (i ∷ is)) m m2
    Leads_le is m m2 (vs, b, l, f) = (vs, b, omega (arith, l), f)

-- Let `force_stop_all` have the lock, with these timers to stop, none of which is destroyed or waits in
-- a destructor. Then it can come to its end without the user and without a function that returns
-- false, by at most four steps for each timer and one more, of its own and of the threads of timers:
-- the lock is then free and no timer is registered. And in whatever order they move, without the user:
-- once the lock is free, the thread of none of these timers runs.
pub force_stop-ends :
    (is : List ℕ) (m : Manager)
    → m.holder ≡ stopping is
    → All (λ i. IsLive (m.table i)) is
    → ((vs : List Move) × (m' : Manager) × All IsInternal vs
        × (length vs ≤ 4 * length is + 1)
        × (run vs m ≡ done m')
        × (m'.holder ≡ free)
        × (m'.timers ≡ []))
      × ((vs : List Move) (m' : Manager)
          → All IsOwn vs
          → run vs m ≡ done m'
          → m'.holder ≡ free
          → All (λ i. is_busy (m'.table i).stage ≡ false) is)
unfolding run
force_stop-ends is m e a =
    let (m1, (vs, owns, l, f), e1, stay, quiet) = all_turned is m e a in
    (
      (
        vs ++ force_stops ∷ [],
        cleared m1,
        append-IsInternal vs (force_stops ∷ []) owns (tt, tt),
        omega (arith, l, length-append vs (force_stops ∷ [])),
        f (force_stops ∷ []) ∙ run-next force_stops [] m1 (cleared m1) (clears m1 e1),
        refl,
        refl,
      ),
      λ vs m'. run-free is m m' vs e,
    )
