-- ===== src/Lifecycle/Application/Laws.antt =====
-- When `run` of an `Application` ends, and the name of a program.
use common_lib.Common.{
  ℕ, ◌≡◌, ◌⊎◌, inl, inr, refl, ap, sym, ◌∙◌, subst, arith, Bool, true, false, ◌||◌, Option, none,
  some, List, [], ◌∷◌, ◌++◌, ◌==◌, Bool-cases,
}
use common_lib.Lifecycle.Application.{
  sigint, sigterm, Wake, receives, fails, Hooks, signal_handler, handle, wait_signals, boot_events,
  shut_events, run, is_separator, after_separator, last_part, part_of, finish,
}

-- A wake that ends the program.
abbrev pub terminates : Wake → Bool
terminates (receives signal) = (signal == sigterm) || (signal == sigint)
terminates fails = false

abbrev pub NoneTerminates : List Wake → Type 0
NoneTerminates [] = Unit
NoneTerminates (w ∷ ws) = (terminates w ≡ false) × NoneTerminates ws

handle-terminates : (w : Wake) → handle w false ≡ terminates w
unfolding handle signal_handler
handle-terminates (receives signal) = ground arith
handle-terminates fails = refl

-- What is left after the first wake that ends the program.
abbrev pub EndsAt : List Wake → List Wake → Type 0
EndsAt wakes rest =
    (before : List Wake) × (w : Wake) × (wakes ≡ before ++ w ∷ rest)
    × NoneTerminates before
    × (terminates w ≡ true)

wait_signals_lem :
    (wakes : List Wake)
    → (NoneTerminates wakes × (wait_signals false wakes ≡ none))
      ⊎ ((rest : List Wake) × EndsAt wakes rest × (wait_signals false wakes ≡ some rest))
unfolding wait_signals
wait_signals_lem [] = inl (tt, refl)
wait_signals_lem (w ∷ ws) = elim (Bool-cases (terminates w)) [
  | inl t ↦ inr (ws, ([], w, refl, tt, t), ap again (handle-terminates w ∙ t))
  | inr t ↦ elim (wait_signals_lem ws) [
    | inl (q, e) ↦ inl ((t, q), ap again (handle-terminates w ∙ t) ∙ e)
    | inr (rest, (before, w', e, q, t'), f) ↦ inr (
      rest,
      (w ∷ before, w', ap (λ l. w ∷ l) e, (t, q), t'),
      ap again (handle-terminates w ∙ t) ∙ f,
    )
  ]
]
  where
    again : Bool → Option (List Wake)
    again b = wait_signals b ws

-- `run` of a new application boots, and then waits for signals for ever if none of them is SIGTERM
-- or SIGINT; otherwise it takes the signals up to the first of these and no further, shuts down, in
-- this order, and returns 0. Failures of sigwait and other signals change nothing.
pub run_lem :
    (hooks : Hooks) (wakes : List Wake)
    → (NoneTerminates wakes
        × ((run hooks false wakes).returned ≡ none)
        × ((run hooks false wakes).events ≡ boot_events hooks))
      ⊎ (EndsAt wakes (run hooks false wakes).left
          × ((run hooks false wakes).returned ≡ some 0)
          × ((run hooks false wakes).events ≡ boot_events hooks ++ shut_events hooks))
unfolding run finish
run_lem hooks wakes = elim (wait_signals_lem wakes) [
  | inl (q, e) ↦
      inl
        (q, ap (λ o. (finish hooks false o).returned) e, ap (λ o. (finish hooks false o).events) e)
  | inr (rest, q, e) ↦ inr (
    subst (λ o. EndsAt wakes (finish hooks false o).left) (sym e) q,
    ap (λ o. (finish hooks false o).returned) e,
    ap (λ o. (finish hooks false o).events) e,
  )
]

abbrev pub NoSeparator : List ℕ → Type 0
NoSeparator [] = Unit
NoSeparator (c ∷ cs) = (is_separator c ≡ false) × NoSeparator cs

after_separator_lem :
    (path : List ℕ)
    → (NoSeparator path × (after_separator path ≡ none))
      ⊎ ((before : List ℕ) × (c : ℕ) × (name : List ℕ) × (after_separator path ≡ some name)
          × (path ≡ before ++ c ∷ name)
          × (is_separator c ≡ true)
          × NoSeparator name)
unfolding after_separator
after_separator_lem [] = inl (tt, refl)
after_separator_lem (c ∷ cs) = elim (after_separator_lem cs) [
  | inl (q, e) ↦ elim (Bool-cases (is_separator c)) [
    | inl s ↦ inr ([], c, cs, rw e (rw s refl), refl, s, q)
    | inr s ↦ inl ((s, q), rw e (rw s refl))
  ]
  | inr (before, c', name, e, f, s, q) ↦
      inr (c ∷ before, c', name, rw e refl, ap (λ l. c ∷ l) f, s, q)
]

-- Where std::filesystem fails, the name of a program is what follows the last separator, or all of a
-- path that has none.
pub last_part_lem :
    (path : List ℕ)
    → NoSeparator (last_part path)
      × ((last_part path ≡ path)
          ⊎ ((before : List ℕ) × (c : ℕ) × (path ≡ before ++ c ∷ last_part path)
              × (is_separator c ≡ true)))
unfolding last_part part_of
last_part_lem path = elim (after_separator_lem path) [
  | inl (q, e) ↦ subst Named (sym e) (q, inl refl)
  | inr (before, c, name, e, f, s, q) ↦ subst Named (sym e) (q, inr (before, c, f, s))
]
  where
    Named : Option (List ℕ) → Type 0
    Named o =
        NoSeparator (part_of path o)
        × ((part_of path o ≡ path)
            ⊎ ((before : List ℕ) × (c : ℕ) × (path ≡ before ++ c ∷ part_of path o)
                × (is_separator c ≡ true)))
