-- ===== src/Lifecycle/Resource/Laws.antt =====
-- An audit passes just when every resource was released.
use common_lib.Common.{
  ℕ, ◌≡◌, ◌≢◌, ◌↔◌, refl, ap, sym, ◌∙◌, arith, inl, inr, Bool, true, false, Option, none, some,
  List, [], ◌∷◌, if◌then◌else◌, ◌==◌, ==_iff, Bool-cases,
}
use common_lib.Lifecycle.Resource.{
  contains, track, release, audit, Registry, Use, tracks, releases, use_resource, run,
}

abbrev pub empty_registry : Registry
empty_registry = record { resources = []; targets = λ r. none }

-- What the last call for a resource made it point to.
unfoldable pub last_target : List Use → ℕ → Option ℕ → Option ℕ
last_target [] r p = p
last_target (tracks x q ∷ us) r p = last_target us r (if x == r then some q else p)
last_target (releases x ∷ us) r p = last_target us r (if x == r then none else p)

abbrev NoRepeats : List ℕ → Type 0
NoRepeats [] = Unit
NoRepeats (x ∷ xs) = (contains x xs ≡ false) × NoRepeats xs

abbrev targets_some : Option ℕ → Bool
targets_some none = false
targets_some (some p) = true

-- The manager tracks just the resources that point to something.
record IsRegistry (s : Registry) : Type 0 where
  once : NoRepeats s.resources
  tracked : (r : ℕ) → contains r s.resources ≡ targets_some (s.targets r)

contains-release_ne : (r x : ℕ) (xs : List ℕ) → r ≢ x → contains r (release x xs) ≡ contains r xs
unfolding release
contains-release_ne r x [] n = refl
contains-release_ne r x (y ∷ xs) n = ground (arith, contains-release_ne r x xs n)

contains-release : (x : ℕ) (xs : List ℕ) → NoRepeats xs → contains x (release x xs) ≡ false
unfolding release
contains-release x [] v = refl
contains-release x (y ∷ xs) v = ground (arith, v.0, contains-release x xs v.1)

NoRepeats-release : (x : ℕ) (xs : List ℕ) → NoRepeats xs → NoRepeats (release x xs)
unfolding release
NoRepeats-release x [] v = tt
NoRepeats-release x (y ∷ xs) v = elim (Bool-cases (x == y)) [
  | inl e ↦ rw e v.1
  | inr e ↦
      rw e
        (contains-release_ne y x xs (λ f. ground (arith, e, f)) ∙ v.0, NoRepeats-release x xs v.1)
]

contains-track :
    (r x : ℕ) (xs : List ℕ) → contains r (track x xs) ≡ (if x == r then true else contains r xs)
unfolding track
contains-track r x xs = elim (Bool-cases (contains x xs)) [
  | inl e ↦ elim (Bool-cases (x == r)) [
    | inl f ↦ rw (e, f) (ap (λ j. contains j xs) (sym ((==_iff x r).0 f)) ∙ e)
    | inr f ↦ rw (e, f) refl
  ]
  | inr e ↦ rw e (ground arith)
]

NoRepeats-track : (x : ℕ) (xs : List ℕ) → NoRepeats xs → NoRepeats (track x xs)
unfolding track
NoRepeats-track x xs v = elim (Bool-cases (contains x xs)) [ inl e ↦ rw e v | inr e ↦ rw e (e, v) ]

contains-release_if :
    (r x : ℕ) (xs : List ℕ)
    → NoRepeats xs
    → contains r (release x xs) ≡ (if x == r then false else contains r xs)
contains-release_if r x xs v = elim (Bool-cases (x == r)) [
  | inl e ↦
      rw e (ap (λ j. contains j (release x xs)) (sym ((==_iff x r).0 e)) ∙ contains-release x xs v)
  | inr e ↦ rw e (contains-release_ne r x xs (λ f. ground (arith, e, f)))
]

use-IsRegistry : (u : Use) (s : Registry) → IsRegistry s → IsRegistry (use_resource u s)
unfolding use_resource
use-IsRegistry (tracks x p) s v = record {
  once = NoRepeats-track x s.resources v.once;
  tracked = λ r. contains-track r x s.resources ∙ ground (arith, v.tracked r);
}
use-IsRegistry (releases x) s v = record {
  once = NoRepeats-release x s.resources v.once;
  tracked = λ r. contains-release_if r x s.resources v.once ∙ ground (arith, v.tracked r);
}

run-IsRegistry : (us : List Use) (s : Registry) → IsRegistry s → IsRegistry (run us s)
unfolding run
run-IsRegistry [] s v = v
run-IsRegistry (u ∷ us) s v = run-IsRegistry us (use_resource u s) (use-IsRegistry u s v)

run-targets :
    (us : List Use) (s : Registry) (r : ℕ) → (run us s).targets r ≡ last_target us r (s.targets r)
unfolding run use_resource last_target
run-targets [] s r = refl
run-targets (tracks x p ∷ us) s r = run-targets us (use_resource (tracks x p) s) r
run-targets (releases x ∷ us) s r = run-targets us (use_resource (releases x) s) r

audit-nil : (xs : List ℕ) → audit xs ≡ some tt → xs ≡ []
unfolding audit
audit-nil [] e = refl
audit-nil (x ∷ xs) e = cc

audit-none : (xs : List ℕ) → ((r : ℕ) → contains r xs ≡ false) → audit xs ≡ some tt
unfolding audit
audit-none [] f = refl
audit-none (x ∷ xs) f = absurd (ground (arith, f x))

targets_some-none : (o : Option ℕ) → targets_some o ≡ false → o ≡ none
targets_some-none none e = refl
targets_some-none (some p) e = cc

-- After any calls, an audit passes exactly if the last call for each resource released it, or there
-- was none.
pub audit-run :
    (us : List Use)
    → (audit (run us empty_registry).resources ≡ some tt) ↔ ((r : ℕ) → last_target us r none ≡ none)
audit-run us = (
  λ e r.
      sym (run-targets us empty_registry r)
      ∙ targets_some-none _ (sym (valid.tracked r) ∙ ap (contains r) (audit-nil _ e)),
  λ h.
      audit-none _ (λ r. valid.tracked r ∙ ap targets_some (run-targets us empty_registry r ∙ h r)),
)
  where
    valid : IsRegistry (run us empty_registry)
    valid = run-IsRegistry us empty_registry (record { once = tt; tracked = λ r. refl })
