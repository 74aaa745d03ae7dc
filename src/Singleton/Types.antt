-- ===== src/Singleton/Types.antt =====
-- The type of an instance: `get_instance` casts it without a test.
use common_lib.Common.{
  ℕ, suc, ◌<◌, ◌≡◌, refl, ap, sym, ◌∙◌, subst, arith, inl, inr, Option, none, some, List, [], ◌∷◌,
  Option-cases,
}
use common_lib.Singleton.{
  Entry, absent, fresh, building, ready, Phase, looking, entered, constructing, got, Registry, put,
  start, look_up, call_once, get_step, run,
}
use common_lib.Singleton.Laws.{put_self, put_cases}

module _ (type : ℕ → ℕ) where
  -- An instance is of the type whose entry has it, or whose call has returned it.
  record IsTyped (s : Registry) : Type 0 where
    entries : (t x : ℕ) → s.entry t ≡ ready x → (x < s.made) × (s.types x ≡ t)
    calls : (i x : ℕ) → s.phase i ≡ got x → (x < s.made) × (s.types x ≡ type i)

  abbrev After : Option Registry → Type 0
  After none = Unit
  After (some s) = IsTyped s

  ready-look_up : (e : Entry) (x : ℕ) → look_up e ≡ ready x → e ≡ ready x
  unfolding look_up
  ready-look_up absent x h = cc
  ready-look_up fresh x h = h
  ready-look_up building x h = h
  ready-look_up (ready y) x h = h

  module _ (i : ℕ) (s : Registry) (v : IsTyped s) where
    look_up-IsTyped : After (get_step (type i) i s looking)
    unfolding get_step
    look_up-IsTyped = record {
      entries = λ t x e. elim (put_cases type s.entry (type i) t _ (ready x) e) [
        | inl h ↦ v.entries t x (ap s.entry (sym h.0) ∙ ready-look_up (s.entry (type i)) x h.1)
        | inr g ↦ v.entries t x g
      ];
      calls = λ j x e. elim (put_cases type s.phase i j entered (got x) e) [
        | inl h ↦ let clash : entered ≡ got x = h.1 in cc
        | inr g ↦ v.calls j x g
      ];
    }

    call_once-IsTyped : (o : Entry) → s.entry (type i) ≡ o → After (call_once (type i) i s o)
    unfolding call_once
    call_once-IsTyped absent h = tt
    call_once-IsTyped building h = tt
    call_once-IsTyped fresh h = record {
      entries = λ t x e. elim (put_cases type s.entry (type i) t building (ready x) e) [
        | inl g ↦ let clash : building ≡ ready x = g.1 in cc
        | inr g ↦ v.entries t x g
      ];
      calls = λ j x e. elim (put_cases type s.phase i j constructing (got x) e) [
        | inl g ↦ let clash : constructing ≡ got x = g.1 in cc
        | inr g ↦ v.calls j x g
      ];
    }
    call_once-IsTyped (ready y) h = record {
      entries = v.entries;
      calls = λ j x e. elim (put_cases type s.phase i j (got y) (got x) e) [
        | inl (ij, yx) ↦
            subst (λ k. (x < s.made) × (s.types x ≡ type k)) ij
              (v.entries (type i) x (h ∙ got-ready y x yx))
        | inr g ↦ v.calls j x g
      ];
    }
      where
        got-ready : (y x : ℕ) → got y ≡ got x → ready y ≡ ready x
        got-ready y x e = cc

    finish-IsTyped : After (get_step (type i) i s constructing)
    unfolding get_step
    finish-IsTyped = record {
      entries = λ t x e. elim (put_cases type s.entry (type i) t (ready s.made) (ready x) e) [
        | inl (it, yx) ↦
            subst (λ k. (x < suc s.made) × (put s.types s.made (type i) x ≡ k)) it
              (new x (ready-injective x yx))
        | inr g ↦ old t x (v.entries t x g)
      ];
      calls = λ j x e. elim (put_cases type s.phase i j (got s.made) (got x) e) [
        | inl (ij, yx) ↦
            subst (λ k. (x < suc s.made) × (put s.types s.made (type i) x ≡ type k)) ij
              (new x (got-injective x yx))
        | inr g ↦ old (type j) x (v.calls j x g)
      ];
    }
      where
        ready-injective : (x : ℕ) → ready s.made ≡ ready x → s.made ≡ x
        ready-injective x e = cc

        got-injective : (x : ℕ) → got s.made ≡ got x → s.made ≡ x
        got-injective x e = cc

        new : (x : ℕ) → s.made ≡ x → (x < suc s.made) × (put s.types s.made (type i) x ≡ type i)
        new x e = (omega arith, put_self type s.types s.made x (type i) e)

        old :
            (t x : ℕ)
            → (x < s.made) × (s.types x ≡ t)
            → (x < suc s.made) × (put s.types s.made (type i) x ≡ t)
        old t x (lt, e) = (omega (arith, lt), ground (arith, lt, e))

    get_step-IsTyped : (p : Phase) → After (get_step (type i) i s p)
    unfolding get_step
    get_step-IsTyped looking = look_up-IsTyped
    get_step-IsTyped entered = call_once-IsTyped _ refl
    get_step-IsTyped constructing = finish-IsTyped
    get_step-IsTyped (got x) = tt

  run-IsTyped : (is : List ℕ) (s s' : Registry) → IsTyped s → run type is s ≡ some s' → IsTyped s'
  unfolding run
  run-IsTyped [] s s' v e = subst After e v
  run-IsTyped (i ∷ is) s s' v e = elim (Option-cases (get_step (type i) i s (s.phase i))) [
    | inl f ↦ subst After (sym (ap next f) ∙ e) tt
    | inr (s1, f) ↦
        run-IsTyped is s1 s' (subst After f (get_step-IsTyped i s v (s.phase i)))
          (ap next (sym f) ∙ e)
  ]
    where
      next : Option Registry → Option Registry
      next o = elim o [ none ↦ none | some s1 ↦ run type is s1 ]

  -- However the calls of any number of threads interleave, what a call returns was made by a factory
  -- for the type that it asked for, so that the cast of `get_instance` is right.
  pub run-types :
      (is : List ℕ) (s : Registry) (i x : ℕ)
      → run type is start ≡ some s
      → s.phase i ≡ got x
      → s.types x ≡ type i
  run-types is s i x e f =
      ((run-IsTyped is start s (record { entries = λ t x e. cc; calls = λ i x e. cc }) e).calls i x
        f).1
