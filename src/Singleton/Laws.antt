-- ===== src/Singleton/Laws.antt =====
-- All calls for a type return the same instance.
use common_lib.Common.{
  ℕ, ◌≡◌, ◌≢◌, refl, ap, sym, ◌∙◌, subst, arith, inl, inr, Option, none, some, List, [], ◌∷◌, ◌==◌,
  ==_iff, Bool-cases, Option-cases, ◌⊎◌,
}
use common_lib.Singleton.{
  Entry, absent, fresh, building, ready, Phase, looking, entered, constructing, got, Registry, put,
  start, look_up, call_once, get_step, run,
}

module _ (type : ℕ → ℕ) where
  -- A call that has returned has the instance of the entry; one thread at most runs the factory of a
  -- type, and its entry says so.
  record IsRegistry (s : Registry) : Type 0 where
    same : (i x : ℕ) → s.phase i ≡ got x → s.entry (type i) ≡ ready x
    busy : (i : ℕ) → s.phase i ≡ constructing → s.entry (type i) ≡ building
    alone :
        (i j : ℕ) → s.phase i ≡ constructing → s.phase j ≡ constructing → type i ≡ type j → i ≡ j

  abbrev After : Option Registry → Type 0
  After none = Unit
  After (some s) = IsRegistry s

  look_up-ready : (e : Entry) (x : ℕ) → e ≡ ready x → look_up e ≡ ready x
  unfolding look_up
  look_up-ready e x h = rw h refl

  look_up-building : (e : Entry) → e ≡ building → look_up e ≡ building
  unfolding look_up
  look_up-building e h = rw h refl

  put_eq {ℓ} :
      {A : Type ℓ} (f : ℕ → A) (i j : ℕ) (v w : A)
      → (i ≡ j → v ≡ w)
      → (i ≢ j → f j ≡ w)
      → put f i v j ≡ w
  put_eq f i j v w here there = elim (Bool-cases (i == j)) [
    | inl b ↦ rw b (here ((==_iff i j).0 b))
    | inr b ↦ rw b (there (λ h. ground (arith, b, h)))
  ]

  pub put_self {ℓ} : {A : Type ℓ} (f : ℕ → A) (i j : ℕ) (v : A) → i ≡ j → put f i v j ≡ v
  put_self f i j v h = rw ((==_iff i j).1 h) refl

  pub put_cases {ℓ} :
      {A : Type ℓ} (f : ℕ → A) (i j : ℕ) (v w : A)
      → put f i v j ≡ w
      → ((i ≡ j) × (v ≡ w)) ⊎ (f j ≡ w)
  put_cases f i j v w e = elim (Bool-cases (i == j)) [
    | inl b ↦ let h : i ≡ j = (==_iff i j).0 b in inl (h, sym (put_self f i j v h) ∙ e)
    | inr b ↦ inr (sym (rw b refl) ∙ e)
  ]

  -- Another thread's write to its phase.
  other {ℓ} : {A : Type ℓ} (f : ℕ → A) (i j : ℕ) (v w : A) → v ≢ w → put f i v j ≡ w → f j ≡ w
  other f i j v w n e = elim (put_cases f i j v w e) [ inl h ↦ absurd (n h.1) | inr g ↦ g ]

  module _ (i : ℕ) (s : Registry) (v : IsRegistry s) where
    look_up-IsRegistry : s.phase i ≡ looking → After (get_step (type i) i s looking)
    unfolding get_step
    look_up-IsRegistry e = record {
      same = λ j x f.
          let g = v.same j x (other s.phase i j entered (got x) (λ h. cc) f) in
          put_eq s.entry (type i) (type j) _ (ready x) (λ q. look_up-ready _ x (ap s.entry q ∙ g))
            (λ n. g);
      busy = λ j f.
          let g = v.busy j (other s.phase i j entered constructing (λ h. cc) f) in
          put_eq s.entry (type i) (type j) _ building (λ q. look_up-building _ (ap s.entry q ∙ g))
            (λ n. g);
      alone = λ j k f g.
          v.alone j k (other s.phase i j entered constructing (λ h. cc) f)
            (other s.phase i k entered constructing (λ h. cc) g);
    }

    -- The entry of a thread in the factory is neither new nor ready.
    not_fresh : (j : ℕ) → s.entry (type i) ≡ fresh → s.phase j ≡ constructing → type i ≢ type j
    not_fresh j h g q = let clash : fresh ≡ building = sym h ∙ ap s.entry q ∙ v.busy j g in cc

    begin-IsRegistry : s.entry (type i) ≡ fresh → After (call_once (type i) i s fresh)
    unfolding call_once
    begin-IsRegistry h = record {
      same = λ j x f.
          let g = v.same j x (other s.phase i j constructing (got x) (λ h. cc) f) in
          put_eq s.entry (type i) (type j) building (ready x)
            (λ q. let clash : fresh ≡ ready x = sym h ∙ ap s.entry q ∙ g in cc) (λ n. g);
      busy = λ j f.
          put_eq s.entry (type i) (type j) building building (λ q. refl)
            (λ n. elim (put_cases s.phase i j constructing constructing f) [
              | inl ij ↦ absurd (n (ap type ij.0))
              | inr g ↦ v.busy j g
            ]);
      alone = λ j k f g q. elim (put_cases s.phase i j constructing constructing f) [
        | inl ij ↦ elim (put_cases s.phase i k constructing constructing g) [
          | inl ik ↦ sym ij.0 ∙ ik.0
          | inr gk ↦ absurd (not_fresh k h gk (ap type ij.0 ∙ q))
        ]
        | inr gj ↦ elim (put_cases s.phase i k constructing constructing g) [
          | inl ik ↦ absurd (not_fresh j h gj (ap type ik.0 ∙ sym q))
          | inr gk ↦ v.alone j k gj gk q
        ]
      ];
    }

    call_once-IsRegistry : (o : Entry) → s.entry (type i) ≡ o → After (call_once (type i) i s o)
    unfolding call_once
    call_once-IsRegistry absent h = tt
    call_once-IsRegistry building h = tt
    call_once-IsRegistry fresh h = begin-IsRegistry h
    call_once-IsRegistry (ready y) h = record {
      same = λ j x f. elim (put_cases s.phase i j (got y) (got x) f) [
        | inl ij ↦
            let yx : ready y ≡ ready x = got-ready y x ij.1 in
            ap (λ k. s.entry (type k)) (sym ij.0) ∙ h ∙ yx
        | inr g ↦ v.same j x g
      ];
      busy = λ j f. v.busy j (other s.phase i j (got y) constructing (λ h. cc) f);
      alone = λ j k f g.
          v.alone j k (other s.phase i j (got y) constructing (λ h. cc) f)
            (other s.phase i k (got y) constructing (λ h. cc) g);
    }
      where
        got-ready : (y x : ℕ) → got y ≡ got x → ready y ≡ ready x
        got-ready y x e = cc

    finish-IsRegistry : s.phase i ≡ constructing → After (get_step (type i) i s constructing)
    unfolding get_step
    finish-IsRegistry e = record {
      same = λ j x f. elim (put_cases s.phase i j (got s.made) (got x) f) [
        | inl ij ↦
            put_eq s.entry (type i) (type j) _ (ready x) (λ q. got-ready s.made x ij.1)
              (λ n. absurd (n (ap type ij.0)))
        | inr g ↦
            put_eq s.entry (type i) (type j) _ (ready x)
              (λ q.
                let clash : building ≡ ready x = sym (v.busy i e) ∙ ap s.entry q ∙ v.same j x g in
                cc)
              (λ n. v.same j x g)
      ];
      busy = λ j f.
          let g = other s.phase i j (got s.made) constructing (λ h. cc) f in
          put_eq s.entry (type i) (type j) _ building
            (λ q.
              let clash : got s.made ≡ constructing =
                sym (put_self s.phase i j (got s.made) (v.alone i j e g q)) ∙ f in
              cc)
            (λ n. v.busy j g);
      alone = λ j k f g.
          v.alone j k (other s.phase i j (got s.made) constructing (λ h. cc) f)
            (other s.phase i k (got s.made) constructing (λ h. cc) g);
    }
      where
        got-ready : (y x : ℕ) → got y ≡ got x → ready y ≡ ready x
        got-ready y x e = cc

    get_step-IsRegistry : (p : Phase) → s.phase i ≡ p → After (get_step (type i) i s p)
    unfolding get_step
    get_step-IsRegistry looking e = look_up-IsRegistry e
    get_step-IsRegistry entered e = call_once-IsRegistry _ refl
    get_step-IsRegistry constructing e = finish-IsRegistry e
    get_step-IsRegistry (got x) e = tt

  run-IsRegistry :
      (is : List ℕ) (s s' : Registry) → IsRegistry s → run type is s ≡ some s' → IsRegistry s'
  unfolding run
  run-IsRegistry [] s s' v e = subst After e v
  run-IsRegistry (i ∷ is) s s' v e = elim (Option-cases (get_step (type i) i s (s.phase i))) [
    | inl f ↦ absurd (none-some (ap next (sym f) ∙ e))
    | inr (s1, f) ↦
        run-IsRegistry is s1 s' (subst After f (get_step-IsRegistry i s v (s.phase i) refl))
          (ap next (sym f) ∙ e)
  ]
    where
      next : Option Registry → Option Registry
      next o = elim o [ none ↦ none | some s1 ↦ run type is s1 ]

      none-some : none ≢ some s'
      none-some f = cc

  -- However the calls of any number of threads interleave, those for the same type that have
  -- returned have returned the same instance.
  pub run-same :
      (is : List ℕ) (s : Registry) (i j x y : ℕ)
      → run type is start ≡ some s
      → type i ≡ type j
      → s.phase i ≡ got x
      → s.phase j ≡ got y
      → x ≡ y
  run-same is s i j x y e q f g = ready-injective (sym (v.same i x f) ∙ ap s.entry q ∙ v.same j y g)
    where
      v : IsRegistry s
      v =
          run-IsRegistry is start s
            (record { same = λ i x f. cc; busy = λ i f. cc; alone = λ i j f. cc }) e

      ready-injective : ready x ≡ ready y → x ≡ y
      ready-injective e = cc
