-- ===== src/Math/Matrix/Fill.antt =====
-- A traversal that settles one element in each round settles them all.
use common_lib.Common.{ℕ, ◌+◌, ◌<◌, ◌≤◌, ◌≡◌, ◌≢◌, ◌⊎◌, inl, inr, refl, ap, sym, ◌∙◌, arith}
use native.Mathlib.Decide.{dec_lt}
use common_lib.Math.Result.{Result, Reaches, for_each, for_each-Reaches}
use common_lib.Math.Matrix.{traversal}

module _ {ℓ κ μ} {S : Type ℓ} {T : Type κ} (Keeps : S → Type μ) (at : S → ℕ → ℕ → T) (row col : ℕ)
    (start value : ℕ → ℕ → T) where
  -- All elements below row `r` are settled, and those of row `r` below `c`; the others are as at the
  -- start.
  abbrev Settled : ℕ → ℕ → S → Type (κ ⊔ μ)
  Settled r c s =
      Keeps s
      × ((i j : ℕ) → i < r → j < col → at s i j ≡ value i j)
      × ((j : ℕ) → j < c → at s r j ≡ value r j)
      × ((i j : ℕ) → (r < i) ⊎ ((r ≡ i) × (c ≤ j)) → at s i j ≡ start i j)

  -- What a round does: it settles its element, and leaves the others alone.
  abbrev pub Settles : ℕ → ℕ → S → S → Type (κ ⊔ μ)
  Settles r c s s' =
      Keeps s' × (at s' r c ≡ value r c) × ((i j : ℕ) → (i ≢ r) ⊎ (j ≢ c) → at s' i j ≡ at s i j)

  Settled-next : (r c : ℕ) (s s' : S) → Settled r c s → Settles r c s s' → Settled r (c + 1) s'
  Settled-next r c s s' (k, rows, this, left) (k', new, old) = (
    k',
    λ i j hi hj. old i j (inl (λ e. absurd (omega arith))) ∙ rows i j hi hj,
    λ j hj. elim (dec_lt j c) [
      | yes lt ↦ old r j (inr (λ e. absurd (omega arith))) ∙ this j lt
      | no ge ↦ let e : j ≡ c = omega arith in ap (at s' r) e ∙ new ∙ ap (value r) (sym e)
    ],
    λ i j h. old i j (later i j h) ∙ left i j (still i j h),
  )
    where
      later : (i j : ℕ) → (r < i) ⊎ ((r ≡ i) × (c + 1 ≤ j)) → (i ≢ r) ⊎ (j ≢ c)
      later i j (inl h) = inl (λ e. absurd (omega arith))
      later i j (inr h) = inr (λ e. absurd (omega (arith, h.1)))

      still : (i j : ℕ) → (r < i) ⊎ ((r ≡ i) × (c + 1 ≤ j)) → (r < i) ⊎ ((r ≡ i) × (c ≤ j))
      still i j (inl h) = inl h
      still i j (inr h) = inr (h.0, omega (arith, h.1))

  Settled-row : (r : ℕ) (s : S) → Settled r col s → Settled (r + 1) 0 s
  Settled-row r s (k, rows, this, left) = (
    k,
    λ i j hi hj. elim (dec_lt i r) [
      | yes lt ↦ rows i j lt hj
      | no ge ↦
          let e : i ≡ r = omega arith in
          ap (λ i'. at s i' j) e ∙ this j hj ∙ ap (λ i'. value i' j) (sym e)
    ],
    λ j hj. absurd (omega arith),
    λ i j h. left i j (inl (elim h [ inl lt ↦ omega (arith, lt) | inr e ↦ omega (arith, e.0) ])),
  )

  pub traversal-Settled :
      (body : ℕ → ℕ → S → Result S)
      → ((r c : ℕ) (s : S)
          → r < row
          → c < col
          → Keeps s
          → at s r c ≡ start r c
          → Reaches (Settles r c s) (body r c s))
      → (s : S) → Keeps s
      → ((i j : ℕ) → at s i j ≡ start i j)
      → Reaches
          (λ s'. Keeps s' × ((i j : ℕ) → i < row → j < col → at s' i j ≡ value i j))
          (traversal row col body s)
  unfolding traversal
  traversal-Settled body h s k z =
      let (s', e, p) =
        for_each-Reaches (λ r. Settled r 0) _ row line row 0 s (omega arith)
          (k, λ i j hi hj. absurd (omega arith), λ j hj. absurd (omega arith), λ i j q. z i j) in
      (s', e, (p.0, p.1))
    where
      round :
          (r c : ℕ) (s : S)
          → r < row
          → c < col
          → Settled r c s
          → Reaches (Settled r (c + 1)) (body r c s)
      round r c s hr hc p =
          let (s', e, q) = h r c s hr hc p.0 (p.3 r c (inr (refl, omega arith))) in
          (s', e, Settled-next r c s s' p q)

      line :
          (r : ℕ) (s : S)
          → r < row
          → Settled r 0 s
          → Reaches (Settled (r + 1) 0) (for_each (λ c s''. body r c s'') 0 col s)
      line r s hr p =
          let (s', e, q) =
            for_each-Reaches (Settled r) (λ c s''. body r c s'') col (λ c s' hc. round r c s' hr hc)
              col 0 s (omega arith) p in
          (s', e, Settled-row r s' q)
