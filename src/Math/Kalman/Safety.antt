-- ===== src/Math/Kalman/Safety.antt =====
-- The operations of a filter whose matrices fit: sizes, and no access out of bounds.
use common_lib.Common.{
  ℕ, zero, suc, ◌<◌, ◌≡◌, refl, ap, ap₂, sym, ◌∙◌, subst, arith, true, false, Bool-cases, ◌⊎◌, inl,
  inr,
}
use common_lib.Math.Result.{Result, returns, throws, undefined, ◌>>=◌, Reaches, for_each}
use common_lib.Math.Matrix.{
  Scalar, Matrix, create, read, write, traversal, same_size, copy, transpose, combine, mul, div,
  emit, gather, determine, cofactor, inverse_of, inverse,
}
use common_lib.Math.Matrix.Laws.{
  HasSize, IsMatrix, read_lem, write_lem, traversal-IsMatrix, copy_lem, combine_lem,
}
use common_lib.Math.Matrix.Product.{product, transpose_lem, mul_lem}
use common_lib.Math.Matrix.Determinant.{det}
use common_lib.Math.Matrix.Inverse.{inverse_lem, inverse-throws, inverse-unit}
use common_lib.Math.Kalman.{Kalman, assign}

-- It returns, and what it returns is as stated, or it throws, and then `W`; it is not `undefined`.
abbrev pub Safe {ℓ κ μ} : {S : Type ℓ} → Type μ → (S → Type κ) → Result S → Type (ℓ ⊔ κ ⊔ μ)
Safe W Q r = Reaches Q r ⊎ (W × (r ≡ throws))

pub Safe-bind {ℓ κ μ ν ξ} :
    {A : Type ℓ} {B : Type κ} {W : Type ξ} (P : A → Type μ) (Q : B → Type ν) (r : Result A)
    (f : A → Result B)
    → Safe W P r
    → ((a : A) → r ≡ returns a → P a → Safe W Q (f a))
    → Safe W Q (r >>= f)
Safe-bind {W} P Q r f (inl (a, e, p)) h = subst (λ r. Safe W Q (r >>= f)) (sym e) (h a e p)
Safe-bind P Q r f (inr (w, e)) h = inr (w, ap (λ r. r >>= f) e)

-- The sizes of the matrices, for so many states and measurements.
abbrev pub Fits {ℓ} : {T : Type ℓ} → ℕ → ℕ → Kalman T → Type 0
Fits n m f =
    (HasSize m n f.h)
    × (HasSize n n f.q)
    × (HasSize m m f.r)
    × (HasSize n 1 f.x)
    × (HasSize n n f.p)

module _ {ℓ} {T : Type ℓ} ⦃t : Scalar T⦄ (junk : T) where
  -- The products and transposes of matrices that fit.
  pub mul-Reaches :
      (a b c : ℕ) (x y : Matrix T)
      → 0 < b
      → HasSize a b x
      → HasSize b c y
      → Reaches (IsMatrix a c (product junk x y)) (mul junk x y)
  mul-Reaches a b c x y pos (xr, xc) (yr, yc) =
      subst (λ r. Reaches (IsMatrix r c (product junk x y)) (mul junk x y)) xr
        (subst (λ k. Reaches (IsMatrix x.row k (product junk x y)) (mul junk x y)) yc
          (mul_lem junk x y (xc ∙ sym yr) (omega (arith, pos, xc))))

  pub transpose-Reaches :
      (a b : ℕ) (x : Matrix T)
      → HasSize a b x
      → Reaches (IsMatrix b a (λ i j. x.cell j i)) (transpose junk x)
  transpose-Reaches a b x (xr, xc) =
      subst (λ r. Reaches (IsMatrix r a (λ i j. x.cell j i)) (transpose junk x)) xc
        (subst (λ k. Reaches (IsMatrix x.col k (λ i j. x.cell j i)) (transpose junk x)) xr
          (transpose_lem junk x))

module _ {ℓ κ} {T : Type ℓ} ⦃t : Scalar T⦄ (junk : T) (W : Type κ) where
  sized :
      (row col : ℕ) (value : ℕ → ℕ → T) (r : Result (Matrix T))
      → Reaches (IsMatrix row col value) r
      → Safe W (HasSize row col) r
  sized row col value r (x, e, p) = inl (x, e, (p.0, p.1))

  pub mul-Safe :
      (a b c : ℕ) (x y : Matrix T)
      → 0 < b
      → HasSize a b x
      → HasSize b c y
      → Safe W (HasSize a c) (mul junk x y)
  mul-Safe a b c x y pos hx hy =
      sized a c (product junk x y) (mul junk x y) (mul-Reaches junk a b c x y pos hx hy)

  pub transpose-Safe :
      (a b : ℕ) (x : Matrix T) → HasSize a b x → Safe W (HasSize b a) (transpose junk x)
  transpose-Safe a b x h = sized b a _ (transpose junk x) (transpose-Reaches junk a b x h)

  pub combine-Safe :
      (op : T → T → T) (a b : ℕ) (x y : Matrix T)
      → HasSize a b x
      → HasSize a b y
      → Safe W (HasSize a b) (combine junk op x y)
  combine-Safe op a b x y (xr, xc) (yr, yc) =
      subst (λ r. Safe W (HasSize r b) (combine junk op x y)) xr
        (subst (λ k. Safe W (HasSize x.row k) (combine junk op x y)) xc
          (sized x.row x.col _ (combine junk op x y)
            (combine_lem junk op x y (xr ∙ sym yr) (xc ∙ sym yc))))

  -- The elements are assigned in bounds, and then the end is reached.
  pub assign-undefined :
      (a b : ℕ) (x y : Matrix T) → HasSize a b x → HasSize a b y → assign x y ≡ undefined
  unfolding assign
  assign-undefined a b x y (xr, xc) (yr, yc) = elim (Bool-cases (same_size x y)) [
    | inr e ↦ absurd (let clash : false ≡ true = sym e ∙ ground (arith, xr, xc, yr, yc) in cc)
    | inl e ↦
        let (m, f, p) =
          traversal-IsMatrix x.row x.col x.cell y.cell body round x (refl, refl) (λ i j. refl) in
        rw e (ap (λ r. r >>= (λ m. undefined)) f)
  ]
    where
      body : ℕ → ℕ → Matrix T → Result (Matrix T)
      body r c m = do value ← read y r c; write m r c value

      round :
          (r c : ℕ) (s : Matrix T)
          → r < x.row
          → c < x.col
          → s.cell r c ≡ x.cell r c
          → HasSize x.row x.col s
          → body r c s ≡ write s r c (y.cell r c)
      round r c s hr hc k z =
          rw (read_lem y r c (omega (arith, hr, xr, yr)) (omega (arith, hc, xc, yc))) refl

  -- The inverse of one element.
  single-Safe :
      (cell : ℕ → ℕ → T)
      → (t.is_nought (cell 0 0) ≡ true → W)
      → Safe W (HasSize 1 1) (inverse junk (record { row = 1; col = 1; cell = cell }))
  unfolding inverse inverse_of determine read copy write traversal for_each create cofactor gather
      emit transpose div
  single-Safe cell w = elim (Bool-cases (t.is_nought (cell 0 0))) [
    | inl e ↦ rw e (inr (w e, refl))
    | inr e ↦ rw e (elim (Bool-cases (t.is_one (cell 0 0))) [
      | inl f ↦ rw f (inl (_, refl, (refl, refl)))
      | inr f ↦ rw f (inl (_, refl, (refl, refl)))
    ])
  ]

  write-Safe :
      (a b : ℕ) (x : Matrix T) (v : T)
      → 0 < a
      → 0 < b
      → HasSize a b x
      → Safe W (HasSize a b) (write x 0 0 v)
  write-Safe a b x v ha hb (xr, xc) =
      inl (_, write_lem x 0 0 v (omega (arith, xr, ha)) (omega (arith, xc, hb)), (xr, xc))

  square-Safe :
      (x : Matrix T)
      → x.row ≡ x.col
      → 1 < x.row
      → (t.is_nought (det junk x.cell x.row) ≡ true → W)
      → Safe W (HasSize x.row x.col) (inverse junk x)
  square-Safe x sq two w = elim (Bool-cases (t.is_nought d)) [
    | inl e ↦ inr (w e, inverse-throws junk x sq e)
    | inr e ↦ elim (Bool-cases (t.is_one d)) [
      | inr f ↦ sized x.row x.col _ (inverse junk x) (inverse_lem junk x sq two e f)
      | inl f ↦ unit e f
    ]
  ]
    where
      d : T
      d = det junk x.cell x.row

      writes : Matrix T → Result (Matrix T)
      writes y = write y 0 0 t.one

      unit :
          t.is_nought d ≡ false → t.is_one d ≡ true → Safe W (HasSize x.row x.col) (inverse junk x)
      unit e f = subst (Safe W (HasSize x.row x.col)) (sym (inverse-unit junk x sq e f)) (
          Safe-bind (HasSize x.row x.col) (HasSize x.row x.col) (copy junk x) writes
            (sized x.row x.col x.cell (copy junk x) (copy_lem junk x))
            (λ y q h.
              write-Safe x.row x.col y t.one (omega (arith, two)) (omega (arith, two, sq)) h))

  pub inverse-Safe :
      (n : ℕ) (x : Matrix T)
      → 0 < n
      → HasSize n n x
      → (t.is_nought (det junk x.cell n) ≡ true → W)
      → Safe W (HasSize n n) (inverse junk x)
  inverse-Safe zero x pos h w = absurd (omega (arith, pos))
  inverse-Safe (suc zero) x pos (xr, xc) w =
      subst (λ y. Safe W (HasSize 1 1) (inverse junk y)) (same x xr xc)
        (single-Safe x.cell (unfold det in w))
    where
      same :
          (x : Matrix T)
          → x.row ≡ 1
          → x.col ≡ 1
          → ◌≡◌ {A = Matrix T} (record { row = 1; col = 1; cell = x.cell }) x
      same x xr xc = ap₂ (λ r c. record { row = r; col = c; cell = x.cell }) (sym xr) (sym xc)
  inverse-Safe (suc (suc n)) x pos (xr, xc) w =
      subst (λ r. Safe W (HasSize r (suc (suc n))) (inverse junk x)) xr
        (subst (λ k. Safe W (HasSize x.row k) (inverse junk x)) xc
          (square-Safe x (xr ∙ sym xc) (omega (arith, xr))
            (λ e. w (subst (λ k. t.is_nought (det junk x.cell k) ≡ true) xr e))))
