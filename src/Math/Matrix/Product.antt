-- ===== src/Math/Matrix/Product.antt =====
-- `transpose` and `operator*` of a matrix against their mathematical meaning.
use common_lib.Common.{
  ℕ, zero, suc, ◌+◌, ◌-◌, ◌<◌, ◌≡◌, ◌≢◌, ◌⊎◌, inl, inr, refl, ap, ◌∙◌, arith, true, ◌==◌,
}
use common_lib.Math.Result.{Result, returns, ◌>>=◌, Reaches, for_each, for_each-Reaches}
use common_lib.Math.Matrix.{Scalar, Matrix, create, read, put, write, transpose, mul, dot}
use common_lib.Math.Matrix.Fill.{Settles, traversal-Settled}
use common_lib.Math.Matrix.Laws.{
  IsMatrix, HasSize, read_lem, write_lem, put_self, put_other, traversal-IsMatrix,
}

module _ {ℓ} {T : Type ℓ} ⦃t : Scalar T⦄ (junk : T) where
  pub transpose_lem :
      (m : Matrix T) → Reaches (IsMatrix m.col m.row (λ i j. m.cell j i)) (transpose junk m)
  unfolding transpose create
  transpose_lem m =
      let (x, e, p) =
        traversal-Settled (HasSize m.col m.row) (λ s r c. s.cell c r) m.row m.col (λ r c. junk)
          m.cell _ round _ (refl, refl) (λ i j. refl) in
      (x, e, (p.0.0, p.0.1, λ i j hi hj. p.1 j i hj hi))
    where
      round :
          (r c : ℕ) (s : Matrix T)
          → r < m.row
          → c < m.col
          → HasSize m.col m.row s
          → s.cell c r ≡ junk
          → Reaches
              (Settles
                (HasSize m.col m.row)
                (λ s' r' c'. s'.cell c' r')
                m.row
                m.col
                (λ r' c'. junk)
                m.cell
                r
                c
                s)
              (read m r c >>= λ value. write s c r value)
      round r c s hr hc k e = rw (read_lem m r c hr hc) (
        record s { cell = put s.cell c r (m.cell r c) },
        write_lem s c r (m.cell r c) (omega (arith, k.0)) (omega (arith, k.1)),
        (
          k,
          put_self s.cell c r (m.cell r c),
          λ i j h. put_other s.cell c r (m.cell r c) j i (swap i j h),
        ),
      )
        where
          swap : (i j : ℕ) → (i ≢ r) ⊎ (j ≢ c) → (j ≢ c) ⊎ (i ≢ r)
          swap i j (inl h) = inr h
          swap i j (inr h) = inl h

  -- `f 0 + f 1 + … + f n`, from the left.
  unfoldable pub sum_upto : (ℕ → T) → ℕ → T
  sum_upto f zero = f 0
  sum_upto f (suc n) = t.add (sum_upto f n) (f (suc n))

  -- The element of a product.
  abbrev pub product : Matrix T → Matrix T → ℕ → ℕ → T
  product lhs rhs i j = sum_upto (λ x. t.mul (lhs.cell i x) (rhs.cell x j)) (lhs.col - 1)

  dot_lem :
      (lhs rhs : Matrix T) (r c : ℕ)
      → lhs.col ≡ rhs.row
      → 0 < lhs.col
      → r < lhs.row
      → c < rhs.col
      → dot junk lhs rhs r c ≡ returns (product lhs rhs r c)
  unfolding dot sum_upto
  dot_lem lhs rhs r c e pos hr hc =
      rw (read_lem lhs r 0 hr pos) (rw (read_lem rhs 0 c (omega arith) hc) whole)
    where
      f : ℕ → T
      f x = t.mul (lhs.cell r x) (rhs.cell x c)

      body : ℕ → T → Result T
      body x sum = read lhs r x >>= λ a. read rhs x c >>= λ b. returns (t.add sum (t.mul a b))

      round :
          (i : ℕ) (s : T)
          → i < lhs.col
          → (0 < i) × (s ≡ sum_upto f (i - 1))
          → Reaches (λ s'. (0 < i + 1) × (s' ≡ sum_upto f (i + 1 - 1))) (body i s)
      round zero s h p = absurd (omega (arith, p.0))
      round (suc i) s h p = rw (read_lem lhs r (suc i) hr h) (
          rw (read_lem rhs (suc i) c (omega arith) hc) (
            t.add s (f (suc i)),
            refl,
            (
              omega arith,
              ap (λ z. t.add z (f (suc i))) (p.1 ∙ ap (sum_upto f) (pred i))
                  ∙ ap (sum_upto f) (next i),
            ),
          ))
        where
          pred : (i : ℕ) → suc i - 1 ≡ i
          pred i = omega arith

          next : (i : ℕ) → suc i ≡ suc i + 1 - 1
          next i = omega arith

      whole : for_each body 1 (lhs.col - 1) (f 0) ≡ returns (product lhs rhs r c)
      whole =
          let (s, q, p) =
            for_each-Reaches (λ i s'. (0 < i) × (s' ≡ sum_upto f (i - 1))) body lhs.col round
              (lhs.col - 1) 1 (f 0) (omega arith) (omega arith, refl) in
          q ∙ ap returns p.1

  -- If the first matrix has as many columns as the second has rows, and at least one, then their
  -- product has the rows of the first, the columns of the second, and at each place the sum of the
  -- products along that row and column; no access is out of bounds.
  pub mul_lem :
      (lhs rhs : Matrix T)
      → lhs.col ≡ rhs.row
      → 0 < lhs.col
      → Reaches (IsMatrix lhs.row rhs.col (product lhs rhs)) (mul junk lhs rhs)
  unfolding mul create
  mul_lem lhs rhs e pos = rw fits (
      traversal-IsMatrix lhs.row rhs.col (λ r c. junk) (product lhs rhs) _
        (λ r c s hr hc h k. rw (dot_lem lhs rhs r c e pos hr hc)) _ (refl, refl) (λ i j. refl))
    where
      fits : (lhs.col == rhs.row) ≡ true
      fits = ground arith
