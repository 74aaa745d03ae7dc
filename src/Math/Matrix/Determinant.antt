-- ===== src/Math/Matrix/Determinant.antt =====
-- `determine` against the expansion of a determinant along its first row.
use common_lib.Common.{ℕ, zero, suc, ◌+◌, ◌<◌, ◌≤◌, ◌≡◌, refl, ap, ap₂, sym, ◌∙◌, arith}
use common_lib.Math.Result.{Result, returns, ◌>>=◌, Reaches, for_each-Reaches}
use common_lib.Math.Matrix.{Scalar, Matrix, create, read, minor, sign, determine}
use common_lib.Math.Matrix.Laws.{HasSize, read_lem}
use common_lib.Math.Matrix.Minor.{pick, minor_lem}

module _ {ℓ} {T : Type ℓ} ⦃t : Scalar T⦄ (junk : T) where
  -- `0 + g 0 + … + g (k - 1)`, from the left.
  unfoldable pub total : (ℕ → T) → ℕ → T
  total g zero = t.nought
  total g (suc k) = t.add (total g k) (g k)

  -- The elements without the first row and the column `skip`.
  abbrev pub without : (ℕ → ℕ → T) → ℕ → ℕ → ℕ → T
  without f skip i j = f (i + 1) (pick skip j)

  -- The determinant of the first `size` rows and columns.
  unfoldable pub det : (ℕ → ℕ → T) → ℕ → T
  det f zero = t.nought
  det f (suc zero) = f 0 0
  det f (suc (suc zero)) = t.sub (t.mul (f 0 0) (f 1 1)) (t.mul (f 0 1) (f 1 0))
  det f (suc (suc (suc n))) =
      total (λ c. t.mul (t.mul (f 0 c) (sign junk c)) (det (without f c) (suc (suc n))))
        (suc (suc (suc n)))

  total_congr : (g h : ℕ → T) (k : ℕ) → ((c : ℕ) → c < k → g c ≡ h c) → total g k ≡ total h k
  unfolding total
  total_congr g h zero e = refl
  total_congr g h (suc k) e =
      ap₂ t.add (total_congr g h k (λ c hc. e c (omega arith))) (e k (omega arith))

  -- It depends on these rows and columns only.
  pub det_congr :
      (f g : ℕ → ℕ → T) (size : ℕ)
      → ((i j : ℕ) → i < size → j < size → f i j ≡ g i j)
      → det f size ≡ det g size
  unfolding det
  det_congr f g zero e = refl
  det_congr f g (suc zero) e = e 0 0 (omega arith) (omega arith)
  det_congr f g (suc (suc zero)) e =
      ap₂ t.sub (ap₂ t.mul (e 0 0 (omega arith) (omega arith)) (e 1 1 (omega arith) (omega arith)))
        (ap₂ t.mul (e 0 1 (omega arith) (omega arith)) (e 1 0 (omega arith) (omega arith)))
  det_congr f g (suc (suc (suc n))) e = total_congr _ _ (suc (suc (suc n))) (λ c hc.
      ap₂ t.mul (ap (λ a. t.mul a (sign junk c)) (e 0 c (omega arith) hc)) (
        det_congr (without f c) (without g c) (suc (suc n))
          (λ i j hi hj. e (i + 1) (pick c j) (omega arith) (ground arith))))

  total_next : (g : ℕ → T) (k : ℕ) → t.add (total g k) (g k) ≡ total g (k + 1)
  unfolding total
  total_next g k = ap (total g) (index k)
    where
      index : (k : ℕ) → suc k ≡ k + 1
      index k = omega arith

  -- The loop, once the determinants of the minors are known.
  expand_lem :
      (n : ℕ) (m : Matrix T)
      → m.row ≡ m.col
      → suc (suc (suc n)) ≤ m.row
      → ((m' : Matrix T)
          → m'.row ≡ m'.col
          → suc (suc n) ≤ m'.row
          → determine junk m' (suc (suc n)) ≡ returns (det m'.cell (suc (suc n))))
      → determine junk m (suc (suc (suc n))) ≡ returns (det m.cell (suc (suc (suc n))))
  unfolding determine det create
  expand_lem n m sq le ih =
      let (s, e, p) =
        for_each-Reaches Sum body size round size 0 (t.nought, create junk m.col m.row)
          (omega arith) (unfold total in refl, (refl, refl)) in
      rw e (ap returns p.0)
    where
      size : ℕ
      size = suc (suc (suc n))

      term : ℕ → T
      term c = t.mul (t.mul (m.cell 0 c) (sign junk c)) (det (without m.cell c) (suc (suc n)))

      Sum : ℕ → T × Matrix T → Type ℓ
      Sum c s = (s.0 ≡ total term c) × HasSize m.col m.row s.1

      body : ℕ → T × Matrix T → Result (T × Matrix T)
      body c s = minor m c s.1 >>= λ new. read m 0 c >>= λ a.
          determine junk new (suc (suc n)) >>= λ d.
          returns (t.add s.0 (t.mul (t.mul a (sign junk c)) d), new)

      round : (c : ℕ) (s : T × Matrix T) → c < size → Sum c s → Reaches (Sum (c + 1)) (body c s)
      round c s hc (e, dims) =
          let (new, q, p) =
            minor_lem m c s.1 (omega arith) (omega arith) (omega arith) (omega (arith, dims))
              (omega (arith, dims)) in
          let minor_det : det new.cell (suc (suc n)) ≡ det (without m.cell c) (suc (suc n)) =
            det_congr new.cell (without m.cell c) (suc (suc n))
              (λ i j hi hj. p.1 i j (omega arith) (omega arith)) in
          rw q (
            rw (read_lem m 0 c (omega arith) (omega arith)) (
              rw
                (ih new (p.0.0 ∙ dims.0 ∙ sym sq ∙ sym dims.1 ∙ sym p.0.1)
                    (omega (arith, p.0.0, dims.0))
                  ∙ ap returns minor_det)
                (
                  _,
                  refl,
                  (
                    ap (λ z. t.add z (term c)) e ∙ total_next term c,
                    (p.0.0 ∙ dims.0, p.0.1 ∙ dims.1),
                  ),
                )))

  -- On a square matrix and for a size of at most its rows, `determine` returns the determinant of
  -- the first `size` rows and columns (the expansion along the first row, down to the formula for
  -- two rows), whatever uninitialised elements hold, and without an access out of bounds.
  pub determine_lem :
      (size : ℕ) (m : Matrix T)
      → m.row ≡ m.col
      → size ≤ m.row
      → determine junk m size ≡ returns (det m.cell size)
  unfolding determine det create
  determine_lem zero m sq le = refl
  determine_lem (suc zero) m sq le = read_lem m 0 0 (omega arith) (omega arith)
  determine_lem (suc (suc zero)) m sq le = rw (read_lem m 0 0 (omega arith) (omega arith)) (
      rw (read_lem m 1 1 (omega arith) (omega arith)) (
        rw (read_lem m 0 1 (omega arith) (omega arith))
          (rw (read_lem m 1 0 (omega arith) (omega arith)) refl)))
  determine_lem (suc (suc (suc n))) m sq le =
      expand_lem n m sq le (λ m' sq' le'. determine_lem (suc (suc n)) m' sq' le')
