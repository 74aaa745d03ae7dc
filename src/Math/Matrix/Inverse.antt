-- ===== src/Math/Matrix/Inverse.antt =====
-- `cofactor` and `inverse` against the adjugate of a square matrix.
use native.Mathlib.Decide.{ℕ_discrete}
use common_lib.Common.{
  ℕ, zero, suc, ◌+◌, ◌-◌, ◌<◌, ◌≤◌, ◌≡◌, refl, ap, sym, ◌∙◌, subst, arith, true, false, not, ◌&&◌,
  if◌then◌else◌, ltb, ◌==◌, ==_refl,
}
use common_lib.Math.Result.{
  Result, returns, throws, ◌>>=◌, Reaches, Reaches-bind, for_each, for_each-Reaches,
}
use common_lib.Math.Matrix.{
  copy, Scalar, Matrix, create, read, write, traversal, sign, determine, Target, emit, gather,
  cofactor, inverse_of, inverse,
}
use common_lib.Math.Matrix.Fill.{Settles, traversal-Settled}
use common_lib.Math.Matrix.Laws.{
  IsMatrix, HasSize, read_lem, write_lem, put_self, put_other, div_lem,
}
use common_lib.Math.Matrix.Product.{transpose_lem}
use common_lib.Math.Matrix.Minor.{
  pick, emitted, emitted_all, emitted_skip, emitted_next, emitted-lt, pick-emitted, AtRow, line_lem,
}
use common_lib.Math.Matrix.Determinant.{det, det_congr, determine_lem}

for_each-skips {ℓ} :
    {S : Type ℓ} (body : ℕ → S → Result S) (s : S)
    → ((i : ℕ) → body i s ≡ returns s)
    → (count i : ℕ) → for_each body i count s ≡ returns s
unfolding for_each
for_each-skips body s h zero i = refl
for_each-skips body s h (suc count) i = rw (h i) (for_each-skips body s h count (i + 1))

module _ {ℓ} {T : Type ℓ} where
  -- The elements without a row and a column.
  abbrev pub without_both : (ℕ → ℕ → T) → ℕ → ℕ → ℕ → ℕ → T
  without_both f r c i j = f (pick r i) (pick c j)

  gather_lem :
      (m : Matrix T) (r3 c3 : ℕ) (new : Matrix T)
      → r3 < m.row
      → c3 < m.col
      → 1 < m.col
      → m.row ≤ new.row + 1
      → m.col ≤ new.col + 1
      → Reaches
          (λ mat.
            HasSize new.row new.col mat
            × ((i j : ℕ)
                → i < m.row - 1
                → j < m.col - 1
                → mat.cell i j ≡ without_both m.cell r3 c3 i j))
          (gather m r3 c3 new)
  unfolding gather traversal
  gather_lem m r3 c3 new hr3 wide two tall room =
      Reaches-bind (Row m.row) _ (for_each lines 0 m.row start) (λ s. returns s.mat)
        (for_each-Reaches Row lines m.row round m.row 0 start (omega arith)
          ((refl, refl), λ i j hi hj. absurd (ground arith), ground arith, refl))
        (λ s h. (
          s.mat,
          refl,
          (h.0, λ i j hi hj. h.1 i j (omega (arith, hi, emitted_all r3 m.row hr3)) hj),
        ))
    where
      value : ℕ → ℕ → T
      value i j = without_both m.cell r3 c3 i j

      start : Target T
      start = record { x = 0; y = 0; mat = new }

      body : ℕ → ℕ → Target T → Result (Target T)
      body r c s =
          if not (r == r3) && not (c == c3)
          then (read m r c >>= λ v. emit (not (ltb (s.y + 2) m.col)) v s)
          else returns s

      lines : ℕ → Target T → Result (Target T)
      lines r s = for_each (body r) 0 m.col s

      Row : ℕ → Target T → Type ℓ
      Row r s = AtRow m.col new.row new.col value (emitted r3 r) s

      round : (r : ℕ) (s : Target T) → r < m.row → Row r s → Reaches (Row (r + 1)) (lines r s)
      round r s hr h = elim (ℕ_discrete r r3) [
        | yes e ↦ (
          s,
          for_each-skips (body r) s (λ c. left_out r c s e) m.col 0,
          subst (λ k. AtRow m.col new.row new.col value k s) (stays e) h,
        )
        | no n ↦
            let (s', e, q) =
              line_lem m.col new.row new.col value m c3 r (emitted r3 r) (body r)
                (λ s'. rw (==_refl c3) (ground arith))
                (λ c s' hc nc less. ground (arith, read_lem m r c hr hc))
                (λ j hj. ap (λ k. m.cell k (pick c3 j)) (sym (pick-emitted r3 r n))) wide two
                (omega (arith, emitted-lt r3 r m.row n hr3 hr)) room s h in
            (
              s',
              e,
              subst (λ k. AtRow m.col new.row new.col value k s') (sym (emitted_next r3 r n)) q,
            )
      ]
        where
          left_out : (r c : ℕ) (s : Target T) → r ≡ r3 → body r c s ≡ returns s
          left_out r c s e = ground arith

          stays : r ≡ r3 → emitted r3 r ≡ emitted r3 (r + 1)
          stays e = ap (emitted r3) e ∙ sym (emitted_skip r3) ∙ ap (λ k. emitted r3 (k + 1)) (sym e)

module _ {ℓ} {T : Type ℓ} ⦃t : Scalar T⦄ (junk : T) where
  -- The cofactor of an element.
  abbrev pub cofactor_at : Matrix T → ℕ → ℕ → T
  cofactor_at m r c = t.mul (sign junk (r + c)) (det junk (without_both m.cell r c) (m.row - 1))

  cofactor_lem :
      (m : Matrix T)
      → m.row ≡ m.col
      → 1 < m.row
      → Reaches (IsMatrix m.row m.col (λ i j. cofactor_at m j i)) (cofactor junk m)
  unfolding cofactor create
  cofactor_lem m sq two =
      let ((mat, new), e, p) =
        traversal-Settled Sizes (λ s. s.0.cell) m.row m.col (λ r c. junk) (cofactor_at m) body round
          (create junk m.col m.row, create junk m.col m.row) ((refl, refl), (refl, refl))
          (λ i j. refl) in
      let (mat', e', q) = transpose_lem junk mat in
      rw e (
        rw e' (
          mat',
          refl,
          (
            q.0 ∙ p.0.0.1,
            q.1 ∙ p.0.0.0 ∙ sym sq ∙ sq,
            λ i j hi hj.
                q.2 i j (omega (arith, p.0.0.1)) (omega (arith, p.0.0.0))
                ∙ p.1 j i (omega arith) (omega arith),
          ),
        ))
    where
      Sizes : Matrix T × Matrix T → Type 0
      Sizes s = HasSize m.col m.row s.0 × HasSize m.col m.row s.1

      body : ℕ → ℕ → Matrix T × Matrix T → Result (Matrix T × Matrix T)
      body r c s = gather m r c s.1 >>= λ new. determine junk new (m.row - 1) >>= λ d.
          write s.0 r c (t.mul (sign junk (r + c)) d) >>= λ mat. returns (mat, new)

      round :
          (r c : ℕ) (s : Matrix T × Matrix T)
          → r < m.row
          → c < m.col
          → Sizes s
          → s.0.cell r c ≡ junk
          → Reaches
              (Settles Sizes (λ s'. s'.0.cell) m.row m.col (λ i j. junk) (cofactor_at m) r c s)
              (body r c s)
      round r c s hr hc k h =
          let (new, e, p) =
            gather_lem m r c s.1 hr hc (omega arith) (omega (arith, k.1)) (omega (arith, k.1)) in
          let minor_det : det junk new.cell (m.row - 1)
              ≡ det junk (without_both m.cell r c) (m.row - 1) =
            det_congr junk new.cell (without_both m.cell r c) (m.row - 1)
              (λ i j hi hj. p.1 i j hi (omega arith)) in
          let determined : determine junk new (m.row - 1)
              ≡ returns (det junk (without_both m.cell r c) (m.row - 1)) =
            determine_lem junk (m.row - 1) new (omega (arith, p.0, k.1)) (omega (arith, p.0, k.1))
            ∙ ap returns minor_det in
          rw e (
            rw determined (
              rw (write_lem s.0 r c (cofactor_at m r c) (omega (arith, k.0)) (omega (arith, k.0))) (
                _,
                refl,
                (
                  (k.0, (p.0.0 ∙ k.1.0, p.0.1 ∙ k.1.1)),
                  put_self s.0.cell r c (cofactor_at m r c),
                  put_other s.0.cell r c (cofactor_at m r c),
                ),
              )))

  -- The inverse of a square matrix of at least two rows, whose determinant tests neither equal to 0
  -- nor to 1, is a matrix of its size that holds at each place the cofactor of the transposed place
  -- divided by the determinant; no access is out of bounds.
  pub inverse_lem :
      (m : Matrix T)
      → m.row ≡ m.col
      → 1 < m.row
      → t.is_nought (det junk m.cell m.row) ≡ false
      → t.is_one (det junk m.cell m.row) ≡ false
      → Reaches
          (IsMatrix m.row m.col (λ i j. t.div (cofactor_at m j i) (det junk m.cell m.row)))
          (inverse junk m)
  unfolding inverse inverse_of
  inverse_lem m sq two nz no_one =
      let d : T = det junk m.cell m.row in
      let (adjugate, e, p) = cofactor_lem m sq two in
      let (x, e', q) = div_lem junk adjugate d in
      rw (determine_lem junk m.row m sq (omega arith)) (
        rw nz (
          rw no_one (
            rw e (
              x,
              e',
              (
                q.0 ∙ p.0,
                q.1 ∙ p.1,
                λ i j hi hj.
                    q.2 i j (omega (arith, p.0)) (omega (arith, p.1))
                    ∙ ap (λ z. t.div z d) (p.2 i j hi hj),
              ),
            ))))

  -- It is refused if the determinant is nought.
  pub inverse-throws :
      (m : Matrix T)
      → m.row ≡ m.col
      → t.is_nought (det junk m.cell m.row) ≡ true
      → inverse junk m ≡ throws
  unfolding inverse inverse_of
  inverse-throws m sq z = rw (determine_lem junk m.row m sq (omega arith)) (rw z refl)

  -- If the determinant is one, the matrix is copied, and its first element set.
  pub inverse-unit :
      (m : Matrix T)
      → m.row ≡ m.col
      → t.is_nought (det junk m.cell m.row) ≡ false
      → t.is_one (det junk m.cell m.row) ≡ true
      → inverse junk m ≡ (copy junk m >>= λ rtn. write rtn 0 0 t.one)
  unfolding inverse inverse_of
  inverse-unit m sq nz one = rw (determine_lem junk m.row m sq (omega arith)) (rw nz (rw one refl))
