-- ===== src/Math/Kalman/Single.antt =====
-- A filter with a single measurement.
use common_lib.Common.{
  ◌≢◌, inl, inr, ℕ, ◌<◌, ◌≡◌, refl, ap, ap₂, ◌-◌, sym, ◌∙◌, subst, arith, false,
}
use common_lib.Math.Result.{Result, returns, throws, Reaches, Reaches-bind, for_each}
use common_lib.Math.Matrix.{
  Scalar, Matrix, create, read, write, traversal, copy, transpose, mul, div, emit, gather, put,
  determine, cofactor, inverse_of, inverse,
}
use common_lib.Math.Matrix.Laws.{HasSize, IsMatrix}
use common_lib.Math.Matrix.Product.{product, sum_upto}
use common_lib.Math.Kalman.{innovation, gain}
use common_lib.Math.Kalman.Runs.{innovation-Safe}
use common_lib.Math.Kalman.Safety.{Safe, transpose-Reaches, mul-Reaches}

module _ {ℓ} {T : Type ℓ} ⦃t : Scalar T⦄ (junk : T) where
  put_first : (f : ℕ → ℕ → T) (v : T) (i j : ℕ) → i < 1 → j < 1 → put f 0 0 v i j ≡ v
  put_first f v i j hi hj = ground arith

  -- The inverse of one element, which is neither nought nor one.
  inverse-cell :
      (cell : ℕ → ℕ → T)
      → t.is_nought (cell 0 0) ≡ false
      → t.is_one (cell 0 0) ≡ false
      → Reaches
          (IsMatrix 1 1 (λ i j. t.div (t.mul t.one t.nought) (cell 0 0)))
          (inverse junk (record { row = 1; col = 1; cell = cell }))
  unfolding inverse inverse_of determine read copy write traversal for_each create cofactor gather
      emit transpose div
  inverse-cell cell nz no_one = rw nz (rw no_one (_, refl, (refl, refl, put_first _ _)))

  returned {κ} : (P : Matrix T → Type κ) (s : Matrix T) → Safe (Unit {0}) P (returns s) → P s
  returned P s (inl (x, e, p)) = subst P (same e) p
    where
      same : ◌≡◌ {A = Result (Matrix T)} (returns s) (returns x) → x ≡ s
      same e = cc
  returned P s (inr (u, e)) = absurd (clash e)
    where
      clash : returns s ≢ throws
      clash e = cc

  -- For a scalar type where nought times anything and nought divided by anything is nought: let a
  -- filter have at least one state and a single measurement, in matrices that fit. If the innovation
  -- covariance is neither nought nor one, then the Kalman gain has no element but nought, and the
  -- measurement has no weight.
  pub gain-single :
      (n : ℕ) (h pp r s : Matrix T)
      → ((x : T) → t.mul x t.nought ≡ t.nought)
      → ((x : T) → t.div t.nought x ≡ t.nought)
      → 0 < n
      → HasSize 1 n h
      → HasSize n n pp
      → HasSize 1 1 r
      → innovation junk h pp r ≡ returns s
      → t.is_nought (s.cell 0 0) ≡ false
      → t.is_one (s.cell 0 0) ≡ false
      → Reaches (IsMatrix n 1 (λ i j. t.nought)) (gain junk h pp r)
  unfolding gain sum_upto
  gain-single n h pp r s times over states hh hp hr e nz no_one =
      Reaches-bind (IsMatrix n 1 (λ i j. h.cell j i)) _ (transpose junk h) _
        (transpose-Reaches junk 1 n h hh)
        (λ ht k1.
          Reaches-bind (IsMatrix n 1 (product junk pp ht)) _ (mul junk pp ht) _
            (mul-Reaches junk n n 1 pp ht states hp (k1.0, k1.1))
            (λ pht k2. rw e (
              Reaches-bind (IsMatrix 1 1 (λ i j. none)) _ (inverse junk s) _ inverted (λ s' k3.
                let (k, f, (kr, kc, cells)) =
                  mul-Reaches junk n 1 1 pht s' (omega arith) (k2.0, k2.1) (k3.0, k3.1) in
                (
                  k,
                  f,
                  (
                    kr,
                    kc,
                    λ i j hi hj.
                        cells i j hi hj
                        ∙ ap (λ c. sum_upto junk (λ x. t.mul (pht.cell i x) (s'.cell x j)) (c - 1))
                            k2.1
                        ∙ ap (t.mul (pht.cell i 0)) (k3.2 0 j (omega arith) hj)
                        ∙ ap (t.mul (pht.cell i 0))
                            (ap (λ x. t.div x (s.cell 0 0)) (times t.one) ∙ over (s.cell 0 0))
                        ∙ times (pht.cell i 0),
                  ),
                )))))
    where
      none : T
      none = t.div (t.mul t.one t.nought) (s.cell 0 0)

      size : HasSize 1 1 s
      size = returned (HasSize 1 1) s (
          subst (Safe (Unit {0}) (HasSize 1 1)) e
            (innovation-Safe junk (Unit {0}) n 1 states (omega arith) h pp r hh hp hr))

      same :
          (x : Matrix T)
          → x.row ≡ 1
          → x.col ≡ 1
          → ◌≡◌ {A = Matrix T} (record { row = 1; col = 1; cell = x.cell }) x
      same x xr xc = ap₂ (λ r c. record { row = r; col = c; cell = x.cell }) (sym xr) (sym xc)

      inverted : Reaches (IsMatrix 1 1 (λ i j. none)) (inverse junk s)
      inverted =
          subst (λ x. Reaches (IsMatrix 1 1 (λ i j. none)) (inverse junk x)) (same s size.0 size.1)
            (inverse-cell s.cell nz no_one)
