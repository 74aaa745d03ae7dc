-- ===== src/Math/Matrix/Laws.antt =====
-- What the operations of a matrix return, element by element.
use common_lib.Common.{
  ℕ, ◌<◌, ◌≡◌, ◌≢◌, ◌⊎◌, inl, inr, refl, ap, ◌∙◌, arith, true, if◌then◌else◌, ◌==◌,
}
use common_lib.Math.Result.{Result, returns, ◌>>=◌, Reaches, Reaches-bind}
use common_lib.Math.Matrix.{
  Scalar, Matrix, create, read, put, write, traversal, same_size, copy, combine, div, eye,
}
use common_lib.Math.Matrix.Fill.{Settles, traversal-Settled}

module _ {ℓ} {T : Type ℓ} where
  -- A matrix of this size with these elements; what a cell outside holds does not matter.
  abbrev pub IsMatrix : ℕ → ℕ → (ℕ → ℕ → T) → Matrix T → Type ℓ
  IsMatrix row col value m =
      (m.row ≡ row) × (m.col ≡ col) × ((i j : ℕ) → i < row → j < col → m.cell i j ≡ value i j)

  abbrev pub HasSize : ℕ → ℕ → Matrix T → Type 0
  HasSize row col m = (m.row ≡ row) × (m.col ≡ col)

  pub read_lem :
      (m : Matrix T) (r c : ℕ) → r < m.row → c < m.col → read m r c ≡ returns (m.cell r c)
  unfolding read
  read_lem m r c hr hc = ground arith

  pub write_lem :
      (m : Matrix T) (r c : ℕ) (v : T)
      → r < m.row
      → c < m.col
      → write m r c v ≡ returns (record m { cell = put m.cell r c v })
  unfolding write
  write_lem m r c v hr hc = ground arith

  pub put_self : (cell : ℕ → ℕ → T) (r c : ℕ) (v : T) → put cell r c v r c ≡ v
  put_self cell r c v = ground arith

  pub put_other :
      (cell : ℕ → ℕ → T) (r c : ℕ) (v : T) (i j : ℕ)
      → (i ≢ r) ⊎ (j ≢ c)
      → put cell r c v i j ≡ cell i j
  put_other cell r c v i j (inl h) = ground arith
  put_other cell r c v i j (inr h) = ground arith

  module _ (row col : ℕ) (start value : ℕ → ℕ → T) where
    -- A round that writes its element settles it.
    write-Settles :
        (r c : ℕ) (s : Matrix T)
        → r < row
        → c < col
        → HasSize row col s
        → Reaches
            (Settles (HasSize row col) (λ m. m.cell) row col start value r c s)
            (write s r c (value r c))
    write-Settles r c s hr hc k = (
      record s { cell = put s.cell r c (value r c) },
      write_lem s r c (value r c) (omega (arith, k.0)) (omega (arith, k.1)),
      (k, put_self s.cell r c (value r c), put_other s.cell r c (value r c)),
    )

    pub traversal-IsMatrix :
        (body : ℕ → ℕ → Matrix T → Result (Matrix T))
        → ((r c : ℕ) (s : Matrix T)
            → r < row
            → c < col
            → s.cell r c ≡ start r c
            → HasSize row col s
            → body r c s ≡ write s r c (value r c))
        → (m : Matrix T) → HasSize row col m
        → ((i j : ℕ) → m.cell i j ≡ start i j)
        → Reaches (IsMatrix row col value) (traversal row col body m)
    traversal-IsMatrix body h m k z =
        let (m', e, p) =
          traversal-Settled (HasSize row col) (λ m'. m'.cell) row col start value body round m k
            z in
        (m', e, (p.0.0, p.0.1, p.1))
      where
        round :
            (r c : ℕ) (s : Matrix T)
            → r < row
            → c < col
            → HasSize row col s
            → s.cell r c ≡ start r c
            → Reaches
                (Settles (HasSize row col) (λ m'. m'.cell) row col start value r c s)
                (body r c s)
        round r c s hr hc k e = rw (h r c s hr hc e k) (write-Settles r c s hr hc k)

module _ {ℓ} {T : Type ℓ} ⦃t : Scalar T⦄ (junk : T) where
  pub copy_lem : (m : Matrix T) → Reaches (IsMatrix m.row m.col m.cell) (copy junk m)
  unfolding copy create
  copy_lem m =
      traversal-IsMatrix m.row m.col (λ r c. junk) m.cell _
        (λ r c s hr hc e k. rw (read_lem m r c hr hc)) _ (refl, refl) (λ i j. refl)

  -- Two matrices of the same size are combined element by element.
  pub combine_lem :
      (op : T → T → T) (lhs rhs : Matrix T)
      → lhs.row ≡ rhs.row
      → lhs.col ≡ rhs.col
      → Reaches
          (IsMatrix lhs.row lhs.col (λ i j. op (lhs.cell i j) (rhs.cell i j)))
          (combine junk op lhs rhs)
  unfolding combine create
  combine_lem op lhs rhs er ec = rw same (
      traversal-IsMatrix lhs.row lhs.col (λ r c. junk) (λ i j. op (lhs.cell i j) (rhs.cell i j)) _
        (λ r c s hr hc e k.
          rw (read_lem lhs r c hr hc) (rw (read_lem rhs r c (omega arith) (omega arith))))
        _ (refl, refl) (λ i j. refl))
    where
      same : same_size lhs rhs ≡ true
      same = ground arith

  pub div_lem :
      (m : Matrix T) (scalar : T)
      → Reaches (IsMatrix m.row m.col (λ i j. t.div (m.cell i j) scalar)) (div junk m scalar)
  unfolding div
  div_lem m scalar = Reaches-bind (IsMatrix m.row m.col m.cell) _ (copy junk m) _ (copy_lem m) rest
    where
      rest :
          (a : Matrix T)
          → IsMatrix m.row m.col m.cell a
          → Reaches (IsMatrix m.row m.col (λ i j. t.div (m.cell i j) scalar)) (
              traversal a.row a.col
                (λ r c m'. read m' r c >>= λ value. write m' r c (t.div value scalar))
                a)
      rest a (er, ec, same) =
          let (x, e, p) =
            traversal-IsMatrix a.row a.col a.cell (λ i j. t.div (a.cell i j) scalar) _
              (λ r c s hr hc h k.
                rw (read_lem s r c (omega (arith, k.0)) (omega (arith, k.1))) (rw h refl))
              a (refl, refl) (λ i j. refl) in
          (
            x,
            e,
            (
              p.0 ∙ er,
              p.1 ∙ ec,
              λ i j hi hj.
                  p.2 i j (omega (arith, er)) (omega (arith, ec))
                  ∙ ap (λ z. t.div z scalar) (same i j hi hj),
            ),
          )

  pub eye_lem :
      (row col : ℕ)
      → Reaches (IsMatrix row col (λ i j. if i == j then t.one else t.nought)) (eye junk row col)
  unfolding eye create
  eye_lem row col =
      traversal-IsMatrix row col (λ r c. junk) (λ i j. if i == j then t.one else t.nought) _
        (λ r c s hr hc e k. refl) _ (refl, refl) (λ i j. refl)
