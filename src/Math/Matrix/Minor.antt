-- ===== src/Math/Matrix/Minor.antt =====
-- The loops that gather a minor: `minor`, and the inner ones of `cofactor`.
use native.Mathlib.Decide.{dec_lt, ℕ_discrete}
use common_lib.Common.{
  ℕ, zero, suc, ◌+◌, ◌-◌, ◌<◌, ◌≤◌, ◌≡◌, ◌≢◌, ◌⊎◌, inl, inr, refl, ap, sym, ◌∙◌, subst, arith,
  if◌then◌else◌, ltb, leb, ◌==◌, Bool-cases, ==_refl,
}
use common_lib.Math.Result.{
  Result, returns, ◌>>=◌, Reaches, Reaches-bind, for_each, for_each-Reaches,
}
use common_lib.Math.Matrix.{Matrix, read, put, Target, emit, minor}
use common_lib.Math.Matrix.Laws.{HasSize, read_lem, write_lem, put_self, put_other}

-- The index that stands at place `j` once `skip` is left out, and how many stand below `c`.
abbrev pub pick : ℕ → ℕ → ℕ
pick skip j = if ltb j skip then j else j + 1

abbrev pub emitted : ℕ → ℕ → ℕ
emitted skip c = if leb c skip then c else c - 1

pub emitted_skip : (skip : ℕ) → emitted skip (skip + 1) ≡ emitted skip skip
emitted_skip skip = ground arith

pub emitted_next : (skip c : ℕ) → c ≢ skip → emitted skip (c + 1) ≡ emitted skip c + 1
emitted_next skip c n = ground arith

pub emitted-lt : (skip c col : ℕ) → c ≢ skip → skip < col → c < col → emitted skip c < col - 1
emitted-lt skip c col n w h = ground arith

pub emitted_all : (skip col : ℕ) → skip < col → emitted skip col ≡ col - 1
emitted_all skip col w = ground arith

pub pick-emitted : (skip c : ℕ) → c ≢ skip → pick skip (emitted skip c) ≡ c
pick-emitted skip c n = ground arith

module _ {ℓ} {T : Type ℓ} (col row' col' : ℕ) (value : ℕ → ℕ → T) where
  -- The target is filled up to `y` in row `x`, and above.
  abbrev pub Filled : ℕ → ℕ → Matrix T → Type ℓ
  Filled x y mat =
      HasSize row' col' mat
      × ((i j : ℕ) → i < x → j < col - 1 → mat.cell i j ≡ value i j)
      × ((j : ℕ) → j < y → mat.cell x j ≡ value x j)

  -- It has `y` elements in row `x`, and stands behind them, or at the start of the next row.
  abbrev pub AtPlace : ℕ → ℕ → Target T → Type ℓ
  AtPlace x y s =
      Filled x y s.mat
      × (((y < col - 1) × (s.x ≡ x) × (s.y ≡ y)) ⊎ ((y ≡ col - 1) × (s.x ≡ x + 1) × (s.y ≡ 0)))

  Filled-put :
      (x y : ℕ) (mat : Matrix T) (v : T)
      → v ≡ value x y
      → Filled x y mat
      → Filled x (y + 1) (record mat { cell = put mat.cell x y v })
  Filled-put x y mat v e (size, above, this) = (
    size,
    λ i j hi hj. put_other mat.cell x y v i j (inl (λ q. absurd (omega arith))) ∙ above i j hi hj,
    λ j hj. elim (dec_lt j y) [
      | yes lt ↦ put_other mat.cell x y v x j (inr (λ q. absurd (omega arith))) ∙ this j lt
      | no ge ↦
          let q : j ≡ y = omega arith in
          ap (put mat.cell x y v x) q ∙ put_self mat.cell x y v ∙ e ∙ ap (value x) (sym q)
    ],
  )

  emit_lem :
      (v : T) (s : Target T)
      → v ≡ value s.x s.y
      → Filled s.x s.y s.mat
      → s.y < col - 1
      → s.x < row'
      → col ≤ col' + 1
      → Reaches (AtPlace s.x (s.y + 1)) (emit (s.y + 1 == col - 1) v s)
  unfolding emit
  emit_lem v s e f less low room =
      rw (write_lem s.mat s.x s.y v (omega (arith, f.0)) (omega (arith, f.0)))
        (elim (Bool-cases (s.y + 1 == col - 1)) [
          | inl b ↦
              rw b (_, refl, (Filled-put s.x s.y s.mat v e f, inr (ground (arith, b), refl, refl)))
          | inr b ↦
              rw b (_, refl, (Filled-put s.x s.y s.mat v e f, inl (ground (arith, b), refl, refl)))
        ])

  -- At the start of row `x`.
  abbrev pub AtRow : ℕ → Target T → Type ℓ
  AtRow x s =
      HasSize row' col' s.mat
      × ((i j : ℕ) → i < x → j < col - 1 → s.mat.cell i j ≡ value i j)
      × (s.x ≡ x)
      × (s.y ≡ 0)

  module _ (m : Matrix T) (skip r x : ℕ) (body : ℕ → Target T → Result (Target T))
      (skipped : (s : Target T) → body skip s ≡ returns s)
      (emits : (c : ℕ) (s : Target T)
        → c < col
        → c ≢ skip
        → s.y + 1 < col
        → body c s ≡ emit (s.y + 1 == col - 1) (m.cell r c) s)
      (picks : (j : ℕ) → j < col - 1 → m.cell r (pick skip j) ≡ value x j) (wide : skip < col)
      (two : 1 < col) (low : x < row') (room : col ≤ col' + 1) where
    emit_round :
        (c : ℕ) (s : Target T)
        → c < col
        → c ≢ skip
        → s.x ≡ x
        → s.y ≡ emitted skip c
        → Filled s.x s.y s.mat
        → Reaches (AtPlace s.x (s.y + 1)) (body c s)
    emit_round c s hc n ex ey f = rw (emits c s hc n (omega (arith, less))) (
        emit_lem (m.cell r c) s
          (ap (m.cell r) (sym (ap (pick skip) ey ∙ pick-emitted skip c n))
            ∙ picks s.y (omega (arith, less))
            ∙ ap (λ i. value i s.y) (sym ex))
          f (omega (arith, less)) (omega arith) room)
      where
        less : s.y < col - 1
        less = omega (arith, ey, emitted-lt skip c col n wide hc)

    line_round :
        (c : ℕ) (s : Target T)
        → c < col
        → AtPlace x (emitted skip c) s
        → Reaches (AtPlace x (emitted skip (c + 1))) (body c s)
    line_round c s hc (f, p) = elim (ℕ_discrete c skip) [
      | yes e ↦
          rw (ap (λ k. body k s) e ∙ skipped s)
            (s, refl, subst (λ k. AtPlace x k s) (stays e) (f, p))
      | no n ↦ elim p [
        | inr q ↦ absurd (omega (arith, q.0, emitted-lt skip c col n wide hc))
        | inl q ↦
            let g : Filled s.x s.y s.mat = rw (q.1, q.2) f in
            let (s', e, h) = emit_round c s hc n q.1 q.2 g in
            (s', e, subst (λ k. AtPlace x k s') (moves n) (moved s' q.1 q.2 h))
      ]
    ]
      where
        stays : c ≡ skip → emitted skip c ≡ emitted skip (c + 1)
        stays e =
            ap (emitted skip) e ∙ sym (emitted_skip skip) ∙ ap (λ k. emitted skip (k + 1)) (sym e)

        moves : c ≢ skip → emitted skip c + 1 ≡ emitted skip (c + 1)
        moves n = sym (emitted_next skip c n)

        moved :
            (s' : Target T)
            → s.x ≡ x
            → s.y ≡ emitted skip c
            → AtPlace s.x (s.y + 1) s'
            → AtPlace x (emitted skip c + 1) s'
        moved s' ex ey h =
            subst (λ k. AtPlace k (emitted skip c + 1) s') ex
              (subst (λ k. AtPlace s.x (k + 1) s') ey h)

    -- A line of the source fills a row of the target.
    pub line_lem : (s : Target T) → AtRow x s → Reaches (AtRow (x + 1)) (for_each body 0 col s)
    line_lem s (size, above, ex, ey) =
        let (s', e, (f, p)) =
          for_each-Reaches (λ c. AtPlace x (emitted skip c)) body col line_round col 0 s
            (omega arith)
            ((size, above, λ j hj. absurd (ground arith)), inl (ground arith, ex, ground arith)) in
        (s', e, next s' f p)
      where
        next :
            (s' : Target T)
            → Filled x (emitted skip col) s'.mat
            → ((emitted skip col < col - 1) × (s'.x ≡ x) × (s'.y ≡ emitted skip col))
              ⊎ ((emitted skip col ≡ col - 1) × (s'.x ≡ x + 1) × (s'.y ≡ 0))
            → AtRow (x + 1) s'
        next s' f (inl q) = absurd (omega (arith, q.0, emitted_all skip col wide))
        next s' f (inr q) = (
          f.0,
          λ i j hi hj. elim (dec_lt i x) [
            | yes lt ↦ f.1 i j lt hj
            | no ge ↦
                let e : i ≡ x = omega arith in
                ap (λ k. s'.mat.cell k j) e
                ∙ f.2 j (omega (arith, q.0))
                ∙ ap (λ k. value k j) (sym e)
          ],
          q.1,
          q.2,
        )

-- `minor` fills the target's first rows and columns with the source, its first row and the column
-- `skip` left out; no access is out of bounds.
pub minor_lem {ℓ} :
    {T : Type ℓ} (m : Matrix T) (skip : ℕ) (new : Matrix T)
    → skip < m.col
    → 1 < m.col
    → 0 < m.row
    → m.row ≤ new.row + 1
    → m.col ≤ new.col + 1
    → Reaches
        (λ mat.
          HasSize new.row new.col mat
          × ((i j : ℕ)
              → i < m.row - 1
              → j < m.col - 1
              → mat.cell i j ≡ m.cell (i + 1) (pick skip j)))
        (minor m skip new)
unfolding minor
minor_lem {T} m skip new wide two some_row tall room =
    Reaches-bind (Line m.row) _ (for_each lines 1 (m.row - 1) start) (λ s. returns s.mat)
      (for_each-Reaches Line lines m.row round (m.row - 1) 1 start (omega arith)
        (omega arith, ((refl, refl), λ i j hi hj. absurd (omega arith), refl, refl)))
      (λ s h. (s.mat, refl, (h.1.0, h.1.1)))
  where
    value : ℕ → ℕ → T
    value i j = m.cell (i + 1) (pick skip j)

    start : Target T
    start = record { x = 0; y = 0; mat = new }

    body : ℕ → ℕ → Target T → Result (Target T)
    body r c s' =
        if c == skip then returns s' else (read m r c >>= λ v. emit (s'.y + 1 == m.col - 1) v s')

    lines : ℕ → Target T → Result (Target T)
    lines r s = for_each (body r) 0 m.col s

    Line : ℕ → Target T → Type ℓ
    Line r s = (0 < r) × AtRow m.col new.row new.col value (r - 1) s

    round : (r : ℕ) (s : Target T) → r < m.row → Line r s → Reaches (Line (r + 1)) (lines r s)
    round zero s hr h = absurd (omega (arith, h.0))
    round (suc r) s hr (pos, h) =
        let (s', e, q) =
          line_lem m.col new.row new.col value m skip (suc r) (suc r - 1) (body (suc r))
            (λ s'. rw (==_refl skip)) (λ c s' hc n less. ground (arith, read_lem m (suc r) c hr hc))
            (λ j hj. ap (λ k. m.cell k (pick skip j)) (index r)) wide two (omega arith) room s h in
        (s', e, (omega arith, subst (λ k. AtRow m.col new.row new.col value k s') (next r) q))
      where
        index : (r : ℕ) → suc r ≡ suc r - 1 + 1
        index r = omega arith

        next : (r : ℕ) → suc r - 1 + 1 ≡ suc r + 1 - 1
        next r = omega arith
