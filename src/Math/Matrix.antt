-- ===== src/Math/Matrix.antt =====
-- `Matrix<T>` of extension/math/include/common/extension/math/matrix.hpp. Dimensions are not
-- negative. `T` is a parameter: what the code does with its values is `Scalar`.
pub mod Fill
pub mod Laws
pub mod Product
pub mod Minor
pub mod Determinant
pub mod Inverse
mod Tests
use common_lib.Common.{
  ℕ, zero, suc, ◌+◌, ◌-◌, ◌%◌, Bool, true, false, ◌&&◌, not, if◌then◌else◌, ltb, ◌==◌,
}
use common_lib.Math.Result.{Result, returns, throws, undefined, ◌>>=◌, for_each}

-- The operators of `T`, its constants 0 and 1, and what `pow(-1, 1)` converts to.
pub record Scalar {ℓ} (T : Type ℓ) : Type ℓ where
  pub nought : T
  pub one : T
  pub minus_one : T
  pub add : T → T → T
  pub sub : T → T → T
  pub mul : T → T → T
  pub div : T → T → T
  pub is_nought : T → Bool
  pub is_one : T → Bool

pub record Matrix {ℓ} (T : Type ℓ) : Type ℓ where
  pub row : ℕ
  pub col : ℕ
  pub cell : ℕ → ℕ → T

module _ {ℓ} {T : Type ℓ} where
  -- `new T[_col]` for each row; the elements hold `junk`.
  unfoldable pub create : T → ℕ → ℕ → Matrix T
  create junk row col = record { row = row; col = col; cell = λ r c. junk }

  abbrev pub inside : Matrix T → ℕ → ℕ → Bool
  inside m r c = ltb r m.row && ltb c m.col

  abbrev pub same_size : Matrix T → Matrix T → Bool
  same_size lhs rhs = (lhs.row == rhs.row) && (lhs.col == rhs.col)

  -- `m[r][c]` as a value, and as the target of an assignment.
  unfoldable pub read : Matrix T → ℕ → ℕ → Result T
  read m r c = if inside m r c then returns (m.cell r c) else undefined

  abbrev pub put : (ℕ → ℕ → T) → ℕ → ℕ → T → ℕ → ℕ → T
  put cell r c value i j = if (i == r) && (j == c) then value else cell i j

  unfoldable pub write : Matrix T → ℕ → ℕ → T → Result (Matrix T)
  write m r c value =
      if inside m r c then returns (record m { cell = put m.cell r c value }) else undefined

-- `traversal` over a matrix of these dimensions; what `func` changes is passed on.
unfoldable pub traversal {ℓ} : {S : Type ℓ} → ℕ → ℕ → (ℕ → ℕ → S → Result S) → S → Result S
traversal row col func s = for_each (λ r s'. for_each (λ c s''. func r c s'') 0 col s') 0 row s

module _ {ℓ} {T : Type ℓ} ⦃t : Scalar T⦄ (junk : T) where
  -- The copy constructor.
  unfoldable pub copy : Matrix T → Result (Matrix T)
  copy m =
      traversal m.row m.col (λ r c rtn. do value ← read m r c; write rtn r c value)
        (create junk m.row m.col)

  unfoldable pub transpose : Matrix T → Result (Matrix T)
  transpose m =
      traversal m.row m.col (λ r c rtn. do value ← read m r c; write rtn c r value)
        (create junk m.col m.row)

  -- The two loops of `operator+` and `operator-`.
  unfoldable pub combine : (T → T → T) → Matrix T → Matrix T → Result (Matrix T)
  combine op lhs rhs =
      if same_size lhs rhs
      then traversal lhs.row lhs.col
          (λ r c rtn. do a ← read lhs r c; b ← read rhs r c; write rtn r c (op a b))
          (create junk lhs.row lhs.col)
      else throws

  unfoldable pub add : Matrix T → Matrix T → Result (Matrix T)
  add = combine t.add

  unfoldable pub sub : Matrix T → Matrix T → Result (Matrix T)
  sub = combine t.sub

  -- The innermost loop of `operator*`.
  unfoldable pub dot : Matrix T → Matrix T → ℕ → ℕ → Result T
  dot lhs rhs r c = do
    a ← read lhs r 0
    b ← read rhs 0 c
    for_each (λ x sum. do a' ← read lhs r x; b' ← read rhs x c; returns (t.add sum (t.mul a' b'))) 1
        (lhs.col - 1) (t.mul a b)

  unfoldable pub mul : Matrix T → Matrix T → Result (Matrix T)
  mul lhs rhs =
      if lhs.col == rhs.row
      then traversal lhs.row rhs.col (λ r c rtn. do sum ← dot lhs rhs r c; write rtn r c sum)
          (create junk lhs.row rhs.col)
      else throws

  -- `scalar * matrix`.
  unfoldable pub scale : T → Matrix T → Result (Matrix T)
  scale scalar rhs =
      traversal rhs.row rhs.col
        (λ r c rtn. do value ← read rhs r c; write rtn r c (t.mul value scalar))
        (create junk rhs.col rhs.row)

  -- `matrix / scalar`.
  unfoldable pub div : Matrix T → T → Result (Matrix T)
  div lhs scalar = do
    rtn ← copy lhs
    traversal rtn.row rtn.col (λ r c m. do value ← read m r c; write m r c (t.div value scalar)) rtn

  unfoldable pub eye : ℕ → ℕ → Result (Matrix T)
  eye row col =
      traversal row col (λ r c rtn. write rtn r c (if r == c then t.one else t.nought))
        (create junk row col)

-- Where `minor` and `cofactor` write next, and what they write to.
pub record Target {ℓ} (T : Type ℓ) : Type ℓ where
  pub x : ℕ
  pub y : ℕ
  pub mat : Matrix T

module _ {ℓ} {T : Type ℓ} where
  -- One element, the last of its row or not.
  unfoldable pub emit : Bool → T → Target T → Result (Target T)
  emit last value s = do
    m ← write s.mat s.x s.y value
    returns (
        if last
        then record { x = s.x + 1; y = 0; mat = m }
        else record { x = s.x; y = s.y + 1; mat = m })

  unfoldable pub minor : Matrix T → ℕ → Matrix T → Result (Matrix T)
  minor m skip new = do
    s ←
        for_each
          (λ r s.
            for_each
              (λ c s'.
                if c == skip
                then returns s'
                else (do value ← read m r c; emit (s'.y + 1 == m.col - 1) value s'))
              0 m.col s)
          1 (m.row - 1) (record { x = 0; y = 0; mat = new })
    returns s.mat

  -- The loops of `cofactor` that gather the minor of one element.
  unfoldable pub gather : Matrix T → ℕ → ℕ → Matrix T → Result (Matrix T)
  gather m row3 col3 new = do
    s ←
        traversal m.row m.col
          (λ r c s.
            if not (r == row3) && not (c == col3)
            then (do value ← read m r c; emit (not (ltb (s.y + 2) m.col)) value s)
            else returns s)
          (record { x = 0; y = 0; mat = new })
    returns s.mat

module _ {ℓ} {T : Type ℓ} ⦃t : Scalar T⦄ (junk : T) where
  -- `pow(-1, n)`.
  abbrev pub sign : ℕ → T
  sign n = if n % 2 == 0 then t.one else t.minus_one

  -- `determine`; the minor is one matrix that each round writes again.
  unfoldable pub determine : Matrix T → ℕ → Result T
  determine m zero = returns t.nought
  determine m (suc zero) = read m 0 0
  determine m (suc (suc zero)) = do
    a ← read m 0 0
    b ← read m 1 1
    c ← read m 0 1
    d ← read m 1 0
    returns (t.sub (t.mul a b) (t.mul c d))
  determine m (suc (suc (suc n))) = do
    s ←
        for_each
          (λ col (s : T × Matrix T). do
            new ← minor m col s.1
            a ← read m 0 col
            d ← determine new (suc (suc n))
            returns (t.add s.0 (t.mul (t.mul a (sign col)) d), new))
          0 (suc (suc (suc n))) (t.nought, create junk m.col m.row)
    returns s.0

  unfoldable pub cofactor : Matrix T → Result (Matrix T)
  cofactor m = do
    s ←
        traversal m.row m.col
          (λ r c (s : Matrix T × Matrix T). do
            new ← gather m r c s.1
            d ← determine new (m.row - 1)
            mat ← write s.0 r c (t.mul (sign (r + c)) d)
            returns (mat, new))
          (create junk m.col m.row, create junk m.col m.row)
    transpose junk s.0

  -- `inverse`, once the determinant is known.
  unfoldable pub inverse_of : Matrix T → T → Result (Matrix T)
  inverse_of m d =
      if t.is_nought d
      then throws
      else if t.is_one d
      then (copy junk m >>= λ rtn. write rtn 0 0 t.one)
      else (cofactor m >>= λ adjugate. div junk adjugate d)

  unfoldable pub inverse : Matrix T → Result (Matrix T)
  inverse m = determine m m.row >>= inverse_of m
