-- ===== src/Common/Bits.antt =====
-- Laws of `bit_or` and `bit_and` at variables, and of the powers of two. The native operations stand
-- for a recursion on binary digits, whose fuel is dropped here.
use Prim.Native.Nat.{
  ℕ, zero, suc, ◌+◌, ◌-◌, ◌*◌, ◌/◌, ◌%◌, ◌^◌, ◌≤◌, ◌<◌, min, max, bit_or, bit_and, digits,
  bit_or-bitwise, bit_and-bitwise,
}
use Prim.Native.Nat.add
use mathlib.Core.Path.{◌≡◌, refl, ap, ◌∙◌}
use native.Mathlib.Nat.{pow-suc, mul-add-mod_self_left, mod-eq_of_lt, mod-lt, div-add-mod}
use native.Mathlib.Omega.{arith}

-- Any fuel that is no less than the first number gives the same digits.
module _ (rest : ℕ → ℕ) (digit : ℕ → ℕ → ℕ) where
  enough_digits : (x y n m : ℕ) → x ≤ n → x ≤ m → digits rest digit n x y ≡ digits rest digit m x y
  enough_digits zero y zero zero _ _ = refl
  enough_digits zero y zero (suc m) _ _ = refl
  enough_digits zero y (suc n) zero _ _ = refl
  enough_digits zero y (suc n) (suc m) _ _ = refl
  enough_digits (suc x) y zero m h _ = absurd (omega arith)
  enough_digits (suc x) y (suc n) zero _ h = absurd (omega arith)
  enough_digits (suc x) y (suc n) (suc m) h h' =
      ap (λ t. t * 2 + digit (suc x % 2) (y % 2))
        (enough_digits (suc x / 2) (y / 2) n m (omega arith) (omega arith))

-- One digit of `|` and of `&`.
pub bit_or_halves : (x y : ℕ) → bit_or x y ≡ bit_or (x / 2) (y / 2) * 2 + max (x % 2) (y % 2)
bit_or_halves zero y = omega (arith, bit_or-bitwise 0 y, bit_or-bitwise 0 (y / 2))
bit_or_halves (suc x) y = omega (
  arith,
  bit_or-bitwise (suc x) y,
  bit_or-bitwise (suc x / 2) (y / 2),
  enough_digits (λ t. t) max (suc x / 2) (y / 2) x (suc x / 2) (omega arith) (omega arith),
)

pub bit_and_halves : (x y : ℕ) → bit_and x y ≡ bit_and (x / 2) (y / 2) * 2 + min (x % 2) (y % 2)
bit_and_halves zero y = omega (arith, bit_and-bitwise 0 y, bit_and-bitwise 0 (y / 2))
bit_and_halves (suc x) y = omega (
  arith,
  bit_and-bitwise (suc x) y,
  bit_and-bitwise (suc x / 2) (y / 2),
  enough_digits (λ _. 0) min (suc x / 2) (y / 2) x (suc x / 2) (omega arith) (omega arith),
)

pub two-pow-suc : (k : ℕ) → 2 ^ suc k ≡ 2 * 2 ^ k
two-pow-suc k = omega (arith, pow-suc 2 k)

pub two-pow-pos : (k : ℕ) → 0 < 2 ^ k
two-pow-pos zero = omega arith
two-pow-pos (suc k) = omega (arith, two-pow-suc k, two-pow-pos k)

pub zero-bit_or : (y : ℕ) → bit_or 0 y ≡ y
zero-bit_or y = omega (arith, bit_or-bitwise 0 y)

pub two-pow-add : (j k : ℕ) → 2 ^ (j + k) ≡ 2 ^ j * 2 ^ k
two-pow-add zero k = ground (arith, ap (λ t. 2 ^ t) (add.zero k))
two-pow-add (suc j) k =
    ap (λ t. 2 ^ t) (add.suc j k)
    ∙ omega (arith, two-pow-suc (j + k), two-pow-add j k, ap (λ t. t * 2 ^ k) (two-pow-suc j))

-- `|` loses nothing of its first argument.
le-bit_or_below : (n x y : ℕ) → x ≤ n → x ≤ bit_or x y
le-bit_or_below n zero y h = omega arith
le-bit_or_below zero (suc x) y h = absurd (omega arith)
le-bit_or_below (suc n) (suc x) y h =
    omega (arith, bit_or_halves (suc x) y, le-bit_or_below n (suc x / 2) (y / 2) (omega arith))

pub le-bit_or : (x y : ℕ) → x ≤ bit_or x y
le-bit_or x y = le-bit_or_below x x y (omega arith)

-- `|` stays below a power of two that bounds both.
pub bit_or-lt : (k x y : ℕ) → x < 2 ^ k → y < 2 ^ k → bit_or x y < 2 ^ k
bit_or-lt zero zero y hx hy = omega (arith, zero-bit_or y)
bit_or-lt zero (suc x) y hx hy = absurd (omega arith)
bit_or-lt (suc k) x y hx hy = omega (
  arith,
  two-pow-suc k,
  bit_or_halves x y,
  bit_or-lt k (x / 2) (y / 2) (omega (arith, two-pow-suc k)) (omega (arith, two-pow-suc k)),
)

bit_or-zero_below : (n x : ℕ) → x ≤ n → bit_or x 0 ≡ x
bit_or-zero_below zero x h = omega (arith, zero-bit_or 0, ap (λ t. bit_or t 0) zero-x)
  where
    zero-x : x ≡ 0
    zero-x = omega arith
bit_or-zero_below (suc n) zero h = zero-bit_or 0
bit_or-zero_below (suc n) (suc x) h =
    omega (arith, bit_or_halves (suc x) 0, bit_or-zero_below n (suc x / 2) (omega arith))

pub bit_or-zero : (x : ℕ) → bit_or x 0 ≡ x
bit_or-zero x = bit_or-zero_below x x (omega arith)

-- `|` of a low field into a number whose low bits are clear is a sum.
pub bit_or_low : (k q r : ℕ) → r < 2 ^ k → bit_or (q * 2 ^ k) r ≡ q * 2 ^ k + r
bit_or_low zero q zero h = ground (arith, bit_or-zero q)
bit_or_low zero q (suc r) h = absurd (omega arith)
bit_or_low (suc k) q r h = ground (
  arith,
  two-pow-suc k,
  ap (λ (t : ℕ). q * t) (two-pow-suc k),
  bit_or_halves (q * 2 ^ suc k) r,
  bit_or_low k q (r / 2) (omega (arith, two-pow-suc k)),
)

-- The remainder by an even number, from that of the half.
pub mod_double : (p x : ℕ) → 0 < p → x % (2 * p) ≡ 2 * (x / 2 % p) + x % 2
mod_double p x h =
    ap (λ t. t % (2 * p)) split
    ∙ mul-add-mod_self_left (2 * p) (x / 2 / p) (2 * (x / 2 % p) + x % 2)
    ∙ mod-eq_of_lt (omega (arith, mod-lt (x / 2) h))
  where
    split : x ≡ 2 * p * (x / 2 / p) + (2 * (x / 2 % p) + x % 2)
    split = omega (arith, div-add-mod (x / 2) p)

-- `&` with a mask of low ones is a remainder.
bit_and-zero_below : (n x : ℕ) → x ≤ n → bit_and x 0 ≡ 0
bit_and-zero_below n zero h = omega (arith, bit_and-bitwise 0 0)
bit_and-zero_below zero (suc x) h = absurd (omega arith)
bit_and-zero_below (suc n) (suc x) h =
    omega (arith, bit_and_halves (suc x) 0, bit_and-zero_below n (suc x / 2) (omega arith))

pub bit_and_mask : (k x : ℕ) → bit_and x (2 ^ k - 1) ≡ x % 2 ^ k
bit_and_mask zero x = omega (arith, bit_and-zero_below x x (omega arith))
bit_and_mask (suc k) x = omega (
  arith,
  two-pow-suc k,
  two-pow-pos k,
  bit_and_halves x (2 ^ suc k - 1),
  ap (bit_and (x / 2)) (halved k),
  bit_and_mask k (x / 2),
  ap (λ m. x % m) (two-pow-suc k),
  mod_double (2 ^ k) x (two-pow-pos k),
)
  where
    halved : (k : ℕ) → (2 ^ suc k - 1) / 2 ≡ 2 ^ k - 1
    halved k = omega (arith, two-pow-suc k, two-pow-pos k)
