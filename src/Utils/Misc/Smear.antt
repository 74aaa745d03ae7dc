-- ===== src/Utils/Misc/Smear.antt =====
-- What `n |= n >> s` does to the bits below the highest one.
use native.Mathlib.Nat.{
  div-lt_iff_lt-mul, le-div_iff_mul-le, pow-le-pow_right, le_trans, le_of_eq, div-le_self, mul-sub,
  mul_comm,
}
use native.Mathlib.Decide.{dec_lt}
use common_lib.Common.{
  ℕ, zero, suc, ◌+◌, ◌-◌, ◌*◌, ◌/◌, ◌%◌, ◌^◌, ◌≤◌, ◌<◌, ◌≡◌, arith, bit_or, bit_or_halves,
  bit_or-lt, le-bit_or, two-pow-suc, two-pow-pos, two-pow-add, ap, ◌∙◌,
}
use common_lib.Utils.Misc.{or_shift}

-- The top `s` of `k` bits are ones.
pub record IsFilled (k s n : ℕ) : Type 0 where
  pub fits : n < 2 ^ k
  pub ones : 2 ^ k ≤ n + 2 ^ (k - s)

-- Ones from bit `t + 1` up stand from bit `t` up in the half.
half_reach : (t k x : ℕ) → 2 ^ suc k ≤ x + 2 ^ suc t → 2 ^ k ≤ x / 2 + 2 ^ t
half_reach t k x h = omega (arith, two-pow-suc k, two-pow-suc t)

odd_reach : (t y : ℕ) → 2 ^ suc t ≤ y + 2 ^ 0 → 2 ^ t ≤ y / 2 + 2 ^ 0
odd_reach t y h = omega (arith, two-pow-suc t)

-- Ones from bit 0 up to a bound that the number stays under: the number is odd.
odd_half : (t y : ℕ) → y < 2 ^ suc t → 2 ^ suc t ≤ y + 2 ^ 0 → y % 2 ≡ 1
odd_half t y lt h = omega (arith, two-pow-suc t)

-- Ones from bit `t` up in `x`, and from bit `u` up to `t` in `y`, meet in `x | y`.
fill :
    (u t k x y : ℕ)
    → u ≤ t
    → t ≤ k
    → y < 2 ^ t
    → 2 ^ k ≤ x + 2 ^ t
    → 2 ^ t ≤ y + 2 ^ u
    → 2 ^ k ≤ bit_or x y + 2 ^ u
fill zero zero k x y _ _ ly hx hy = omega (arith, le-bit_or x y)
fill zero (suc t) zero x y _ h ly hx hy = absurd (omega arith)
fill zero (suc t) (suc k) x y hu ht ly hx hy = omega (
  arith,
  two-pow-suc t,
  two-pow-suc k,
  bit_or_halves x y,
  fill zero t k (x / 2) (y / 2) (omega arith) (omega arith) (omega (arith, two-pow-suc t))
      (half_reach t k x hx) (odd_reach t y hy),
  odd_half t y ly hy,
)
fill (suc u) zero k x y h _ ly hx hy = absurd (omega arith)
fill (suc u) (suc t) zero x y _ h ly hx hy = absurd (omega arith)
fill (suc u) (suc t) (suc k) x y hu ht ly hx hy = omega (
  arith,
  two-pow-suc u,
  two-pow-suc k,
  bit_or_halves x y,
  fill u t k (x / 2) (y / 2) (omega arith) (omega arith) (omega (arith, two-pow-suc t))
      (half_reach t k x hx) (half_reach u t y hy),
)

-- `2 ^ (k - s)`, split at `2 ^ s`.
cover : (s k : ℕ) → 2 ^ (k - s) ≤ 2 ^ (k - (s + s)) * 2 ^ s
cover s k = elim (dec_lt k (s + s)) [
  | yes short ↦
      le_trans (pow-le-pow_right {n = 2} (omega arith) {i = k - s} {j = s} (omega arith))
        (omega (arith, ap one_more (gone short)))
  | no long ↦ le_of_eq (ap (λ t. 2 ^ t) (split long) ∙ two-pow-add (k - (s + s)) s)
]
  where
    one_more : ℕ → ℕ
    one_more t = 2 ^ t * 2 ^ s

    gone : k < s + s → k - (s + s) ≡ 0
    gone h = omega arith

    split : ¬ (k < s + s) → k - s ≡ k - (s + s) + s
    split h = omega arith

-- A shift by `s` moves the ones from bit `k - s` up to bit `k - (s + s)` up.
shift_reach :
    (s k n : ℕ) → s ≤ k → 2 ^ k ≤ n + 2 ^ (k - s) → 2 ^ (k - s) ≤ n / 2 ^ s + 2 ^ (k - (s + s))
shift_reach s k n h hn = omega (arith, (le-div_iff_mul-le (two-pow-pos s)).1 enough)
  where
    whole : 2 ^ k ≡ 2 ^ (k - s) * 2 ^ s
    whole = ap (λ t. 2 ^ t) (omega arith) ∙ two-pow-add (k - s) s

    spread :
        (2 ^ (k - s) - 2 ^ (k - (s + s))) * 2 ^ s ≡ 2 ^ s * 2 ^ (k - s) - 2 ^ s * 2 ^ (k - (s + s))
    spread = mul_comm _ (2 ^ s) ∙ mul-sub (2 ^ s) (2 ^ (k - s)) (2 ^ (k - (s + s)))

    enough : (2 ^ (k - s) - 2 ^ (k - (s + s))) * 2 ^ s ≤ n
    enough = omega (arith, cover s k, whole, spread)

shift-lt : (s k n : ℕ) → s ≤ k → n < 2 ^ k → n / 2 ^ s < 2 ^ (k - s)
shift-lt s k n h lt = (div-lt_iff_lt-mul (two-pow-pos s)).1 (omega (arith, whole))
  where
    whole : 2 ^ k ≡ 2 ^ (k - s) * 2 ^ s
    whole = ap (λ t. 2 ^ t) (omega arith) ∙ two-pow-add (k - s) s

-- Each shift doubles the number of ones at the top.
pub or_shift-IsFilled : {k n : ℕ} (s : ℕ) → IsFilled k s n → IsFilled k (s + s) (or_shift s n)
unfolding or_shift
or_shift-IsFilled {k} {n} s v = elim (dec_lt k s) [
  | yes past ↦ record {
    fits = bit_or-lt k n (n / 2 ^ s) v.fits (omega (arith, div-le_self n (2 ^ s), v.fits));
    ones = omega (
      arith,
      le-bit_or n (n / 2 ^ s),
      v.ones,
      two-pow-pos (k - (s + s)),
      ap (λ t. 2 ^ t) (nothing past),
    );
  }
  | no within ↦ record {
    fits = bit_or-lt k n (n / 2 ^ s) v.fits (omega (arith, div-le_self n (2 ^ s), v.fits));
    ones =
        fill (k - (s + s)) (k - s) k n (n / 2 ^ s) (omega arith) (omega arith)
          (shift-lt s k n (omega arith) v.fits) v.ones (shift_reach s k n (omega arith) v.ones);
  }
]
  where
    nothing : k < s → k - s ≡ 0
    nothing h = omega arith

-- With as many ones as bits the number is one less than a power of two.
pub IsFilled-all : {k n s : ℕ} → k ≤ s → IsFilled k s n → n + 1 ≡ 2 ^ k
IsFilled-all {k} {n} {s} h v = omega (arith, v.fits, v.ones, ap (λ t. 2 ^ t) none_left)
  where
    none_left : k - s ≡ 0
    none_left = omega arith

-- The number of bits that a number takes.
pub bits : (w n : ℕ) → 0 < n → n < 2 ^ w → (k : ℕ) × (k < w) × (2 ^ k ≤ n) × (n < 2 ^ suc k)
bits zero n h lt = absurd (omega arith)
bits (suc w) n h lt = elim (dec_lt n (2 ^ w)) [
  | yes below ↦ let (k, kw, lo, hi) = bits w n h below in (k, omega arith, lo, hi)
  | no above ↦ (w, omega arith, omega arith, lt)
]

-- The highest bit alone is a one.
pub top-IsFilled : {k n : ℕ} → 2 ^ k ≤ n → n < 2 ^ suc k → IsFilled (suc k) 1 n
top-IsFilled {k} {n} lo hi = record {
  fits = hi;
  ones = omega (arith, two-pow-suc k, ap (λ t. 2 ^ t) back);
}
  where
    back : suc k - 1 ≡ k
    back = omega arith
