-- ===== src/Utils/Misc/Laws.antt =====
-- `next_pwr_of_2` against its description in common/include/common/utils/Misc.hpp.
use native.Mathlib.Nat.{pow-le-pow_right, mod-eq_of_lt}
use native.Mathlib.Decide.{dec_lt}
use common_lib.Common.{
  ℕ, suc, ◌+◌, ◌-◌, ◌%◌, ◌^◌, ◌≤◌, ◌<◌, ◌≡◌, ◌∙◌, arith, two-pow-suc, two-pow-pos,
}
use common_lib.Utils.Misc.{spread32, next_pwr_of_2}
use common_lib.Utils.Misc.Smear.{or_shift-IsFilled, IsFilled-all, bits, top-IsFilled}

spread32-fill : (k n : ℕ) → k < 32 → 2 ^ k ≤ n → n < 2 ^ suc k → spread32 n + 1 ≡ 2 ^ suc k
unfolding spread32
spread32-fill k n h lo hi = IsFilled-all (omega arith) (
    or_shift-IsFilled 16 (
      or_shift-IsFilled 8
        (or_shift-IsFilled 4 (or_shift-IsFilled 2 (or_shift-IsFilled 1 (top-IsFilled lo hi))))))

-- A power of two at or above a number that lies above the power before.
pub two-pow-le_of_lt : (k j n : ℕ) → 2 ^ k < n → n ≤ 2 ^ j → 2 ^ suc k ≤ 2 ^ j
two-pow-le_of_lt k j n lo hi = elim (dec_lt k j) [
  | yes lt ↦ pow-le-pow_right (omega arith) lt
  | no ge ↦
      absurd (omega (arith, pow-le-pow_right {n = 2} (omega arith) {i = j} {j = k} (omega arith)))
]

next_pwr_of_2-eq :
    (k n : ℕ)
    → 1 < n
    → 2 ^ k ≤ n - 1
    → n - 1 < 2 ^ suc k
    → k < 32
    → next_pwr_of_2 n ≡ 2 ^ suc k % 2 ^ 32
unfolding next_pwr_of_2
next_pwr_of_2-eq k n h lo hi kw = ground (arith, spread32-fill k (n - 1) kw lo hi)

pub two-pow-lt : (j k : ℕ) → j < k → 2 ^ j < 2 ^ k
two-pow-lt j k h = omega (
  arith,
  two-pow-pos j,
  two-pow-suc j,
  pow-le-pow_right {n = 2} (omega arith) {i = suc j} {j = k} h,
)

-- For 1 ≤ n ≤ 2 ^ 31 the result is the least power of two that is no less than `n`.
pub next_pwr_of_2-least :
    (n : ℕ)
    → 1 ≤ n
    → n ≤ 2 ^ 31
    → (k : ℕ) × (next_pwr_of_2 n ≡ 2 ^ k)
      × (k < 32)
      × (n ≤ 2 ^ k)
      × ((j : ℕ) → n ≤ 2 ^ j → 2 ^ k ≤ 2 ^ j)
unfolding next_pwr_of_2
next_pwr_of_2-least n lo hi = elim (dec_lt 1 n) [
  | no one ↦ (0, ground arith, omega arith, omega arith, λ j _. two-pow-pos j)
  | yes more ↦
      let (k, kw, kl, kh) = bits 31 (n - 1) (omega arith) (omega arith) in
      (
        suc k,
        next_pwr_of_2-eq k n more kl kh (omega arith)
            ∙ mod-eq_of_lt (two-pow-lt (suc k) 32 (omega arith)),
        omega arith,
        omega arith,
        λ j h. two-pow-le_of_lt k j n (omega arith) h,
      )
]

-- Above 2 ^ 31 the least power of two does not fit `uint32_t`, and the result is 0.
pub next_pwr_of_2_overflow : (n : ℕ) → 2 ^ 31 < n → n < 2 ^ 32 → next_pwr_of_2 n ≡ 0
next_pwr_of_2_overflow n lo hi =
    next_pwr_of_2-eq 31 n (omega arith) (omega arith) (omega arith) (omega arith)
