-- ===== src/Container/LockFreeWorkQueue/Capacity.antt =====
-- `nextPowerOf2` against its name.
use native.Mathlib.Nat.{mod-eq_of_lt}
use native.Mathlib.Decide.{dec_lt}
use common_lib.Common.{ℕ, suc, ◌+◌, ◌-◌, ◌^◌, ◌≤◌, ◌<◌, ◌≡◌, arith, two-pow-pos}
use common_lib.Utils.Misc.Laws.{two-pow-le_of_lt, two-pow-lt}
use common_lib.Utils.Misc.Smear.{or_shift-IsFilled, IsFilled-all, bits, top-IsFilled}
use common_lib.Container.LockFreeWorkQueue.{spread64, next_power_of_2}

spread64-fill : (k n : ℕ) → k < 64 → 2 ^ k ≤ n → n < 2 ^ suc k → spread64 n + 1 ≡ 2 ^ suc k
unfolding spread64
spread64-fill k n h lo hi = IsFilled-all (omega arith) (
    or_shift-IsFilled 32 (
      or_shift-IsFilled 16 (
        or_shift-IsFilled 8
          (or_shift-IsFilled 4 (or_shift-IsFilled 2 (or_shift-IsFilled 1 (top-IsFilled lo hi)))))))

-- Up to 2 ^ 63 the capacity is the least power of two that is no less than the size asked for.
pub next_power_of_2-least :
    (n : ℕ)
    → 1 ≤ n
    → n ≤ 2 ^ 63
    → (k : ℕ) × (next_power_of_2 n ≡ 2 ^ k) × (n ≤ 2 ^ k) × ((j : ℕ) → n ≤ 2 ^ j → 2 ^ k ≤ 2 ^ j)
unfolding next_power_of_2
next_power_of_2-least n lo hi = elim (dec_lt 1 n) [
  | no one ↦ (0, ground arith, omega arith, λ j _. two-pow-pos j)
  | yes more ↦
      let (k, kw, kl, kh) = bits 63 (n - 1) (omega arith) (omega arith) in
      (
        suc k,
        ground (
          arith,
          spread64-fill k (n - 1) (omega arith) kl kh,
          mod-eq_of_lt (two-pow-lt (suc k) 64 (omega arith)),
        ),
        omega arith,
        λ j h. two-pow-le_of_lt k j n (omega arith) h,
      )
]
