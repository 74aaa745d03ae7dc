-- ===== src/Utils/Misc.antt =====
-- `next_pwr_of_2` of common/src/utils/Misc.cpp.
pub mod Smear
pub mod Laws
mod Tests
use common_lib.Common.{ℕ, ◌+◌, ◌-◌, ◌/◌, ◌%◌, ◌^◌, bit_or, leb, if◌then◌else◌}

-- `n |= n >> s`.
unfoldable pub or_shift : ℕ → ℕ → ℕ
or_shift s n = bit_or n (n / 2 ^ s)

-- The five shifts of a 32-bit word.
unfoldable pub spread32 : ℕ → ℕ
spread32 n = or_shift 16 (or_shift 8 (or_shift 4 (or_shift 2 (or_shift 1 n))))

-- `n + 1` is taken in `uint32_t`.
unfoldable pub next_pwr_of_2 : ℕ → ℕ
next_pwr_of_2 n = if leb n 1 then 1 else (spread32 (n - 1) + 1) % 2 ^ 32
