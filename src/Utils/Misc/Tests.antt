-- ===== src/Utils/Misc/Tests.antt =====
-- Tests of common/src/utils/Misc.cpp.
use common_lib.Common.{ℕ, ◌≡◌, ◌≤◌, ◌<◌, ◌^◌, refl, arith}
use common_lib.Utils.Misc.{or_shift, spread32, next_pwr_of_2}
use common_lib.Utils.Misc.Laws.{next_pwr_of_2-least}

next_pwr_of_2_five : next_pwr_of_2 5 ≡ 8
unfolding next_pwr_of_2 spread32 or_shift
next_pwr_of_2_five = refl

next_pwr_of_2-least_example :
    (k : ℕ) × (next_pwr_of_2 100 ≡ 2 ^ k)
    × (k < 32)
    × (100 ≤ 2 ^ k)
    × ((j : ℕ) → 100 ≤ 2 ^ j → 2 ^ k ≤ 2 ^ j)
next_pwr_of_2-least_example = next_pwr_of_2-least 100 (omega arith) (omega arith)
