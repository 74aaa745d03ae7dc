-- ===== src/Math/Filter/Tests.antt =====
-- Runs of the filters over the integers modulo 2.
use common_lib.Common.{◌≡◌, refl, Bool, true, false, [], ◌∷◌, replicate, ◌&&◌}
use common_lib.Math.ModTwo.{xor, mod_two, mod_two-IsRing}
use common_lib.Math.Filter.{
  ScalarKalman, create_low_pass, create_kalman, low_pass, low_passes, correct,
}
use common_lib.Math.Filter.Laws.{correct_mean, low_passes-constant}

abbrev filter : ScalarKalman Bool
filter = record { q = true; r = true; p = true }

created : create_kalman true true true ≡ filter
unfolding create_kalman
created = refl

times_true : (x : Bool) → x && true ≡ x
times_true true = refl
times_true false = refl

correct_mean_example :
    (true && (correct filter false true).1 ≡ xor (true && true) (false && false))
    × (true && (correct filter false true).0.p ≡ true && false)
unfolding mod_two
correct_mean_example = correct_mean mod_two-IsRing filter false true times_true

steady_lem : low_passes (create_low_pass false true) (replicate 3 true) ≡ replicate 3 true
steady_lem = low_passes-constant mod_two-IsRing false true true 3

-- The first sample replaces the first value; the weight then holds on to it.
first_lem : low_passes (create_low_pass false true) (true ∷ false ∷ []) ≡ true ∷ true ∷ []
unfolding create_low_pass low_passes low_pass mod_two
first_lem = refl
