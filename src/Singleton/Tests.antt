-- ===== src/Singleton/Tests.antt =====
-- Tests of common/src/Singleton.cpp.
use common_lib.Common.{◌≡◌, refl, [], ◌∷◌, ℕ}
use common_lib.Singleton.{
  fresh, building, ready, entered, constructing, got, Registry, put, start, look_up, call_once,
  get_step, run,
}
use common_lib.Singleton.Laws.{run-same}
use common_lib.Singleton.Types.{run-types}

-- Two threads ask for the same type; thread 1 waits for the factory that thread 0 runs.
abbrev both : Registry
both = record {
  entry = put (put (put (put start.entry 5 fresh) 5 fresh) 5 building) 5 (ready 0);
  phase =
      put (put (put (put (put start.phase 0 entered) 1 entered) 0 constructing) 0 (got 0)) 1
        (got 0);
  made = 1;
  types = put start.types 0 5;
}

run-same_example : ◌≡◌ {A = ℕ} 0 0
unfolding run get_step look_up call_once
run-same_example = run-same (λ i. 5) (0 ∷ 1 ∷ 0 ∷ 0 ∷ 1 ∷ []) both 0 1 0 0 refl refl refl refl

run-types_example : both.types 0 ≡ 5
unfolding run get_step look_up call_once
run-types_example = run-types (λ i. 5) (0 ∷ 1 ∷ 0 ∷ 0 ∷ 1 ∷ []) both 1 0 refl refl
