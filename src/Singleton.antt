-- ===== src/Singleton.antt =====
-- `SingletonRegistry::get` of common/src/Singleton.cpp, called by any number of threads. A type is a
-- number, an instance the number of the call of a factory that made it. The registry's lock makes
-- the look-up one step; `std::call_once` lets one thread run the factory, and the others wait.
pub mod Laws
pub mod Types
pub mod Lazy
mod Tests
use common_lib.Common.{ℕ, suc, Option, none, some, List, [], ◌∷◌, if◌then◌else◌, ◌==◌}

-- No entry yet; an entry whose flag is not set; one whose factory runs; one with an instance.
pub data Entry : Type 0 where
  absent fresh building : Entry
  ready : ℕ → Entry

-- Where a call is: before the look-up; before `call_once`; in the factory; at its end, with the
-- instance that it returns.
pub data Phase : Type 0 where
  looking entered constructing : Phase
  got : ℕ → Phase

-- `types` are those of the objects that the factories made.
pub record Registry : Type 0 where
  pub entry : ℕ → Entry
  pub phase : ℕ → Phase
  pub made : ℕ
  pub types : ℕ → ℕ

abbrev pub put {ℓ} : {A : Type ℓ} → (ℕ → A) → ℕ → A → ℕ → A
put f i v j = if i == j then v else f j

abbrev pub start : Registry
start = record { entry = λ t. absent; phase = λ i. looking; made = 0; types = λ x. 0 }

-- `registry.find`, and a new entry where there is none.
unfoldable pub look_up : Entry → Entry
look_up absent = fresh
look_up e = e

-- `call_once` and the return, by what the entry holds.
unfoldable pub call_once : ℕ → ℕ → Registry → Entry → Option Registry
call_once t i s fresh =
    some (record s { entry = put s.entry t building; phase = put s.phase i constructing })
call_once t i s (ready x) = some (record s { phase = put s.phase i (got x) })
call_once t i s _ = none

-- A step of thread `i`, whose call is for the type `t`.
unfoldable pub get_step : ℕ → ℕ → Registry → Phase → Option Registry
unfolding look_up call_once
get_step t i s looking =
    some (record s { entry = put s.entry t (look_up (s.entry t)); phase = put s.phase i entered })
get_step t i s entered = call_once t i s (s.entry t)
get_step t i s constructing = some (record {
  entry = put s.entry t (ready s.made);
  phase = put s.phase i (got s.made);
  made = suc s.made;
  types = put s.types s.made t;
})
get_step t i s (got x) = none

-- A schedule names the threads that move; thread `i` asks for the type `type i`.
unfoldable pub run : (ℕ → ℕ) → List ℕ → Registry → Option Registry
run type [] s = some s
run type (i ∷ is) s = elim (get_step (type i) i s (s.phase i)) [
  | none ↦ none
  | some s' ↦ run type is s'
]
