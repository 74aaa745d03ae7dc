-- ===== src/Lifecycle/Resource.antt =====
-- `ResourceManager` and `Resource` of common/include/common/lifecycle/Resource.hpp and
-- common/src/lifecycle/Resource.cpp. A resource object is named by a number, its address; the
-- `unordered_set` is a list without repetitions.
pub mod Laws
mod Tests
use common_lib.Common.{ℕ, Bool, true, false, Option, none, some, List, [], ◌∷◌, if◌then◌else◌, ◌==◌}

abbrev pub contains : ℕ → List ℕ → Bool
contains r [] = false
contains r (x ∷ xs) = if r == x then true else contains r xs

-- `insert`.
unfoldable pub track : ℕ → List ℕ → List ℕ
track r resources = if contains r resources then resources else r ∷ resources

-- `erase`.
unfoldable pub release : ℕ → List ℕ → List ℕ
release r [] = []
release r (x ∷ xs) = if r == x then xs else x ∷ release r xs

-- `none` is the exception "unreleases resource".
unfoldable pub audit : List ℕ → Option (Unit {0})
audit [] = some tt
audit (x ∷ xs) = none

-- The manager, and what each resource object points to; `none` is an empty weak pointer.
pub record Registry : Type 0 where
  pub resources : List ℕ
  pub targets : ℕ → Option ℕ

-- `Resource::get_ptr`, with the objects that are alive.
unfoldable pub get_ptr : (ℕ → Bool) → ℕ → Registry → Option ℕ
get_ptr alive r s = elim (s.targets r) [ none ↦ none | some p ↦ if alive p then some p else none ]

abbrev point : (ℕ → Option ℕ) → ℕ → Option ℕ → ℕ → Option ℕ
point targets r p j = if r == j then p else targets j

-- `Resource::track` and `Resource::release`; the destructor releases.
pub data Use : Type 0 where
  tracks : ℕ → ℕ → Use
  releases : ℕ → Use

unfoldable pub use_resource : Use → Registry → Registry
use_resource (tracks r p) s = record {
  resources = track r s.resources;
  targets = point s.targets r (some p);
}
use_resource (releases r) s = record {
  resources = release r s.resources;
  targets = point s.targets r none;
}

unfoldable pub run : List Use → Registry → Registry
run [] s = s
run (u ∷ us) s = run us (use_resource u s)
