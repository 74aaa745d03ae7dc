-- ===== src/Lifecycle/Resource/Tests.antt =====
-- Tests of common/src/lifecycle/Resource.cpp.
use common_lib.Common.{◌≡◌, refl, false, none, List, [], ◌∷◌}
use common_lib.Lifecycle.Resource.{
  track, release, get_ptr, Use, tracks, releases, use_resource, run,
}
use common_lib.Lifecycle.Resource.Laws.{empty_registry}

-- The third resource was not released.
abbrev calls : List Use
calls = tracks 1 10 ∷ tracks 3 30 ∷ releases 1 ∷ []

expired : get_ptr (λ p. false) 3 (run calls empty_registry) ≡ none
unfolding get_ptr run use_resource track release
expired = refl
