-- ===== src/Asio/Registry/Tests.antt =====
-- Tests of `TopicRegistry`.
use common_lib.Common.{ℕ, ◌≡◌, refl, arith, Bool, [], ◌∷◌, ltb}
use common_lib.Asio.Registry.{Sessions, unregist, remove_session, keep_entry}
use common_lib.Asio.Registry.Laws.{IsRegistry}

abbrev two_topics : Sessions
two_topics = (5, 1 ∷ 2 ∷ []) ∷ (6, 2 ∷ []) ∷ []

abbrev small_lives : ℕ → Bool
small_lives s = ltb s 3

two_topics-IsRegistry : IsRegistry two_topics
two_topics-IsRegistry = ((λ e. absurd (omega arith), tt), (λ e. cc), (tt, (λ e. cc), tt))

unregister_two : unregist small_lives 2 two_topics ≡ (5, 1 ∷ []) ∷ []
unfolding unregist remove_session keep_entry
unregister_two = refl
