-- ===== src/Asio/Broker/Tests.antt =====
-- Tests of the broker.
use common_lib.Common.{◌≡◌, refl, arith, some, List, [], ◌∷◌}
use common_lib.Asio.Broker.{Input, accepts, receives, loses, no_sessions, run}
use common_lib.Asio.Broker.Spec.{spec_run}
use common_lib.Asio.Broker.Laws.{broker_refines}

-- Two clients subscribe to topic 5, an event comes, and the first is lost before a second event.
abbrev history : List Input
history =
    accepts 1
    ∷ accepts 2
    ∷ receives 1 (0 ∷ 5 ∷ 0 ∷ [])
    ∷ receives 2 (0 ∷ 5 ∷ 0 ∷ [])
    ∷ receives 2 (0 ∷ 5 ∷ 2 ∷ 9 ∷ [])
    ∷ loses 1
    ∷ receives 2 (0 ∷ 5 ∷ 2 ∷ 8 ∷ [])
    ∷ []

broker_refines_example : run history no_sessions ≡ some (spec_run history (λ _. []))
broker_refines_example = broker_refines history (
  refl,
  (
    refl,
    (refl, omega arith, (refl, omega arith, (refl, omega arith, (refl, (refl, omega arith, tt))))),
  ),
)
