-- ===== src/Lifecycle/Application/Tests.antt =====
-- Runs of common/src/lifecycle/Application.cpp.
use common_lib.Common.{◌≡◌, ◌⊎◌, refl, true, false, none, some, List, [], ◌∷◌, ◌++◌}
use common_lib.Lifecycle.Application.{
  sigint, sigterm, Wake, receives, fails, boots, waits_booted, shuts, Hooks, signal_handler, handle,
  wait_signals, boot_events, shut_events, finish, run, after_separator, part_of, last_part,
  get_binary_name, is_empty, construct,
}
use common_lib.Lifecycle.Application.Laws.{NoneTerminates, EndsAt, run_lem}

abbrev hooks : Hooks
hooks = record { boot_future = true; shut_future = false }

-- SIGHUP, a failure and SIGINT; then SIGTERM, which is not taken.
run_interrupted :
    run hooks false (receives 1 ∷ fails ∷ receives sigint ∷ receives sigterm ∷ []) ≡ record {
      returned = some 0;
      shutdown = true;
      events = boots ∷ waits_booted ∷ shuts ∷ [];
      left = receives sigterm ∷ [];
    }
unfolding run finish wait_signals handle signal_handler boot_events shut_events
run_interrupted = refl

abbrev wakes : List Wake
wakes = receives 1 ∷ fails ∷ receives sigint ∷ receives sigterm ∷ []

run_lem_example :
    (NoneTerminates wakes
      × ((run hooks false wakes).returned ≡ none)
      × ((run hooks false wakes).events ≡ boot_events hooks))
    ⊎ (EndsAt wakes (run hooks false wakes).left
        × ((run hooks false wakes).returned ≡ some 0)
        × ((run hooks false wakes).events ≡ boot_events hooks ++ shut_events hooks))
run_lem_example = run_lem hooks wakes

-- The path `/a/b` of a program whose `appPath` is empty: all of it is the name.
construct_path :
    construct (λ path. some (98 ∷ [])) (47 ∷ 97 ∷ 47 ∷ 98 ∷ []) [] ≡ 47 ∷ 97 ∷ 47 ∷ 98 ∷ []
unfolding construct is_empty
construct_path = refl

-- The name of that path, where std::filesystem fails.
last_part_path : get_binary_name (λ path. none) (47 ∷ 97 ∷ 47 ∷ 98 ∷ []) ≡ 98 ∷ []
unfolding get_binary_name last_part part_of after_separator
last_part_path = refl
