-- ===== src/Lifecycle/Application.antt =====
-- `Application` of common/src/lifecycle/Application.cpp in its Linux build. What `bootup` and
-- `shutdown` of the derived class do, the signals and std::filesystem are parameters.
pub mod Laws
mod Tests
use common_lib.Common.{
  ℕ, Bool, true, false, not, ◌||◌, Option, none, some, List, [], ◌∷◌, ◌++◌, if◌then◌else◌, ◌==◌,
}

-- SIGINT and SIGTERM of Linux.
abbrev pub sigint : ℕ
sigint = 2

abbrev pub sigterm : ℕ
sigterm = 15

-- What a call of sigwait comes to: a signal, or an error.
pub data Wake : Type 0 where
  receives : ℕ → Wake
  fails : Wake

-- What `run` does beside waiting for signals, in order.
pub data Event : Type 0 where
  boots waits_booted shuts waits_shut : Event

-- Whether `bootup` and `shutdown` return a future.
pub record Hooks : Type 0 where
  pub boot_future : Bool
  pub shut_future : Bool

-- `_shutdown` afterwards.
unfoldable pub signal_handler : ℕ → Bool → Bool
signal_handler signal shutdown =
    if (signal == sigterm) || (signal == sigint) then true else shutdown

unfoldable pub handle : Wake → Bool → Bool
handle (receives signal) shutdown = signal_handler signal shutdown
handle fails shutdown = shutdown

-- The `while` of `run`: the wakes that are left, or `none` if it waits for one more.
unfoldable pub wait_signals : Bool → List Wake → Option (List Wake)
wait_signals true wakes = some wakes
wait_signals false [] = none
wait_signals false (wake ∷ wakes) = wait_signals (handle wake false) wakes

unfoldable pub boot_events : Hooks → List Event
boot_events hooks = boots ∷ (if hooks.boot_future then waits_booted ∷ [] else [])

unfoldable pub shut_events : Hooks → List Event
shut_events hooks = shuts ∷ (if hooks.shut_future then waits_shut ∷ [] else [])

-- How `run` goes: it waits for a signal, or has returned, and `_shutdown` with it.
pub record Run : Type 0 where
  pub returned : Option ℕ
  pub shutdown : Bool
  pub events : List Event
  pub left : List Wake

-- After its loop.
unfoldable pub finish : Hooks → Bool → Option (List Wake) → Run
finish hooks shutdown none = record {
  returned = none;
  shutdown = shutdown;
  events = boot_events hooks;
  left = [];
}
finish hooks shutdown (some rest) = record {
  returned = some 0;
  shutdown = true;
  events = boot_events hooks ++ shut_events hooks;
  left = rest;
}

unfoldable pub run : Hooks → Bool → List Wake → Run
run hooks shutdown wakes = finish hooks shutdown (wait_signals shutdown wakes)

-- `find_last_of("/\\")` and `substr` of the handler of `get_binary_name`.
abbrev pub is_separator : ℕ → Bool
is_separator c = (c == 47) || (c == 92)

unfoldable pub after_separator : List ℕ → Option (List ℕ)
after_separator [] = none
after_separator (c ∷ cs) = elim (after_separator cs) [
  | some name ↦ some name
  | none ↦ if is_separator c then some cs else none
]

unfoldable pub part_of : List ℕ → Option (List ℕ) → List ℕ
part_of path none = path
part_of path (some name) = name

unfoldable pub last_part : List ℕ → List ℕ
last_part path = part_of path (after_separator path)

-- `filename` is std::filesystem::path::filename, or `none` where it throws.
unfoldable pub get_binary_name : (List ℕ → Option (List ℕ)) → List ℕ → List ℕ
get_binary_name filename path = elim (filename path) [ none ↦ last_part path | some name ↦ name ]

unfoldable pub is_empty : List ℕ → Bool
is_empty [] = true
is_empty (c ∷ cs) = false

-- `Application::Application`: `appName`, from the path of the program and `appPath`.
unfoldable pub construct : (List ℕ → Option (List ℕ)) → List ℕ → List ℕ → List ℕ
construct filename binary_path app_path =
    if not (is_empty app_path) then get_binary_name filename app_path else binary_path
