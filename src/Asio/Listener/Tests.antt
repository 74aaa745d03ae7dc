-- ===== src/Asio/Listener/Tests.antt =====
-- Runs of a listener.
use common_lib.Common.{◌+◌, ◌*◌, ◌≤◌, ◌≡◌, refl, true, false, [], ◌∷◌, length}
use common_lib.Asio.Listener.{
  accepted, Listener, create, done, listening, abort, listen, stop, accept, fail, handle,
  handle_first, listens, fails, handles, accepts, step, run,
}
use common_lib.Asio.Listener.Laws.{stop-ends}

-- Two clients come, and the second one's handler is still to be called.
abbrev busy : Listener
busy = record { is_open = true; started = 0; completions = accepted 6 ∷ []; clients = 5 ∷ [] }

busy_lem : run (listens true ∷ accepts 5 ∷ handles ∷ accepts 6 ∷ []) create ≡ done busy
unfolding create listening abort listen accept handle handle_first step run
busy_lem = refl

-- The handler starts one more accept, which fails.
abbrev ended : Listener
ended = record { is_open = false; started = 0; completions = []; clients = 5 ∷ 6 ∷ [] }

stop-ends_example :
    length (handles ∷ fails ∷ handles ∷ []) ≤ 3 * (busy.started + length busy.completions)
unfolding listening abort stop fail handle handle_first step run
stop-ends_example = stop-ends busy ended (handles ∷ fails ∷ handles ∷ []) (tt, (tt, (tt, tt))) refl
