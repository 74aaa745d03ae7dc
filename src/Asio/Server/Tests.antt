-- ===== src/Asio/Server/Tests.antt =====
-- Runs of the listeners of a broker.
use common_lib.Common.{ℕ, ◌≡◌, ◌≢◌, refl, arith, true, false, none, some, [], ◌∷◌}
use common_lib.Asio.Listener
use common_lib.Asio.Server.{Server, create, put, start, stop, runs, stops, step, run}
use common_lib.Asio.Server.Laws.{Reached, created, moved, Reached-IsTidy}
use common_lib.Asio.Server.Lost.{run-lost}

abbrev open_one : Listener.Listener
open_one = record { is_open = true; started = 1; completions = []; clients = [] }

abbrev opened : Server
opened = record { count = 1; current = some 0; table = put create.table 0 open_one }

abbrev shut : Server
shut = record {
  count = 1;
  current = none;
  table =
      put opened.table 0 (record {
        is_open = false;
        started = 0;
        completions = Listener.aborted ∷ [];
        clients = [];
      });
}

shut-Reached : Reached shut
unfolding create start stop step Listener.create Listener.listen Listener.listening Listener.abort
    Listener.stop
shut-Reached = moved stops opened shut (moved (runs true) create opened created refl refl) tt refl

shut_lem : (k : ℕ) → shut.current ≢ some k → (shut.table k).is_open ≡ false
shut_lem = Reached-IsTidy shut shut-Reached

-- `run`, and then `stop`, leave the first listener open.
abbrev left : Server
left = record {
  count = 2;
  current = none;
  table =
      put (put opened.table 1 open_one) 1 (record {
        is_open = false;
        started = 0;
        completions = Listener.aborted ∷ [];
        clients = [];
      });
}

run-lost_example : (left.table 0 ≡ opened.table 0) × (left.current ≢ some 0)
unfolding create start stop step run Listener.create Listener.listen Listener.listening
    Listener.abort Listener.stop
run-lost_example = run-lost 0 true (stops ∷ []) opened left (omega arith) (tt, tt) refl
