-- ===== src/Asio/Udp/Tests.antt =====
-- Runs of a UDP socket.
use common_lib.Common.{◌≡◌, refl, arith, true, false, List, [], ◌∷◌, ◌++◌, map}
use common_lib.Asio.Udp.{
  received, on_receive, on_error, Udp, done, crashed, create, open_socket, close, destroy, receive,
  arrive, fail, report, handle, handle_first, call, Move, opens, closes, destroys, receives,
  handles, arrives, fails, step, run,
}
use common_lib.Asio.Udp.Laws.{run-delivers}
use common_lib.Asio.Udp.Steps.{arrivals, delivered, waiting, cut}
use common_lib.Asio.Udp.Loop.{run-never_ends, fails_on}

-- Two datagrams, the second shorter than the first, which is longer than the buffer; an error between
-- them; and the second waits for its handler.
abbrev traffic : List Move
traffic =
    opens true
    ∷ receives
    ∷ arrives (1 ∷ 2 ∷ 3 ∷ 4 ∷ []) 7
    ∷ handles
    ∷ fails 9
    ∷ handles
    ∷ arrives (5 ∷ []) 8
    ∷ []

abbrev busy : Udp
busy = record {
  is_open = true;
  alive = true;
  reports = false;
  buffer = 5 ∷ 2 ∷ 3 ∷ [];
  sender = 8;
  started = 0;
  completions = received 1 ∷ [];
  log = on_receive (1 ∷ 2 ∷ 3 ∷ []) 7 ∷ [];
}

run-delivers_example : delivered busy.log ++ waiting busy ≡ map (cut 3) (arrivals traffic)
unfolding create open_socket receive arrive fail report handle handle_first call step run
run-delivers_example = run-delivers 3 false traffic busy (omega arith) refl

-- A socket that is destroyed before a handler is called is used by it.
destroyed : run (traffic ++ destroys ∷ handles ∷ []) (create 3 false) ≡ crashed
unfolding create open_socket close destroy receive arrive fail report handle handle_first call step
    run
destroyed = refl

-- Not so if the handler is called for the abort.
closed :
    run (opens true ∷ receives ∷ destroys ∷ handles ∷ []) (create 0 false)
    ≡ done (record (create 0 false) { alive = false })
unfolding create open_socket close destroy receive arrive fail report handle handle_first call step
    run
closed = refl

-- A socket whose first datagram waits for its handler.
abbrev met : Udp
met = record {
  is_open = true;
  alive = true;
  reports = true;
  buffer = 1 ∷ 2 ∷ 0 ∷ 0 ∷ [];
  sender = 7;
  started = 0;
  completions = received 2 ∷ [];
  log = [];
}

run-never_ends_example :
    (u : Udp) × (run (closes ∷ handles ∷ fails_on (9 ∷ 10 ∷ [])) met ≡ done u)
    × (u.log ≡ on_receive (1 ∷ 2 ∷ []) 7 ∷ on_error 9 ∷ on_error 10 ∷ [])
    × (u.is_open ≡ false)
    × (u.started ≡ 1)
run-never_ends_example = run-never_ends met 2 (9 ∷ 10 ∷ []) refl refl refl refl refl
