-- ===== src/Asio/Connect/Tests.antt =====
-- Runs of a socket that connects.
use common_lib.Common.{◌≡◌, refl, true, false, [], ◌∷◌}
use common_lib.Asio.Tcp.{connection_lost}
use common_lib.Asio.Connect.{
  succeeded, on_connect, on_error, threw, Socket, create, done, undefined, connect, succeed, fail,
  handle, handle_first, connects, disconnects, destroys, succeeds, fails, handles, step, run,
  disconnect, close, destroy,
}

-- The name is not found, then the first attempt fails and the second is under way.
abbrev trying : Socket
trying = record {
  alive = true;
  is_open = true;
  connected = false;
  attempts = false ∷ [];
  completions = [];
  events = threw ∷ on_error connection_lost ∷ [];
}

trying_lem :
    run
      (connects false true ∷ connects true true ∷ fails false ∷ handles ∷ connects true false ∷ [])
      create
    ≡ done trying
unfolding create connect fail handle handle_first step run
trying_lem = refl

abbrev closed : Socket
closed = record {
  alive = true;
  is_open = false;
  connected = false;
  attempts = [];
  completions = [];
  events = threw ∷ on_error connection_lost ∷ [];
}

-- `disconnect` comes before the handler, which then learns of the abort.
closed_lem : run (succeeds ∷ disconnects ∷ handles ∷ []) trying ≡ done closed
unfolding disconnect close succeed handle handle_first step run
closed_lem = refl

-- The handler of a socket that is destroyed before it.
destroyed_lem : run (succeeds ∷ destroys ∷ handles ∷ []) trying ≡ undefined
unfolding disconnect close destroy succeed handle handle_first step run
destroyed_lem = refl

abbrev begun : Socket
begun = record {
  alive = true;
  is_open = true;
  connected = false;
  attempts = true ∷ [];
  completions = [];
  events = [];
}

abbrev met : Socket
met = record begun { attempts = []; completions = succeeded true ∷ [] }

abbrev joined : Socket
joined = record begun { connected = true; attempts = []; events = on_connect ∷ [] }
