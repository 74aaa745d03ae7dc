-- ===== src/Asio/Connect.antt =====
-- `connect`, `disconnect` and the destructor of `AsyncSocketImpl` in common/src/asio/AsyncTcp.cpp, with
-- the handler of `async_connect`, each as a step. asio is the environment: `async_connect` opens the
-- socket, ends each attempt in order, with success only while the socket is open, and aborts what is
-- under way when the socket closes; it calls the handlers in order. `onConnectHandler` is not null.
pub mod Polite
mod Tests
use common_lib.Common.{Bool, true, false, List, [], ◌∷◌, ◌++◌, if◌then◌else◌}
use common_lib.Asio.Tcp.{ErrorCode, connection_lost}

-- What asio calls the handler with; the flag says that `onErrorHandler` is not null.
pub data Completion : Type 0 where
  succeeded failed : Bool → Completion

-- What the user learns; `threw` is the exception of `resolve`.
pub data Event : Type 0 where
  on_connect threw : Event
  on_error : ErrorCode → Event

-- `attempts` are the calls of `async_connect` under way, and `completions` those whose handlers have
-- not been called. `alive` says that the destructor has not run.
pub record Socket : Type 0 where
  pub alive : Bool
  pub is_open : Bool
  pub connected : Bool
  pub attempts : List Bool
  pub completions : List Completion
  pub events : List Event

unfoldable pub create : Socket
create = record {
  alive = true;
  is_open = false;
  connected = false;
  attempts = [];
  completions = [];
  events = [];
}

-- A step may be impossible, or use a socket that is destroyed.
pub data Outcome : Type 0 where
  done : Socket → Outcome
  impossible undefined : Outcome

abbrev pub aborted : List Bool → List Completion
aborted [] = []
aborted (has_error ∷ rest) = failed has_error ∷ aborted rest

-- `resolves` says that `resolve` finds the address.
unfoldable pub connect : Bool → Bool → Socket → Socket
connect resolves has_error s =
    if s.connected
    then s
    else if resolves
    then record s { is_open = true; attempts = s.attempts ++ has_error ∷ [] }
    else record s { events = s.events ++ threw ∷ [] }

-- `_socket.close()`.
unfoldable pub close : Socket → Socket
close s = record s {
  is_open = false;
  attempts = [];
  completions = s.completions ++ aborted s.attempts;
}

unfoldable pub disconnect : Socket → Socket
unfolding close
disconnect s = record (if s.is_open then close s else s) { connected = false }

unfoldable pub destroy : Socket → Socket
unfolding disconnect
destroy s = record (disconnect s) { alive = false }

-- asio ends an attempt; one that fails may leave the socket open or closed.
unfoldable pub succeed : List Bool → Socket → Outcome
succeed [] s = impossible
succeed (has_error ∷ rest) s =
    if s.is_open
    then done
        (record s { attempts = rest; completions = s.completions ++ succeeded has_error ∷ [] })
    else impossible

unfoldable pub fail : Bool → List Bool → Socket → Outcome
fail left_open [] s = impossible
fail left_open (has_error ∷ rest) s = done (record s {
  is_open = left_open;
  attempts = rest;
  completions = s.completions ++ failed has_error ∷ [];
})

abbrev refused : Bool → Socket → Socket
refused has_error s = record s {
  events = s.events ++ (if has_error then on_error connection_lost ∷ [] else []);
}

-- The handler. When an attempt has ended, asio looks at the socket once more, and hands the handler
-- `operation_aborted` if it is closed; the socket has to be there for that.
unfoldable pub handle : Completion → Socket → Outcome
handle (succeeded has_error) s =
    if s.alive
    then done (
        if s.is_open
        then record s { connected = true; events = s.events ++ on_connect ∷ [] }
        else refused has_error s)
    else undefined
handle (failed has_error) s = if s.alive then done (refused has_error s) else undefined

unfoldable pub handle_first : List Completion → Socket → Outcome
unfolding handle
handle_first [] s = impossible
handle_first (c ∷ cs) s = handle c (record s { completions = cs })

pub data Move : Type 0 where
  connects : Bool → Bool → Move
  disconnects destroys succeeds handles : Move
  fails : Bool → Move

-- A call of the user, who has the socket until it is destroyed.
abbrev called : Socket → Socket → Outcome
called s s' = if s.alive then done s' else impossible

unfoldable pub step : Move → Socket → Outcome
unfolding connect disconnect destroy handle_first
step (connects resolves has_error) s = called s (connect resolves has_error s)
step disconnects s = called s (disconnect s)
step destroys s = called s (destroy s)
step succeeds s = succeed s.attempts s
step (fails left_open) s = fail left_open s.attempts s
step handles s = handle_first s.completions s

unfoldable pub run : List Move → Socket → Outcome
run [] s = done s
run (m ∷ ms) s = elim (step m s) [
  | done s' ↦ run ms s'
  | impossible ↦ impossible
  | undefined ↦ undefined
]
