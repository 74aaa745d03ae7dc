-- ===== src/Asio/Server.antt =====
-- `run` and `stop` of `AsyncEventBroker` in common/src/asio/AsyncEventBroker.cpp, over Asio/Listener.
-- A listener that the broker has let go lives on in the handler of its accept loop.
pub mod Laws
pub mod Lost
mod Tests
use common_lib.Common.{ℕ, suc, Option, none, some, Bool, List, [], ◌∷◌, if◌then◌else◌, ◌==◌}
use common_lib.Asio.Listener

-- Listeners are numbered as they are made; `current` is `_listener`.
pub record Server : Type 0 where
  pub count : ℕ
  pub current : Option ℕ
  pub table : ℕ → Listener.Listener

unfoldable pub create : Server
create = record { count = 0; current = none; table = λ k. Listener.create }

-- A step may be impossible, or end the program.
pub data Outcome : Type 0 where
  done : Server → Outcome
  impossible crashed : Outcome

abbrev pub put : (ℕ → Listener.Listener) → ℕ → Listener.Listener → ℕ → Listener.Listener
put table k l j = if j == k then l else table j

-- What a step of listener `k` makes of the server.
abbrev pub within : ℕ → Server → Listener.Outcome → Outcome
within k s (Listener.done l) = done (record s { table = put s.table k l })
within k s Listener.impossible = impossible
within k s Listener.crashed = crashed

-- A new listener, which replaces the one before.
unfoldable pub start : Bool → Server → Outcome
start granted s =
    within s.count (record s { count = suc s.count; current = some s.count })
      (Listener.listen granted Listener.create)

unfoldable pub stop : Option ℕ → Server → Server
stop none s = s
stop (some k) s = record s { current = none; table = put s.table k (Listener.stop (s.table k)) }

-- `moves k m` is a step of asio, or of the accept loop of listener `k`.
pub data Move : Type 0 where
  runs : Bool → Move
  stops : Move
  moves : ℕ → Listener.Move → Move

unfoldable pub step : Move → Server → Outcome
unfolding start stop
step (runs granted) s = start granted s
step stops s = done (stop s.current s)
step (moves k m) s = within k s (Listener.step m (s.table k))

unfoldable pub run : List Move → Server → Outcome
run [] s = done s
run (m ∷ ms) s = elim (step m s) [
  | done s' ↦ run ms s'
  | impossible ↦ impossible
  | crashed ↦ crashed
]
