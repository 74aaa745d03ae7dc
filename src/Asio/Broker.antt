-- ===== src/Asio/Broker.antt =====
-- `ClientSession` and `AsyncEventBroker` of common/src/asio/AsyncEventBroker.cpp: what the broker does
-- with the frames of its clients. A connected session is kept alive by its read handler; a lost one
-- unsubscribes and then expires.
pub mod Spec
pub mod Laws
mod Tests
use common_lib.Common.{
  ℕ, Bool, true, false, Option, none, some, List, [], ◌∷◌, ◌++◌, if◌then◌else◌, ◌==◌,
}
use common_lib.Communication.Frame.{
  FrameType, regist, unregist, data_frame, ack, other, Frame, parse, make,
}
use common_lib.Asio.Registry.{
  Sessions, Send, unregist as unregist_session, regist as regist_session, route,
}

pub record Broker : Type 0 where
  pub sessions : Sessions
  pub alive : ℕ → Bool

abbrev pub update : (ℕ → Bool) → ℕ → Bool → ℕ → Bool
update f i v j = if i == j then v else f j

abbrev pub no_sessions : Broker
no_sessions = record { sessions = []; alive = λ _. false }

-- The three callbacks that `onAccept` gives a session.
unfoldable pub on_subscribe : Broker → ℕ → ℕ → Broker × List Send
on_subscribe b topic s =
    (record b { sessions = regist_session topic s b.sessions }, (s, make topic ack []) ∷ [])

unfoldable pub on_unsubscribe : Broker → ℕ → Broker
on_unsubscribe b s = record b { sessions = unregist_session b.alive s b.sessions }

unfoldable pub on_event : Broker → ℕ → List ℕ → List Send
on_event b topic payload = route b.alive topic payload b.sessions

-- The `switch` of `onReceive`; an unknown type is logged.
unfoldable pub dispatch : FrameType → ℕ → List ℕ → ℕ → Broker → Broker × List Send
unfolding on_subscribe on_unsubscribe on_event
dispatch regist topic payload s b = on_subscribe b topic s
dispatch unregist topic payload s b = (on_unsubscribe b s, [])
dispatch data_frame topic payload s b = (b, on_event b topic payload)
dispatch ack topic payload s b = (b, [])
dispatch (other n) topic payload s b = (b, [])

-- `none` is the failed assertion of `Frame::parse`.
unfoldable pub on_receive : Broker → ℕ → List ℕ → Option (Broker × List Send)
on_receive b s raw = elim (parse raw) [
  | none ↦ none
  | some f ↦ some (dispatch f.type f.topic f.payload s b)
]

-- `onAccept`, with `establish`.
unfoldable pub on_accept : Broker → ℕ → Broker
on_accept b s = record b { alive = update b.alive s true }

-- The error handler that `establish` installs, and the end of the session after it.
unfoldable pub on_disconnect : Broker → ℕ → Broker
unfolding on_unsubscribe
on_disconnect b s = record (on_unsubscribe b s) { alive = update b.alive s false }

-- What asio calls the broker with.
pub data Input : Type 0 where
  accepts : ℕ → Input
  receives : ℕ → List ℕ → Input
  loses : ℕ → Input

unfoldable pub step : Input → Broker → Option (Broker × List Send)
step (accepts s) b = some (on_accept b s, [])
step (receives s raw) b = on_receive b s raw
step (loses s) b = some (on_disconnect b s, [])

-- The frames sent for a sequence of inputs.
unfoldable pub run : List Input → Broker → Option (List Send)
run [] b = some []
run (i ∷ is) b = elim (step i b) [
  | none ↦ none
  | some (b', sends) ↦ elim (run is b') [ none ↦ none | some later ↦ some (sends ++ later) ]
]
