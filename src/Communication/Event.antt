-- ===== src/Communication/Event.antt =====
-- `EventPublisher` and `EventSubscriber` of common/include/common/communication/impl, in the build
-- without strict mode: each passes its calls on to a TcpTransport, and is modelled by it.
pub mod Lost
pub mod Stages
pub mod Calls
pub mod Delivery
mod Tests
use common_lib.Common.{ℕ, Bool, true, false, List, [], ◌∷◌, if◌then◌else◌}
use common_lib.Asio.Transport
use common_lib.Asio.Transport.{Transport, Effect, on_message, Outcome, done, crashed, later}

-- The operators of `DataType`: `Bytes << data`, and `data << Bytes`.
pub record Codec (A : Type 0) : Type 0 where
  pub write : A → List ℕ
  pub read : List ℕ → A

-- `Connection::_protocol`.
pub data Protocol : Type 0 where
  tcp udp other : Protocol

-- What `__create` does: an object, a null pointer, or the end of the program.
pub data Created : Type 0 where
  made : Transport → Created
  null aborted : Created

-- `EventPublisher::__create`, and that of EventSubscriber.
unfoldable pub create_publisher : Protocol → ℕ → Created
create_publisher tcp topic = made (Transport.create topic)
create_publisher udp topic = aborted
create_publisher other topic = null

unfoldable pub create_subscriber : Protocol → ℕ → Created
create_subscriber tcp topic = made (Transport.create topic)
create_subscriber udp topic = aborted
create_subscriber other topic = null

-- `EventPublisher::regist`.
unfoldable pub regist : Transport → Outcome
regist t = if t.connected then done t [] else Transport.connect t

-- `EventSubscriber::subscribe`, where the handlers are not null.
unfoldable pub subscribe : Transport → Outcome
subscribe t = if t.connected then done t [] else Transport.subscribe t

-- `EventPublisher::unregist`, `EventSubscriber::unsubscribe`, and the destructors.
unfoldable pub unregist : Transport → Outcome
unregist t = Transport.disconnect t

unfoldable pub unsubscribe : Transport → Outcome
unsubscribe t = Transport.disconnect t

-- What the user calls, and what asio and the strand do. A destructor is the last call.
pub data Call (A : Type 0) : Type 0 where
  registers unregisters subscribes unsubscribes : Call A
  publishes : A → Call A
  asio : Transport.Move → Call A

module _ {A : Type 0} (c : Codec A) where
  -- `EventPublisher::publish`.
  unfoldable pub publish : A → Transport → Outcome
  publish x t = Transport.publish (c.write x) t

  unfoldable pub step : Call A → Transport → Outcome
  unfolding regist unregist subscribe unsubscribe publish
  step registers t = regist t
  step subscribes t = subscribe t
  step unregisters t = unregist t
  step unsubscribes t = unsubscribe t
  step (publishes x) t = publish x t
  step (asio m) t = Transport.step m t

  unfoldable pub run : List (Call A) → Transport → Outcome
  run [] t = done t []
  run (m ∷ ms) t = elim (step m t) [
    | done t' effects ↦ later effects (run ms t')
    | crashed ↦ crashed
  ]

  -- What the handler of a subscriber is called with.
  unfoldable pub handled : List Effect → List A
  handled [] = []
  handled (on_message payload ∷ es) = c.read payload ∷ handled es
  handled (_ ∷ es) = handled es
