-- ===== src/Asio/Transport.antt =====
-- `TcpTransport` of common/src/asio/AsyncEventTransport.cpp, in the build without strict mode: its
-- calls, the tasks on its strand, and the handlers that its sockets call. IOContext runs the strand and
-- the handler of a connection in different threads, so each access of a task or of that handler to
-- `_socket` or `_connected` is a step of its own. A call of the user is one step; the handlers of
-- several connections take their turns.
pub mod Laws
mod Tests
use common_lib.Common.{
  ℕ, suc, ◌+◌, Bool, true, false, not, Option, none, some, List, [], ◌∷◌, ◌++◌, if◌then◌else◌,
}
use common_lib.Communication.Frame.{
  FrameType, regist, unregist, data_frame, ack, other, Frame, parse, make,
}

-- A task that `::asio::post` has put on the strand.
pub data Task : Type 0 where
  disconnects : Task
  publishes : List ℕ → Task

-- Where the strand is: between two tasks; in a disconnection, before `disconnect()`, before `reset()`,
-- and before `_connected` is cleared; or in a `publish`, before it uses `_socket`.
pub data Doing : Type 0 where
  resting closing resetting clearing : Doing
  sending : List ℕ → Doing

-- Where the handler of `subscribe` is, once it has set `_connected`: before `send`, before `receive`.
pub data Handler : Type 0 where
  registering receiving : Handler

-- A socket is its number; `made` counts them. `subscribed` says that `onSubscribed` is not null.
pub record Transport : Type 0 where
  pub topic : ℕ
  pub socket : Option ℕ
  pub made : ℕ
  pub connected : Bool
  pub strand : List Task
  pub doing : Doing
  pub handlers : List Handler

-- What happens outside the transport, in order: the calls of a socket, and of its handlers.
pub data Effect : Type 0 where
  connects closes receives : ℕ → Effect
  sends : ℕ → List ℕ → Effect
  on_message : List ℕ → Effect
  on_subscribed : Effect

-- `crashed` is a call of a null pointer or of an empty function, or a failed assertion.
pub data Outcome : Type 0 where
  done : Transport → List Effect → Outcome
  crashed : Outcome

unfoldable pub create : ℕ → Transport
create topic = record {
  topic = topic;
  socket = none;
  made = 0;
  connected = false;
  strand = [];
  doing = resting;
  handlers = [];
}

-- The head of `connect` and `subscribe`: nothing if there is a socket, even one that failed.
unfoldable pub open_socket : Option ℕ → Transport → Outcome
open_socket (some s) t = done t []
open_socket none t =
    done (record t { socket = some t.made; made = suc t.made }) (connects t.made ∷ [])

unfoldable pub connect : Transport → Outcome
connect t = open_socket t.socket t

unfoldable pub subscribe : Transport → Outcome
subscribe t = open_socket t.socket t

-- The handler of `connect`, once the socket is connected.
unfoldable pub on_connect : Transport → Outcome
on_connect t = done (record t { connected = true }) []

-- The handler of `subscribe`, up to its first use of `_socket`.
unfoldable pub on_subscribe : Transport → Outcome
on_subscribe t = done (record t { connected = true; handlers = t.handlers ++ registering ∷ [] }) []

-- `self->_socket->send(…)` and `self->_socket->receive(…)`, with the member that they find.
unfoldable pub register : Option ℕ → Transport → Outcome
register none t = crashed
register (some s) t = done t (sends s (make t.topic regist []) ∷ [])

unfoldable pub listen : Option ℕ → Transport → Outcome
listen none t = crashed
listen (some s) t = done t (receives s ∷ [])

-- The handler of a connection goes on.
unfoldable pub go_on : List Handler → Transport → Outcome
unfolding register listen
go_on [] t = done t []
go_on (registering ∷ hs) t = register t.socket (record t { handlers = receiving ∷ hs })
go_on (receiving ∷ hs) t = listen t.socket (record t { handlers = hs })

-- The handler of an error logs it.
unfoldable pub on_error : Transport → Outcome
on_error t = done t []

unfoldable pub disconnect : Transport → Outcome
disconnect t = done (record t { strand = t.strand ++ disconnects ∷ [] }) []

unfoldable pub publish : List ℕ → Transport → Outcome
publish payload t = done (record t { strand = t.strand ++ publishes payload ∷ [] }) []

-- `self->_socket->send(…)`.
unfoldable pub send_data : Option ℕ → List ℕ → Transport → Outcome
send_data none payload t = crashed
send_data (some s) payload t = done t (sends s (make t.topic data_frame payload) ∷ [])

unfoldable pub close_socket : Option ℕ → Transport → Outcome
close_socket none t = crashed
close_socket (some s) t = done t (closes s ∷ [])

abbrev pub is_some : Option ℕ → Bool
is_some none = false
is_some (some s) = true

-- The tests at the heads of the tasks.
unfoldable pub begin : Task → Transport → Outcome
begin disconnects t = done (if is_some t.socket then record t { doing = closing } else t) []
begin (publishes payload) t =
    done (if t.connected then record t { doing = sending payload } else t) []

unfoldable pub begin_first : List Task → Transport → Outcome
unfolding begin
begin_first [] t = done t []
begin_first (task ∷ tasks) t = begin task (record t { strand = tasks })

-- The strand performs the next access of its task, or begins the next task.
unfoldable pub perform : Doing → Transport → Outcome
unfolding begin_first close_socket send_data
perform resting t = begin_first t.strand t
perform closing t = close_socket t.socket (record t { doing = resetting })
perform resetting t = done (record t { socket = none; doing = clearing }) []
perform clearing t = done (record t { connected = false; doing = resting }) []
perform (sending payload) t = send_data t.socket payload (record t { doing = resting })

-- The handlers of a frame; `subscribed` says whether there is an `onSubscribed`.
unfoldable pub deliver : Bool → FrameType → List ℕ → Transport → Outcome
deliver subscribed ack payload t = if subscribed then done t (on_subscribed ∷ []) else crashed
deliver subscribed data_frame payload t = done t (on_message payload ∷ [])
deliver subscribed regist payload t = done t []
deliver subscribed unregist payload t = done t []
deliver subscribed (other code) payload t = done t []

unfoldable pub deliver_frame : Bool → Option Frame → Transport → Outcome
deliver_frame subscribed none t = crashed
deliver_frame subscribed (some f) t = deliver subscribed f.type f.payload t

unfoldable pub on_receive : Bool → List ℕ → Transport → Outcome
on_receive subscribed raw t = deliver_frame subscribed (parse raw) t

-- What happens to a transport. The handlers of a socket are called by asio.
pub data Move : Type 0 where
  calls_connect calls_subscribe calls_disconnect : Move
  calls_publish : List ℕ → Move
  strand_goes handler_goes connected_publisher connected_subscriber fails : Move
  receives_raw : Bool → List ℕ → Move

unfoldable pub step : Move → Transport → Outcome
step calls_connect t = connect t
step calls_subscribe t = subscribe t
step calls_disconnect t = disconnect t
step (calls_publish payload) t = publish payload t
step strand_goes t = perform t.doing t
step handler_goes t = go_on t.handlers t
step connected_publisher t = on_connect t
step connected_subscriber t = on_subscribe t
step fails t = on_error t
step (receives_raw subscribed raw) t = on_receive subscribed raw t

unfoldable pub later : List Effect → Outcome → Outcome
later effects (done t more) = done t (effects ++ more)
later effects crashed = crashed

unfoldable pub run : List Move → Transport → Outcome
run [] t = done t []
run (m ∷ ms) t = elim (step m t) [ done t' effects ↦ later effects (run ms t') | crashed ↦ crashed ]
