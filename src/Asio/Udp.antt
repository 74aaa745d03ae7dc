-- ===== src/Asio/Udp.antt =====
-- `AsyncUdpSocketImpl` of common/src/asio/AsyncUdp.cpp: the calls of its user, what the network does,
-- and the handlers that asio calls, each as a step. asio completes what was started while the socket
-- is open, or fails it, and aborts it when the socket closes; it calls the handlers in order.
pub mod Steps
pub mod Laws
pub mod Loop
mod Tests
use common_lib.Common.{
  ℕ, zero, suc, ◌+◌, Bool, true, false, List, [], ◌∷◌, ◌++◌, length, take, drop, replicate,
  if◌then◌else◌,
}

-- What asio calls a handler with: `bytes`, `operation_aborted`, or another error.
pub data Completion : Type 0 where
  received failed : ℕ → Completion
  aborted : Completion

-- What the user's handlers are called with.
pub data Event : Type 0 where
  on_receive : List ℕ → ℕ → Event
  on_error : ℕ → Event

-- `sender` is `_senderEndpoint`. `started` counts the receives that asio has not completed, and
-- `completions` are those whose handlers have not been called. `alive` is false once the socket is
-- destroyed; `reports` says whether there is an `onErrorHandler`.
pub record Udp : Type 0 where
  pub is_open : Bool
  pub alive : Bool
  pub reports : Bool
  pub buffer : List ℕ
  pub sender : ℕ
  pub started : ℕ
  pub completions : List Completion
  pub log : List Event

-- A step may be impossible; it may use a socket that is destroyed, or end the program.
pub data Outcome : Type 0 where
  done : Udp → Outcome
  impossible crashed : Outcome

unfoldable pub create : ℕ → Bool → Udp
create buffer_max_size reports = record {
  is_open = false;
  alive = true;
  reports = reports;
  buffer = replicate buffer_max_size 0;
  sender = 0;
  started = 0;
  completions = [];
  log = [];
}

-- A socket that is open already, or a port that the system refuses: asio throws, and `open` may not.
unfoldable pub open_socket : Bool → Udp → Outcome
open_socket accepted u =
    if u.is_open then crashed else if accepted then done (record u { is_open = true }) else crashed

unfoldable pub close : Udp → Udp
close u =
    if u.is_open
    then record u {
      is_open = false;
      started = 0;
      completions = u.completions ++ replicate u.started aborted;
    }
    else u

-- The destructor.
unfoldable pub destroy : Udp → Udp
destroy u = record (close u) { alive = false }

unfoldable pub receive : Udp → Udp
receive u = record u { started = suc u.started }

-- A datagram arrives. What the buffer cannot hold is dropped.
unfoldable pub arrive : ℕ → List ℕ → ℕ → Udp → Outcome
arrive zero datagram sender u = impossible
arrive (suc n) datagram sender u =
    let kept = take (length u.buffer) datagram in
    if u.is_open
    then done (record u {
      buffer = kept ++ drop (length kept) u.buffer;
      sender = sender;
      started = n;
      completions = u.completions ++ received (length kept) ∷ [];
    })
    else impossible

-- A receive fails, as it does on a socket that is not open.
unfoldable pub fail : ℕ → ℕ → Udp → Outcome
fail zero error u = impossible
fail (suc n) error u =
    done (record u { started = n; completions = u.completions ++ failed error ∷ [] })

unfoldable pub report : ℕ → Udp → Udp
report error u = record u { log = if u.reports then u.log ++ on_error error ∷ [] else u.log }

-- The handler of `receive`. It holds no share of the socket.
unfoldable pub handle : Completion → Udp → Outcome
unfolding receive
handle (received bytes) u =
    if u.alive
    then done (receive (record u { log = u.log ++ on_receive (take bytes u.buffer) u.sender ∷ [] }))
    else crashed
handle aborted u = done u
handle (failed error) u = if u.alive then done (receive (report error u)) else crashed

unfoldable pub handle_first : List Completion → Udp → Outcome
handle_first [] u = impossible
handle_first (c ∷ cs) u = handle c (record u { completions = cs })

-- The user no longer calls a socket that is destroyed.
unfoldable pub call : Bool → Outcome → Outcome
call alive o = if alive then o else impossible

pub data Move : Type 0 where
  opens : Bool → Move
  closes destroys receives handles : Move
  arrives : List ℕ → ℕ → Move
  fails : ℕ → Move

unfoldable pub step : Move → Udp → Outcome
step (opens accepted) u = call u.alive (open_socket accepted u)
step closes u = call u.alive (done (close u))
step destroys u = call u.alive (done (destroy u))
step receives u = call u.alive (done (receive u))
step handles u = handle_first u.completions u
step (arrives datagram sender) u = arrive u.started datagram sender u
step (fails error) u = fail u.started error u

unfoldable pub run : List Move → Udp → Outcome
run [] u = done u
run (m ∷ ms) u = elim (step m u) [
  | done u' ↦ run ms u'
  | impossible ↦ impossible
  | crashed ↦ crashed
]
