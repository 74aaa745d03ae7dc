-- ===== src/Asio/Listener.antt =====
-- `AsyncListenerImpl` of common/src/asio/AsyncTcp.cpp: the calls of its user, what the network does,
-- and the handler of its accept loop, each as a step. asio completes what was started while the
-- acceptor is open, or fails it, and aborts it when the acceptor closes; it calls the handlers in
-- order, each of which holds a share of the listener. A client is a number.
pub mod Laws
mod Tests
use common_lib.Common.{
  ℕ, zero, suc, ◌+◌, Bool, true, false, List, [], ◌∷◌, ◌++◌, replicate, if◌then◌else◌,
}

-- What asio calls the handler with: no error and a client, `operation_aborted`, or another error.
pub data Completion : Type 0 where
  accepted : ℕ → Completion
  failed aborted : Completion

-- `is_open` says that there is an acceptor, and that it is open. `started` counts the accepts that
-- asio has not completed, and `completions` are those whose handlers have not been called. `clients`
-- are those that the user's handler was called with.
pub record Listener : Type 0 where
  pub is_open : Bool
  pub started : ℕ
  pub completions : List Completion
  pub clients : List ℕ

unfoldable pub create : Listener
create = record { is_open = false; started = 0; completions = []; clients = [] }

-- A step may be impossible, or may end the program.
pub data Outcome : Type 0 where
  done : Listener → Outcome
  impossible crashed : Outcome

unfoldable pub listening : Listener → Listener
listening l = record l { started = suc l.started }

-- The acceptor closes.
unfoldable pub abort : Listener → Listener
abort l = record l {
  is_open = false;
  started = 0;
  completions = l.completions ++ replicate l.started aborted;
}

-- A second call replaces the acceptor. If the system refuses the address, asio throws, and `listen`
-- may not.
unfoldable pub listen : Bool → Listener → Outcome
unfolding listening abort
listen granted l =
    if granted then done (listening (record (abort l) { is_open = true })) else crashed

unfoldable pub stop : Listener → Listener
unfolding abort
stop l = if l.is_open then abort l else l

-- A client connects.
unfoldable pub accept : ℕ → ℕ → Listener → Outcome
accept zero client l = impossible
accept (suc n) client l =
    if l.is_open
    then done (record l { started = n; completions = l.completions ++ accepted client ∷ [] })
    else impossible

-- An accept fails, as it does on an acceptor that is not open.
unfoldable pub fail : ℕ → Listener → Outcome
fail zero l = impossible
fail (suc n) l = done (record l { started = n; completions = l.completions ++ failed ∷ [] })

-- The handler of `listening`.
unfoldable pub handle : Completion → Listener → Listener
unfolding listening
handle (accepted client) l = listening (record l { clients = l.clients ++ client ∷ [] })
handle aborted l = l
handle failed l = if l.is_open then listening l else l

unfoldable pub handle_first : List Completion → Listener → Outcome
unfolding handle
handle_first [] l = impossible
handle_first (c ∷ cs) l = done (handle c (record l { completions = cs }))

pub data Move : Type 0 where
  listens : Bool → Move
  stops fails handles : Move
  accepts : ℕ → Move

unfoldable pub step : Move → Listener → Outcome
unfolding listen stop handle_first
step (listens granted) l = listen granted l
step stops l = done (stop l)
step fails l = fail l.started l
step handles l = handle_first l.completions l
step (accepts client) l = accept l.started client l

unfoldable pub run : List Move → Listener → Outcome
run [] l = done l
run (m ∷ ms) l = elim (step m l) [
  | done l' ↦ run ms l'
  | impossible ↦ impossible
  | crashed ↦ crashed
]
