-- ===== src/Communication/Socket.antt =====
-- `DetailSocket`, `Server` and `Client` of common/src/communication/Socket.cpp in their Linux build.
-- `System` is what the system calls answer.
pub mod Laws
pub mod Opening
mod Tests
use common_lib.Common.{
  ℕ, zero, suc, ◌-◌, ◌*◌, ◌%◌, ◌^◌, Bool, true, false, Option, none, some, List, [], ◌∷◌, ◌++◌,
  if◌then◌else◌, ltb, ◌==◌,
}

-- A descriptor; `none` is -1.
abbrev pub Descriptor : Type 0
Descriptor = Option ℕ

-- The members; an address is its characters.
pub record Socket : Type 0 where
  pub fd : Descriptor
  pub conn : Descriptor
  pub port : ℕ
  pub address : List ℕ

-- What the calls answer, a failure by `none` or `false`; `waits` is the answer of select to a
-- descriptor and a time in microseconds, and `sends` that of send.
pub record System : Type 0 where
  pub makes : Descriptor
  pub sets_options : Bool
  pub binds : Bool
  pub listens : Bool
  pub accepts : Descriptor
  pub reads_address : List ℕ → Bool
  pub connects : List ℕ → ℕ → Bool
  pub reads : Option ℕ
  pub waits : ℕ → ℕ → Bool
  pub sends : Bool

-- The calls that make or close a descriptor, in order.
pub data Call : Type 0 where
  made accepted closed : Descriptor → Call

-- How a member ends; `undefined` is an access out of the bounds of an `fd_set`.
pub data End {ℓ} (A : Type ℓ) : Type ℓ where
  returns : A → End A
  throws undefined : End A

-- The object afterwards, how the member ended, and its calls.
abbrev pub Done : Type 0 → Type 0
Done A = Socket × End A × List Call

unfoldable pub create : Socket
create = record { fd = none; conn = none; port = 0; address = [] }

unfoldable pub close : Socket → Done Unit
close s = (s, returns tt, closed s.fd ∷ [])

-- `close()` and the exception, after these calls.
unfoldable pub give_up : List Call → Socket → Done Unit
unfolding close
give_up calls s = ((close s).0, throws, calls ++ (close s).2)

-- Whether it is 0, which `prepare` takes for a failure.
unfoldable pub is_zero : Descriptor → Bool
is_zero none = false
is_zero (some fd) = fd == 0

unfoldable pub prepare : System → List ℕ → ℕ → Socket → Done Unit
prepare sys address port s =
    let s' : Socket = record s { address = address; port = port; fd = sys.makes } in
    if is_zero sys.makes
    then give_up (made sys.makes ∷ []) s'
    else (s', returns tt, made sys.makes ∷ [])

-- The end of `Server::open`, with the answer of accept.
unfoldable pub take_conn : Descriptor → Socket → Done Unit
take_conn none s = give_up (accepted none ∷ []) (record s { conn = none })
take_conn (some fd) s = (record s { conn = some fd }, returns tt, accepted (some fd) ∷ [])

-- `Server::open`.
unfoldable pub open_server : System → Socket → Done Unit
open_server sys s =
    if sys.sets_options
    then if sys.binds
      then if sys.listens then take_conn sys.accepts s else give_up [] s
      else give_up [] s
    else give_up [] s

-- `Client::open`.
unfoldable pub open_client : System → Socket → Done Unit
open_client sys s =
    if sys.reads_address s.address
    then if sys.connects s.address (s.port % 2 ^ 16)
      then (record s { conn = s.fd }, returns tt, [])
      else give_up [] s
    else (s, throws, [])

pub data SocketType : Type 0 where
  server client : SocketType

unfoldable pub open_socket : SocketType → System → Socket → Done Unit
open_socket server sys s = open_server sys s
open_socket client sys s = open_client sys s

-- The answer of `::read` as a size_t: -1 is its largest value.
unfoldable pub read_size : Option ℕ → ℕ
read_size none = 2 ^ 64 - 1
read_size (some size) = size

-- `read` with no time: the end of the stream throws.
unfoldable pub read : System → Socket → Done ℕ
read sys s =
    if read_size sys.reads == 0 then (s, throws, []) else (s, returns (read_size sys.reads), [])

-- What `read` with a time makes of the inner `read`, whose size it does not keep.
unfoldable pub forget_size : Done ℕ → Done ℕ
forget_size (s, returns size, calls) = (s, returns 0, calls)
forget_size (s, throws, calls) = (s, throws, calls)
forget_size (s, undefined, calls) = (s, undefined, calls)

-- `FD_SET`, for 1024 descriptors, then select and `read`.
unfoldable pub read_ready : System → ℕ → Descriptor → Socket → Done ℕ
read_ready sys millisecond none s = (s, undefined, [])
read_ready sys millisecond (some fd) s =
    if ltb fd 1024
    then if sys.waits fd (millisecond * 1000 % 2 ^ 32)
      then forget_size (read sys s)
      else (s, returns 0, [])
    else (s, undefined, [])

unfoldable pub read_timed : System → ℕ → Socket → Done ℕ
read_timed sys millisecond s = read_ready sys millisecond s.conn s

unfoldable pub send : System → Socket → Done Unit
send sys s = if sys.sends then (s, returns tt, []) else (s, throws, [])

-- The deleter of `__create`.
unfoldable pub destroy : Socket → Done Unit
destroy s = close s

-- A call of the user, with what the system answers to it.
pub data Use : Type 0 where
  prepares : System → List ℕ → ℕ → Use
  opens : System → Use
  reads_some : System → Use
  waits_for : System → ℕ → Use
  sends_some : System → Use
  closes : Use

abbrev pub effect : {A : Type 0} → Done A → Socket × List Call
effect d = (d.0, d.2)

unfoldable pub use_socket : SocketType → Use → Socket → Socket × List Call
use_socket t (prepares sys address port) s = effect (prepare sys address port s)
use_socket t (opens sys) s = effect (open_socket t sys s)
use_socket t (reads_some sys) s = effect (read sys s)
use_socket t (waits_for sys millisecond) s = effect (read_timed sys millisecond s)
use_socket t (sends_some sys) s = effect (send sys s)
use_socket t closes s = effect (close s)

-- A user that goes on whatever a call ends with, and the calls of all it does, in order.
unfoldable pub session : SocketType → List Use → Socket → Socket × List Call
session t [] s = (s, [])
session t (u ∷ us) s =
    let (s', calls) = use_socket t u s in
    let (s'', later) = session t us s' in (s'', calls ++ later)
