-- ===== src/Communication/Socket/Tests.antt =====
-- Runs of common/src/communication/Socket.cpp.
use common_lib.Common.{◌≡◌, refl, true, false, none, some, List, [], ◌∷◌}
use common_lib.Communication.Socket.{
  Socket, System, returns, create, close, is_zero, prepare, take_conn, open_server, server,
  open_socket, read_size, read, forget_size, read_ready, read_timed, send, Use, prepares, opens,
  sends_some, closes, use_socket, session,
}
use common_lib.Communication.Socket.Laws.{times_closed, session-closes}

-- Descriptor 5 for the socket, 7 for the connection, and 3 bytes to read.
abbrev works_well : System
works_well = record {
  makes = some 5;
  sets_options = true;
  binds = true;
  listens = true;
  accepts = some 7;
  reads_address = λ address. true;
  connects = λ address port. true;
  reads = some 3;
  waits = λ fd time. true;
  sends = true;
}

abbrev cannot_bind : System
cannot_bind = record works_well { binds = false }

abbrev ready : Socket
ready = record { fd = some 5; conn = none; port = 80; address = [] }

abbrev connected : Socket
connected = record ready { conn = some 7 }

abbrev visit : List Use
visit = prepares works_well [] 80 ∷ opens works_well ∷ sends_some works_well ∷ closes ∷ []

session-closes_example : times_closed 7 (session server visit create).1 ≡ 0
unfolding create session use_socket prepare is_zero open_socket open_server take_conn send close
session-closes_example = session-closes server visit 7 refl

-- The three bytes are read, and 0 is returned.
read_timed_three : (read_timed works_well 10 connected).1 ≡ returns 0
unfolding read_timed read_ready forget_size read read_size
read_timed_three = refl
