-- ===== src/Asio/Transport/Tests.antt =====
-- Runs of common/src/asio/AsyncEventTransport.cpp.
use common_lib.Common.{◌≡◌, refl, true, false, some, [], ◌∷◌}
use common_lib.Communication.Frame.{ack, parse, make, of_byte, to_byte}
use common_lib.Asio.Transport.{
  Transport, done, crashed, create, open_socket, connect, register, on_subscribe, disconnect,
  close_socket, perform, begin, begin_first, go_on, listen, handler_goes, deliver, deliver_frame,
  on_receive, calls_connect, calls_disconnect, strand_goes, connected_subscriber, fails,
  receives_raw, step, later, run, on_error,
}

-- Opened the socket 0, and a new one.
abbrev opened : Transport
opened = record (create 258) { socket = some 0; made = 1 }

abbrev ready : Transport
ready = record opened { connected = true }

abbrev fresh : Transport
fresh = create 258

-- An acknowledgement for a subscriber that gave no `onSubscribed`.
ack_crashes : run (receives_raw false (make 258 ack []) ∷ []) ready ≡ crashed
unfolding create run step on_receive deliver_frame deliver parse make of_byte to_byte
ack_crashes = refl

-- The socket is dropped between the two uses that the handler of a connection makes of it.
late_crashes :
    run
      (calls_connect ∷ calls_disconnect ∷ connected_subscriber ∷ handler_goes ∷ strand_goes
        ∷ strand_goes ∷ strand_goes ∷ handler_goes ∷ [])
      fresh
    ≡ crashed
unfolding create run later step connect open_socket disconnect perform begin_first begin
    close_socket on_subscribe go_on register listen make
late_crashes = refl

-- After a connection failed, `connect` does nothing.
failed_stays : run (fails ∷ calls_connect ∷ []) opened ≡ done opened []
unfolding create run later step connect open_socket on_error
failed_stays = refl
