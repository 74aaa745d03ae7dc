-- ===== src/Asio/Tcp/Tests.antt =====
-- Tests of the framing of common/src/asio/AsyncTcp.cpp.
use common_lib.Common.{◌≡◌, refl, arith, true, [], ◌∷◌, ◌++◌, take}
use common_lib.Asio.Tcp.{
  little, size_bytes, send, receive, on_receive, report, eof, receive_failure, send_done,
  send_failure, send_error,
}
use common_lib.Asio.Tcp.Laws.{send_all, receive-cut}

send_bytes : send little (9 ∷ 8 ∷ []) ≡ 2 ∷ 0 ∷ 0 ∷ 0 ∷ 9 ∷ 8 ∷ []
unfolding send size_bytes
send_bytes = refl

send_fails : send_done true true true 0 ≡ send_error send_failure ∷ []
unfolding send_done
send_fails = refl

-- Two messages, and five of the six bytes of a third.
receive-cut_example :
    receive little true eof 20
      (send_all little ((1 ∷ []) ∷ [] ∷ []) ++ take 5 (send little (7 ∷ 8 ∷ [])))
    ≡ on_receive (1 ∷ []) ∷ on_receive [] ∷ report true receive_failure
receive-cut_example =
    receive-cut little true eof 20 5 ((1 ∷ []) ∷ [] ∷ []) (7 ∷ 8 ∷ []) (omega arith) (omega arith)
      (unfold send size_bytes in omega arith) (unfold send size_bytes in omega arith)
