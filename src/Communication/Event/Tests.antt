-- ===== src/Communication/Event/Tests.antt =====
-- A publisher and a subscriber of numbers below 256.
use common_lib.Common.{ℕ, ◌≡◌, refl, arith, false, some, none, List, [], ◌∷◌, ◌++◌}
use common_lib.Asio.Tcp.{little}
use common_lib.Asio.Transport
use common_lib.Asio.Transport.{Transport, closes, done}
use common_lib.Communication.Event.{
  Codec, aborted, udp, create_publisher, registers, unregisters, run,
}
use common_lib.Communication.Event.Lost.{ready, strand_steps, regist-lost}
use common_lib.Communication.Event.Delivery.{delivered, delivered_lem}

abbrev first_of : List ℕ → ℕ
first_of [] = 0
first_of (n ∷ ns) = n

abbrev numbers : Codec ℕ
numbers = record { write = λ n. n ∷ []; read = first_of }

created : create_publisher udp 258 ≡ aborted
unfolding create_publisher
created = refl

abbrev published : Transport
published = ready (Transport.create 258) 0

regist-lost_example :
    run numbers (unregisters ∷ (strand_steps 2 ++ registers ∷ strand_steps 2)) published
    ≡ done (record published { socket = none; connected = false }) (closes 0 ∷ [])
regist-lost_example = regist-lost numbers published 0 2 refl refl refl refl (omega arith)

delivered_lem_example : delivered numbers little 258 4 5 (7 ∷ 9 ∷ []) ≡ some (7 ∷ 9 ∷ [])
delivered_lem_example =
    delivered_lem numbers little 258 4 5 (7 ∷ 9 ∷ []) (λ x. refl) (omega arith) (omega arith)
