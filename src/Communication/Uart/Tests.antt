-- ===== src/Communication/Uart/Tests.antt =====
-- Tests of common/src/communication/serial/Uart.cpp.
use common_lib.Common.{◌+◌, ◌≡◌, refl, true, false, none, some, List, [], ◌∷◌}
use common_lib.Communication.Uart.{
  b9600, assign_uint32, Port, Uart, Call, done, aborted, transfer, destroy,
}
use common_lib.Communication.Uart.Line.{null_end, line_feed, readline}
use common_lib.Communication.Uart.Laws.{delivered, upto, readline-one_byte}
use common_lib.Communication.Uart.Descriptor.{
  Use, use_open, use_close, client, obtained, given_back, holds, client_balance,
}

-- `rate = 57600` changes nothing.
assign_lost : (assign_uint32 b9600 57600).0 ≡ b9600
unfolding assign_uint32
assign_lost = refl

abbrev closed_port : Uart
closed_port = record { baudrate = b9600; mode = 3; is_open = false; fd = none }

strict_read : transfer true closed_port 1 ≡ aborted
unfolding transfer
strict_read = refl

strict_destroy : destroy true closed_port ≡ done tt
unfolding destroy
strict_destroy = refl

abbrev third_port : Port
third_port access = some 3

abbrev no_port : Port
no_port access = none

abbrev session : List Use
session = use_open third_port ∷ use_open third_port ∷ use_close ∷ use_close ∷ use_open no_port ∷ []

client_balance_example :
    (u' : Uart) × (calls : List Call) × (client session closed_port ≡ done (u', calls))
    × (obtained 3 calls ≡ given_back 3 calls + holds 3 u')
client_balance_example = client_balance 3 session closed_port refl

readline-one_byte_example :
    ((readline null_end ((65 ∷ 10 ∷ 66 ∷ []) ∷ (0 ∷ []) ∷ [])).0
      ≡ upto 0 (delivered ((65 ∷ 10 ∷ 66 ∷ []) ∷ (0 ∷ []) ∷ [])))
    × ((readline line_feed ((65 ∷ 10 ∷ 66 ∷ []) ∷ (0 ∷ []) ∷ [])).0
        ≡ upto 10 (delivered ((65 ∷ 10 ∷ 66 ∷ []) ∷ (0 ∷ []) ∷ [])))
readline-one_byte_example = readline-one_byte ((65 ∷ 10 ∷ 66 ∷ []) ∷ (0 ∷ []) ∷ [])
