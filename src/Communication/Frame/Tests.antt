-- ===== src/Communication/Frame/Tests.antt =====
-- Tests of common/include/common/communication/EventFrame.hpp.
use common_lib.Common.{ℕ, ◌≡◌, ◌<◌, ◌↔◌, refl, arith, some, none, List, [], ◌∷◌, length}
use common_lib.Communication.Frame.{data_frame, other, Frame, parse, make}
use common_lib.Communication.Frame.Laws.{parse-make, parse-none_iff}

abbrev event : List ℕ
event = 0x12 ∷ 0x34 ∷ 2 ∷ 7 ∷ 8 ∷ []

make-event : make 0x1234 data_frame (7 ∷ 8 ∷ []) ≡ event
unfolding make
make-event = refl

parse-make_example :
    parse (make 0x1234 data_frame (7 ∷ 8 ∷ []))
    ≡ some (record { topic = 0x1234; type = data_frame; payload = 7 ∷ 8 ∷ [] })
parse-make_example = parse-make 0x1234 data_frame (7 ∷ 8 ∷ []) (omega arith) tt

abbrev strange : Frame
strange = record { topic = 0x1234; type = other 9; payload = [] }

parse-none_iff_example : (parse (1 ∷ 2 ∷ []) ≡ none) ↔ (length {A = ℕ} (1 ∷ 2 ∷ []) < 3)
parse-none_iff_example = parse-none_iff (1 ∷ 2 ∷ [])
