-- ===== src/Asio/Connect/Polite.antt =====
-- A user who waits for the handler of each call of `connect`.
use common_lib.Common.{◌≡◌, Bool, true, false, List, [], ◌∷◌}
use common_lib.Asio.Connect.{
  Completion, Socket, create, Outcome, done, impossible, undefined, Move, connects, destroys, step,
  Event,
}

-- At most one attempt is under way or waits for its handler; `connected` is only set when none is, and
-- on an open socket.
abbrev Fits : List Bool → List Completion → Bool → Bool → Bool → Type 0
Fits [] [] alive is_open connected = connected ≡ true → is_open ≡ true
Fits (a ∷ []) [] alive is_open connected = (connected ≡ false) × (alive ≡ true)
Fits [] (c ∷ []) alive is_open connected = (connected ≡ false) × (alive ≡ true)
Fits _ _ alive is_open connected = ⊥

abbrev pub IsFit : Socket → Type 0
IsFit s = Fits s.attempts s.completions s.alive s.is_open s.connected

-- While an attempt is under way, or its handler is still to be called, the user calls nothing but
-- `disconnect`.
abbrev pub IsPolite : Move → Socket → Type 0
IsPolite (connects resolves has_error) s = (s.attempts ≡ []) × (s.completions ≡ [])
IsPolite destroys s = (s.attempts ≡ []) × (s.completions ≡ [])
IsPolite _ s = Unit

pub data Reached : Socket → Type 0 where
  created : Reached create
  moved : (m : Move) (s s' : Socket) → Reached s → IsPolite m s → step m s ≡ done s' → Reached s'

-- What a step leads to.
abbrev Leads : Outcome → Type 0
Leads (done s) = IsFit s
Leads impossible = Unit
Leads undefined = ⊥

abbrev socket : List Bool → List Completion → Bool → Bool → Bool → List Event → Socket
socket ats cs a o c es = record {
  alive = a;
  is_open = o;
  connected = c;
  attempts = ats;
  completions = cs;
  events = es;
}
