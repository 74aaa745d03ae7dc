-- ===== src/Communication/Event/Lost.antt =====
-- A publisher that registers again too early.
use common_lib.Common.{
  ℕ, zero, suc, ◌-◌, ◌<◌, ◌≡◌, refl, sym, subst, arith, true, false, some, none, List, [], ◌∷◌,
  ◌++◌,
}
use common_lib.Asio.Transport
use common_lib.Asio.Transport.{
  Task, disconnects, resting, Transport, Effect, closes, Outcome, done, crashed, later, strand_goes,
  disconnect, perform, begin, begin_first, close_socket,
}
use common_lib.Communication.Event.{
  Codec, Call, regist, unregist, registers, unregisters, asio, step, run,
}

-- A connected publisher with nothing on its strand, which is at rest.
abbrev pub ready : Transport → ℕ → Transport
ready t s = record t { socket = some s; connected = true; strand = []; doing = resting }

pub is_ready :
    (t : Transport) (s : ℕ)
    → t.connected ≡ true
    → t.socket ≡ some s
    → t.strand ≡ []
    → t.doing ≡ resting
    → ready t s ≡ t
is_ready t s e f g h =
    λ i. record t { socket = sym f i; connected = sym e i; strand = sym g i; doing = sym h i }

-- So many steps of the strand.
abbrev pub strand_steps : {A : Type 0} → ℕ → List (Call A)
strand_steps zero = []
strand_steps (suc n) = asio strand_goes ∷ strand_steps n

lost_when_ready :
    {A : Type 0} (c : Codec A) (t : Transport) (s k : ℕ)
    → k < 4
    → run c (unregisters ∷ (strand_steps k ++ registers ∷ strand_steps (4 - k))) (ready t s)
      ≡ done (record (ready t s) { socket = none; connected = false }) (closes s ∷ [])
unfolding run step regist unregist disconnect Transport.step perform begin begin_first close_socket
    later
lost_when_ready c t s zero h = refl
lost_when_ready c t s (suc zero) h = refl
lost_when_ready c t s (suc (suc zero)) h = refl
lost_when_ready c t s (suc (suc (suc zero))) h = refl
lost_when_ready c t s (suc (suc (suc (suc k)))) h = absurd (omega (arith, h))

-- If a connected publisher, whose strand is empty and at rest, unregisters, and registers again before the
-- last of the four steps in which the strand disconnects it, then the registration does nothing, and
-- the publisher ends up with no socket and not connected.
pub regist-lost :
    {A : Type 0} (c : Codec A) (t : Transport) (s k : ℕ)
    → t.connected ≡ true
    → t.socket ≡ some s
    → t.strand ≡ []
    → t.doing ≡ resting
    → k < 4
    → run c (unregisters ∷ (strand_steps k ++ registers ∷ strand_steps (4 - k))) t
      ≡ done (record t { socket = none; connected = false }) (closes s ∷ [])
regist-lost c t s k e f g h few =
    subst
      (λ t'.
        run c (unregisters ∷ (strand_steps k ++ registers ∷ strand_steps (4 - k))) t'
        ≡ done (record t' { socket = none; connected = false }) (closes s ∷ []))
      (is_ready t s e f g h) (lost_when_ready c t s k few)
