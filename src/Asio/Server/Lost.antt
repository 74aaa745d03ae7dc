-- ===== src/Asio/Server/Lost.antt =====
-- A listener that the broker has let go.
use common_lib.Common.{
  ℕ, ◌≡◌, ◌≢◌, refl, ap, sym, ◌∙◌, subst, arith, Bool, true, false, Option, none, some, List, [],
  ◌∷◌, All, ◌<◌,
}
use common_lib.Asio.Listener
use common_lib.Asio.Server.{
  Server, Outcome, done, impossible, crashed, within, start, stop, Move, runs, stops, moves, step,
  run,
}
use common_lib.Asio.Server.Laws.{put_other, same}

-- The steps that are not those of listener `k`.
abbrev pub IsElse : ℕ → Move → Type 0
IsElse k (moves j m) = j ≢ k
IsElse k _ = Unit

-- Listener `k` is as it was, and the broker has let it go.
abbrev IsLost : ℕ → Listener.Listener → Server → Type 0
IsLost k l s = ((s.table k) ≡ l) × (s.current ≢ some k) × (k < s.count)

abbrev StaysLost : ℕ → Listener.Listener → Outcome → Type 0
StaysLost k l (done s) = IsLost k l s
StaysLost k l impossible = Unit
StaysLost k l crashed = Unit

module _ (k : ℕ) (l : Listener.Listener) where
  start-StaysLost :
      (granted : Bool) (s : Server)
      → (s.table k ≡ l)
      → k < s.count
      → StaysLost k l (start granted s)
  unfolding start Listener.listen Listener.create
  start-StaysLost false s e h = tt
  start-StaysLost true s e h = (
    put_other s.table s.count _ k (λ f. omega (arith, f, h)) ∙ e,
    λ f. older (same s.count k f),
    omega (arith, h),
  )
    where
      older : s.count ≢ k
      older f = omega (arith, f, h)

  stop-StaysLost :
      (c : Option ℕ) (s : Server) → s.current ≡ c → IsLost k l s → IsLost k l (stop c s)
  unfolding stop
  stop-StaysLost none s e h = h
  stop-StaysLost (some j) s e (h, d, n) =
      (put_other s.table j _ k (λ f. d (e ∙ ap some (sym f))) ∙ h, λ f. cc, n)

  within-StaysLost :
      (j : ℕ) (s : Server) (o : Listener.Outcome)
      → j ≢ k
      → IsLost k l s
      → StaysLost k l (within j s o)
  within-StaysLost j s (Listener.done l') d (h, d', n) =
      (put_other s.table j l' k (λ f. d (sym f)) ∙ h, d', n)
  within-StaysLost j s Listener.impossible d h = tt
  within-StaysLost j s Listener.crashed d h = tt

  step-StaysLost : (m : Move) (s : Server) → IsElse k m → IsLost k l s → StaysLost k l (step m s)
  unfolding step
  step-StaysLost (runs granted) s i h = start-StaysLost granted s h.0 h.2
  step-StaysLost stops s i h = stop-StaysLost s.current s refl h
  step-StaysLost (moves j m) s i h = within-StaysLost j s (Listener.step m (s.table j)) i h

  run-StaysLost :
      (ms : List Move) (s : Server) → All (IsElse k) ms → IsLost k l s → StaysLost k l (run ms s)
  unfolding run
  run-StaysLost [] s i h = h
  run-StaysLost (m ∷ ms) s (i, is) h =
      after (step m s) (step-StaysLost m s i h) (λ s'. run-StaysLost ms s' is)
    where
      after :
          (o : Outcome)
          → StaysLost k l o
          → ((s' : Server) → IsLost k l s' → StaysLost k l (run ms s'))
          → StaysLost k l
              (elim o [ done s' ↦ run ms s' | impossible ↦ impossible | crashed ↦ crashed ])
      after (done s') h' g = g s' h'
      after impossible h' g = tt
      after crashed h' g = tt

  rest-StaysLost :
      (ms : List Move) (o : Outcome)
      → All (IsElse k) ms
      → StaysLost k l o
      → StaysLost k l (elim o [ done s' ↦ run ms s' | impossible ↦ impossible | crashed ↦ crashed ])
  rest-StaysLost ms (done s) is h = run-StaysLost ms s is h
  rest-StaysLost ms impossible is h = tt
  rest-StaysLost ms crashed is h = tt

-- Let the broker have made a listener, and `run` be called after that. Whatever is called then, and
-- whatever asio and the loops of other listeners do: the listener is not the one of the broker, and is
-- as it was before the call.
pub run-lost :
    (k : ℕ) (granted : Bool) (ms : List Move) (s s' : Server)
    → k < s.count
    → All (IsElse k) ms
    → run (runs granted ∷ ms) s ≡ done s'
    → (s'.table k ≡ s.table k) × (s'.current ≢ some k)
unfolding run step
run-lost k granted ms s s' n is e =
    let (same_as, d, older) : IsLost k (s.table k) s' = subst (StaysLost k (s.table k)) e (
      rest-StaysLost k (s.table k) ms (start granted s) is
        (start-StaysLost k (s.table k) granted s refl n)) in
    (same_as, d)
