-- ===== src/Asio/Server/Laws.antt =====
-- Which listeners of a broker are open.
use common_lib.Common.{
  ℕ, ◌≡◌, ◌≢◌, inl, inr, refl, ap, sym, ◌∙◌, subst, arith, Bool, true, false, Bool-cases, Option,
  none, some, ◌==◌, ==_iff, ==_refl,
}
use common_lib.Asio.Listener
use common_lib.Asio.Listener.Laws.{IsInternal, Falls, step-Falls, stop-le}
use common_lib.Asio.Server.{
  Server, create, Outcome, done, impossible, crashed, put, within, start, stop, Move, runs, stops,
  moves, step,
}

-- `run` only while the broker has no listener.
abbrev pub IsPolite : Move → Server → Type 0
IsPolite (runs granted) s = s.current ≡ none
IsPolite (moves k m) s = IsInternal m
IsPolite stops s = Unit

pub data Reached : Server → Type 0 where
  created : Reached create
  moved : (m : Move) (s s' : Server) → Reached s → IsPolite m s → step m s ≡ done s' → Reached s'

-- Every listener but the current one is closed.
abbrev IsTidy : Server → Type 0
IsTidy s = (k : ℕ) → (s.current ≢ some k) → (s.table k).is_open ≡ false

abbrev Leads : Outcome → Type 0
Leads (done s) = IsTidy s
Leads impossible = Unit
Leads crashed = Unit

put_self : (f : ℕ → Listener.Listener) (k : ℕ) (l : Listener.Listener) → put f k l k ≡ l
put_self f k l = rw (==_refl k) refl

pub put_other :
    (f : ℕ → Listener.Listener) (k : ℕ) (l : Listener.Listener) (j : ℕ) → j ≢ k → put f k l j ≡ f j
put_other f k l j d = rw (differs d) refl
  where
    differs : j ≢ k → (j == k) ≡ false
    differs d = ground arith

-- A closed listener in the place of another leaves the rest as they are.
put-closed :
    (f : ℕ → Listener.Listener) (k : ℕ) (l : Listener.Listener) (j : ℕ)
    → (j ≡ k → l.is_open ≡ false)
    → (j ≢ k → (f j).is_open ≡ false)
    → (put f k l j).is_open ≡ false
put-closed f k l j h h' = elim (Bool-cases (j == k)) [
  | inl e ↦ rw e (h ((==_iff j k).0 e))
  | inr e ↦ rw e (h' (apart e))
]
  where
    apart : (j == k) ≡ false → j ≢ k
    apart e = ground arith

pub same : (k j : ℕ) → ◌≡◌ {A = Option ℕ} (some k) (some j) → k ≡ j
same k j e = cc

start-Leads : (granted : Bool) (s : Server) → s.current ≡ none → IsTidy s → Leads (start granted s)
unfolding start Listener.listen Listener.create
start-Leads false s e tidy = tt
start-Leads true s e tidy = λ j d.
    put-closed s.table s.count _ j (λ f. absurd (d (ap some (sym f))))
      (λ f. tidy j (λ g. nothing j (sym e ∙ g)))
  where
    nothing : (j : ℕ) → none ≢ some j
    nothing j g = cc

stop-Leads : (c : Option ℕ) (s : Server) → s.current ≡ c → IsTidy s → IsTidy (stop c s)
unfolding stop
stop-Leads none s e tidy = tidy
stop-Leads (some k) s e tidy = λ j d.
    put-closed s.table k _ j (λ f. (stop-le (s.table k)).0)
      (λ f. tidy j (λ g. f (sym (same k j (sym e ∙ g)))))

within-Leads :
    (k : ℕ) (s : Server) (o : Listener.Outcome)
    → IsTidy s
    → (s.current ≢ some k → Falls (s.table k) o)
    → Leads (within k s o)
within-Leads k s (Listener.done l) tidy h =
    λ j d. put-closed s.table k l j (λ f. (h (λ g. d (g ∙ ap some (sym f)))).0) (λ f. tidy j d)
within-Leads k s Listener.impossible tidy h = tt
within-Leads k s Listener.crashed tidy h = tt

step-Leads : (m : Move) (s : Server) → IsPolite m s → IsTidy s → Leads (step m s)
unfolding step
step-Leads (runs granted) s p tidy = start-Leads granted s p tidy
step-Leads stops s p tidy = stop-Leads s.current s refl tidy
step-Leads (moves k m) s p tidy =
    within-Leads k s (Listener.step m (s.table k)) tidy (λ d. step-Falls (s.table k) (tidy k d) m p)

-- For a user who calls `run` only while the broker has no listener, and whatever asio does: every
-- listener but the current one is closed.
pub Reached-IsTidy :
    (s : Server) → Reached s → (k : ℕ) → s.current ≢ some k → (s.table k).is_open ≡ false
unfolding create Listener.create
Reached-IsTidy _ created = λ k d. refl
Reached-IsTidy _ (moved m s s' r p e) = subst Leads e (step-Leads m s p (Reached-IsTidy s r))
