-- ===== src/Asio/Udp/Loop.antt =====
-- A receive loop that does not end.
use common_lib.Common.{
  ℕ, ◌≡◌, refl, ap, sym, ◌∙◌, subst, true, false, List, [], ◌∷◌, ◌++◌, append_assoc, append-nil,
  take, map,
}
use common_lib.Asio.Udp.{
  received, Event, on_receive, on_error, Udp, done, close, receive, fail, report, handle,
  handle_first, call, Move, closes, handles, fails, step, run,
}

-- asio fails a receive on the closed socket with each of these errors, and calls the handler.
abbrev pub fails_on : List ℕ → List Move
fails_on [] = []
fails_on (error ∷ errors) = fails error ∷ handles ∷ fails_on errors

-- A socket with an error handler, that is open, and where a datagram of so many bytes waits for its
-- handler.
abbrev waiting : Udp → ℕ → Udp
waiting u bytes = record u {
  is_open = true;
  alive = true;
  reports = true;
  started = 0;
  completions = received bytes ∷ [];
}

-- The socket is closed, and a receive is started on it.
abbrev looping : Udp → List Event → Udp
looping u log = record u {
  is_open = false;
  alive = true;
  reports = true;
  started = 1;
  completions = [];
  log = log;
}

fails_on-run :
    (u : Udp) (errors : List ℕ) (log : List Event)
    → run (fails_on errors) (looping u log) ≡ done (looping u (log ++ map on_error errors))
unfolding run step fail handle_first handle receive report
fails_on-run u [] log = ap (λ l. done (looping u l)) (sym (append-nil log))
fails_on-run u (error ∷ errors) log =
    fails_on-run u errors (log ++ on_error error ∷ [])
    ∙ ap (λ l. done (looping u l)) (append_assoc log (on_error error ∷ []) (map on_error errors))

waiting-run :
    (u : Udp) (bytes : ℕ) (errors : List ℕ)
    → run (closes ∷ handles ∷ fails_on errors) (waiting u bytes)
      ≡ done (looping u (u.log ++ on_receive (take bytes u.buffer) u.sender ∷ map on_error errors))
unfolding run step call close handle_first handle receive
waiting-run u bytes errors =
    fails_on-run u errors (u.log ++ on_receive (take bytes u.buffer) u.sender ∷ [])
    ∙ ap (λ l. done (looping u l))
        (append_assoc u.log (on_receive (take bytes u.buffer) u.sender ∷ []) (map on_error errors))

-- Let a socket with an error handler be open, with no receive under way, and a datagram waiting for its
-- handler, whatever came before. If the user closes the socket now, then the loop goes on: the handler
-- starts another receive, on the closed socket, and each time that asio fails one, with any errors but
-- `operation_aborted`, the user is told, and one more is started.
pub run-never_ends :
    (u : Udp) (bytes : ℕ) (errors : List ℕ)
    → u.alive ≡ true
    → u.is_open ≡ true
    → u.reports ≡ true
    → u.started ≡ 0
    → u.completions ≡ received bytes ∷ []
    → (u' : Udp) × (run (closes ∷ handles ∷ fails_on errors) u ≡ done u')
      × (u'.log ≡ u.log ++ on_receive (take bytes u.buffer) u.sender ∷ map on_error errors)
      × (u'.is_open ≡ false)
      × (u'.started ≡ 1)
run-never_ends u bytes errors a o r s c = (
  _,
  subst (λ x. run (closes ∷ handles ∷ fails_on errors) x ≡ done (looping u told)) same
      (waiting-run u bytes errors),
  refl,
  refl,
  refl,
)
  where
    told : List Event
    told = u.log ++ on_receive (take bytes u.buffer) u.sender ∷ map on_error errors

    same : waiting u bytes ≡ u
    same = λ i. record u {
      is_open = sym o i;
      alive = sym a i;
      reports = sym r i;
      started = sym s i;
      completions = sym c i;
    }
