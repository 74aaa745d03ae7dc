-- ===== src/Asio/Udp/Steps.antt =====
-- What a step of a UDP socket does to the datagrams.
use common_lib.Common.{
  ℕ, zero, suc, ◌+◌, ◌≤◌, ◌≡◌, refl, ap, sym, ◌∙◌, arith, Bool, Bool-cases, inl, inr, List, [], ◌∷◌,
  ◌++◌, map, append_assoc, append-nil, length, take, drop, replicate, if◌then◌else◌, take-append,
  length-append, length-replicate, length-replicate,
}
use common_lib.Asio.Udp.{
  Completion, received, failed, aborted, Event, on_receive, on_error, Udp, Outcome, done,
  impossible, crashed, open_socket, close, destroy, receive, arrive, fail, report, handle,
  handle_first, call, Move, opens, closes, destroys, receives, handles, arrives, fails, step,
}

-- A datagram and its sender.
abbrev pub Datagram : Type 0
Datagram = List ℕ × ℕ

-- The datagrams that arrive, in order.
abbrev pub arrivals_of : Move → List Datagram
arrivals_of (arrives datagram sender) = (datagram, sender) ∷ []
arrivals_of _ = []

abbrev pub arrivals : List Move → List Datagram
arrivals [] = []
arrivals (m ∷ ms) = arrivals_of m ++ arrivals ms

-- How often `receive` is called.
abbrev pub calls_of : Move → ℕ
calls_of receives = 1
calls_of _ = 0

abbrev pub calls : List Move → ℕ
calls [] = 0
calls (m ∷ ms) = calls_of m + calls ms

-- The datagrams that the handler was called with.
abbrev pub delivered : List Event → List Datagram
delivered [] = []
delivered (on_receive bytes sender ∷ es) = (bytes, sender) ∷ delivered es
delivered (on_error error ∷ es) = delivered es

-- The datagrams in the buffer whose handlers are still to be called.
abbrev waiting_in : List ℕ → ℕ → List Completion → List Datagram
waiting_in buffer sender [] = []
waiting_in buffer sender (received bytes ∷ cs) =
    (take bytes buffer, sender) ∷ waiting_in buffer sender cs
waiting_in buffer sender (failed error ∷ cs) = waiting_in buffer sender cs
waiting_in buffer sender (aborted ∷ cs) = waiting_in buffer sender cs

abbrev pub waiting : Udp → List Datagram
waiting u = waiting_in u.buffer u.sender u.completions

abbrev pub cut : ℕ → Datagram → Datagram
cut n (bytes, sender) = (take n bytes, sender)

abbrev pub so_far : Udp → List Datagram
so_far u = delivered u.log ++ waiting u

-- The receives that asio or the socket still has to deal with.
abbrev pub tasks : Udp → ℕ
tasks u = u.started + length u.completions

delivered-append : (es fs : List Event) → delivered (es ++ fs) ≡ delivered es ++ delivered fs
delivered-append [] fs = refl
delivered-append (on_receive bytes sender ∷ es) fs =
    ap (λ ds. (bytes, sender) ∷ ds) (delivered-append es fs)
delivered-append (on_error error ∷ es) fs = delivered-append es fs

waiting-aborted :
    (buffer : List ℕ) (sender : ℕ) (cs : List Completion) (n : ℕ)
    → waiting_in buffer sender (cs ++ replicate n aborted) ≡ waiting_in buffer sender cs
waiting-aborted buffer sender [] zero = refl
waiting-aborted buffer sender [] (suc n) = waiting-aborted buffer sender [] n
waiting-aborted buffer sender (received bytes ∷ cs) n =
    ap (λ ds. (take bytes buffer, sender) ∷ ds) (waiting-aborted buffer sender cs n)
waiting-aborted buffer sender (failed error ∷ cs) n = waiting-aborted buffer sender cs n
waiting-aborted buffer sender (aborted ∷ cs) n = waiting-aborted buffer sender cs n

length_none : {A : Type 0} (xs : List A) → length xs ≤ 0 → xs ≡ []
length_none [] h = refl
length_none (x ∷ xs) h = absurd (omega arith)

length-written :
    (datagram buffer : List ℕ)
    → length (take (length buffer) datagram ++ drop (length (take (length buffer) datagram)) buffer)
      ≡ length buffer
length-written [] [] = refl
length-written [] (b ∷ bs) = refl
length-written (x ∷ xs) [] = refl
length-written (x ∷ xs) (b ∷ bs) = ap suc (length-written xs bs)

-- What a step does, if it can be taken: the buffer keeps its size, and a datagram waits for its
-- handler or has been delivered.
abbrev pub Goes : Udp → ℕ → List Datagram → Outcome → Type 0
Goes u n ds (done u') =
    (length u'.buffer ≡ length u.buffer)
    × (tasks u' ≤ tasks u + n)
    × (so_far u' ≡ so_far u ++ map (cut (length u.buffer)) ds)
Goes u n ds impossible = Unit
Goes u n ds crashed = Unit

module _ (u : Udp) where
  stays : (n : ℕ) → Goes u n [] (done u)
  stays n = (refl, omega arith, sym (append-nil (so_far u)))

  call-Goes : (n : ℕ) (o : Outcome) → Goes u n [] o → Goes u n [] (call u.alive o)
  unfolding call
  call-Goes n o h = elim (Bool-cases u.alive) [ inl e ↦ rw e h | inr e ↦ rw e tt ]

  open_socket-Goes : (accepted : Bool) → Goes u 0 [] (open_socket accepted u)
  unfolding open_socket
  open_socket-Goes accepted = elim (Bool-cases u.is_open) [
    | inl e ↦ rw e tt
    | inr e ↦ rw e (elim (Bool-cases accepted) [ inl f ↦ rw f (stays 0) | inr f ↦ rw f tt ])
  ]

  closed-Goes : Goes u 0 [] (done (close u))
  unfolding close
  closed-Goes = elim (Bool-cases u.is_open) [
    | inr e ↦ rw e (stays 0)
    | inl e ↦ rw e (
      refl,
      omega (
        arith,
        length-append u.completions (replicate u.started aborted),
        length-replicate u.started aborted,
      ),
      ap (λ ds. delivered u.log ++ ds) (waiting-aborted u.buffer u.sender u.completions u.started)
          ∙ sym (append-nil (so_far u)),
    )
  ]

  receive-Goes : Goes u 1 [] (done (receive u))
  unfolding receive
  receive-Goes = (refl, omega arith, sym (append-nil (so_far u)))

  arrive-Goes :
      (n : ℕ) (datagram : List ℕ) (sender : ℕ)
      → u.started ≡ n
      → tasks u ≤ 1
      → Goes u 0 ((datagram, sender) ∷ []) (arrive n datagram sender u)
  unfolding arrive
  arrive-Goes zero datagram sender e one = tt
  arrive-Goes (suc n) datagram sender e one = elim (Bool-cases u.is_open) [
    | inr f ↦ rw f tt
    | inl f ↦ rw f (
      length-written datagram u.buffer,
      omega (arith, length-append u.completions (received (length kept) ∷ []), e),
      ap (λ cs. delivered u.log ++ waiting_in written sender (cs ++ received (length kept) ∷ []))
            none_left
          ∙ ap (λ bytes. delivered u.log ++ (bytes, sender) ∷ [])
              (take-append kept (drop (length kept) u.buffer))
          ∙ ap (λ es. es ++ (kept, sender) ∷ []) (sym (append-nil (delivered u.log)))
          ∙ ap (λ cs. (delivered u.log ++ waiting_in u.buffer u.sender cs) ++ (kept, sender) ∷ [])
              (sym none_left),
    )
  ]
    where
      kept : List ℕ
      kept = take (length u.buffer) datagram

      written : List ℕ
      written = kept ++ drop (length kept) u.buffer

      none_left : u.completions ≡ []
      none_left = length_none u.completions (omega (arith, one, e))

  fail-Goes : (n error : ℕ) → u.started ≡ n → tasks u ≤ 1 → Goes u 0 [] (fail n error u)
  unfolding fail
  fail-Goes zero error e one = tt
  fail-Goes (suc n) error e one = (
    refl,
    omega (arith, length-append u.completions (failed error ∷ []), e),
    ap (λ cs. delivered u.log ++ waiting_in u.buffer u.sender (cs ++ failed error ∷ [])) none_left
        ∙ ap (λ cs. delivered u.log ++ waiting_in u.buffer u.sender cs) (sym none_left)
        ∙ sym (append-nil (so_far u)),
  )
    where
      none_left : u.completions ≡ []
      none_left = length_none u.completions (omega (arith, one, e))

  report-delivered :
      (error : ℕ)
      → delivered (if u.reports then u.log ++ on_error error ∷ [] else u.log) ≡ delivered u.log
  report-delivered error = elim (Bool-cases u.reports) [
    | inl e ↦ rw e (delivered-append u.log (on_error error ∷ []) ∙ append-nil (delivered u.log))
    | inr e ↦ rw e refl
  ]

  handle_first-Goes : (cs : List Completion) → u.completions ≡ cs → Goes u 0 [] (handle_first cs u)
  unfolding handle_first handle receive report
  handle_first-Goes [] e = tt
  handle_first-Goes (received bytes ∷ cs) e = elim (Bool-cases u.alive) [
    | inr f ↦ rw f tt
    | inl f ↦ rw f (
      refl,
      omega (arith, ap length e),
      ap (λ es. es ++ waiting_in u.buffer u.sender cs)
            (delivered-append u.log (on_receive (take bytes u.buffer) u.sender ∷ []))
          ∙ append_assoc (delivered u.log) ((take bytes u.buffer, u.sender) ∷ [])
              (waiting_in u.buffer u.sender cs)
          ∙ ap (λ xs. delivered u.log ++ waiting_in u.buffer u.sender xs) (sym e)
          ∙ sym (append-nil (so_far u)),
    )
  ]
  handle_first-Goes (aborted ∷ cs) e = (
    refl,
    omega (arith, ap length e),
    ap (λ xs. delivered u.log ++ waiting_in u.buffer u.sender xs) (sym e)
        ∙ sym (append-nil (so_far u)),
  )
  handle_first-Goes (failed error ∷ cs) e = elim (Bool-cases u.alive) [
    | inr f ↦ rw f tt
    | inl f ↦ rw f (
      refl,
      omega (arith, ap length e),
      ap (λ es. es ++ waiting_in u.buffer u.sender cs) (report-delivered error)
          ∙ ap (λ xs. delivered u.log ++ waiting_in u.buffer u.sender xs) (sym e)
          ∙ sym (append-nil (so_far u)),
    )
  ]

  pub step-Goes :
      (m : Move) → tasks u + calls_of m ≤ 1 → Goes u (calls_of m) (arrivals_of m) (step m u)
  unfolding step
  step-Goes (opens accepted) one = call-Goes 0 _ (open_socket-Goes accepted)
  step-Goes closes one = call-Goes 0 _ closed-Goes
  step-Goes destroys one = call-Goes 0 _ (unfold destroy in closed-Goes)
  step-Goes receives one = call-Goes 1 _ receive-Goes
  step-Goes handles one = handle_first-Goes u.completions refl
  step-Goes (arrives datagram sender) one =
      arrive-Goes u.started datagram sender refl (omega (arith, one))
  step-Goes (fails error) one = fail-Goes u.started error refl (omega (arith, one))
