-- ===== src/Communication/Socket/Laws.antt =====
-- Which descriptors a `DetailSocket` closes.
use common_lib.Common.{
  ℕ, ◌+◌, ◌*◌, ◌%◌, ◌^◌, ◌≡◌, inl, inr, refl, ap, ◌∙◌, arith, Bool, true, false, none, some, List,
  [], ◌∷◌, ◌++◌, ltb, ◌==◌, Bool-cases,
}
use common_lib.Communication.Socket.{
  Descriptor, Socket, System, Call, made, accepted, closed, returns, throws, undefined, Done,
  create, close, give_up, is_zero, prepare, take_conn, open_server, open_client, SocketType, server,
  client, open_socket, read_size, read, forget_size, read_ready, read_timed, send, Use, prepares,
  opens, reads_some, waits_for, sends_some, closes, effect, use_socket, session,
}

abbrev pub is_fd : ℕ → Descriptor → Bool
is_fd d none = false
is_fd d (some fd) = fd == d

abbrev pub once : Bool → ℕ
once true = 1
once false = 0

-- How often socket() made this descriptor, and how often it was closed.
abbrev pub times_made : ℕ → List Call → ℕ
times_made d [] = 0
times_made d (made fd ∷ calls) = once (is_fd d fd) + times_made d calls
times_made d (_ ∷ calls) = times_made d calls

abbrev pub times_closed : ℕ → List Call → ℕ
times_closed d [] = 0
times_closed d (closed fd ∷ calls) = once (is_fd d fd) + times_closed d calls
times_closed d (_ ∷ calls) = times_closed d calls

times_made-append :
    (d : ℕ) (xs ys : List Call) → times_made d (xs ++ ys) ≡ times_made d xs + times_made d ys
times_made-append d [] ys = omega arith
times_made-append d (made fd ∷ xs) ys = omega (arith, times_made-append d xs ys)
times_made-append d (accepted fd ∷ xs) ys = times_made-append d xs ys
times_made-append d (closed fd ∷ xs) ys = times_made-append d xs ys

times_closed-append :
    (d : ℕ) (xs ys : List Call) → times_closed d (xs ++ ys) ≡ times_closed d xs + times_closed d ys
times_closed-append d [] ys = omega arith
times_closed-append d (made fd ∷ xs) ys = times_closed-append d xs ys
times_closed-append d (accepted fd ∷ xs) ys = times_closed-append d xs ys
times_closed-append d (closed fd ∷ xs) ys = omega (arith, times_closed-append d xs ys)

-- Unless these calls make the descriptor, it is neither held afterwards nor closed.
abbrev Spares : ℕ → Socket × List Call → Type 0
Spares d r = times_made d r.1 ≡ 0 → (is_fd d r.0.fd ≡ false) × (times_closed d r.1 ≡ 0)

module _ (d : ℕ) (s : Socket) (other : is_fd d s.fd ≡ false) where
  give_up-Spares : (s' : Socket) → s'.fd ≡ s.fd → Spares d (effect (give_up [] s'))
  unfolding give_up close
  give_up-Spares s' e z = (ap (is_fd d) e ∙ other, rw e (rw other refl))

  take_conn-Spares : (fd : Descriptor) → Spares d (effect (take_conn fd s))
  unfolding take_conn give_up close
  take_conn-Spares none z = (other, rw other refl)
  take_conn-Spares (some fd) z = (other, refl)

  open_server-Spares : (sys : System) → Spares d (effect (open_server sys s))
  unfolding open_server
  open_server-Spares sys = elim (Bool-cases sys.sets_options) [
    | inr a ↦ rw a (give_up-Spares s refl)
    | inl a ↦ rw a (elim (Bool-cases sys.binds) [
      | inr b ↦ rw b (give_up-Spares s refl)
      | inl b ↦ rw b (elim (Bool-cases sys.listens) [
        | inr c ↦ rw c (give_up-Spares s refl)
        | inl c ↦ rw c (take_conn-Spares sys.accepts)
      ])
    ])
  ]

  open_client-Spares : (sys : System) → Spares d (effect (open_client sys s))
  unfolding open_client
  open_client-Spares sys = elim (Bool-cases (sys.reads_address s.address)) [
    | inr a ↦ rw a (λ z. (other, refl))
    | inl a ↦ rw a (elim (Bool-cases (sys.connects s.address (s.port % 2 ^ 16))) [
      | inr b ↦ rw b (give_up-Spares s refl)
      | inl b ↦ rw b (λ z. (other, refl))
    ])
  ]

  prepare-Spares :
      (sys : System) (address : List ℕ) (port : ℕ) → Spares d (effect (prepare sys address port s))
  unfolding prepare give_up close
  prepare-Spares sys address port = elim (Bool-cases (is_zero sys.makes)) [
    | inr a ↦ rw a (λ z. (unmade sys.makes z, refl))
    | inl a ↦ rw a (λ z. (unmade sys.makes z, rw (unmade sys.makes z) refl))
  ]
    where
      unmade : (fd : Descriptor) → once (is_fd d fd) + 0 ≡ 0 → is_fd d fd ≡ false
      unmade fd z = elim (Bool-cases (is_fd d fd)) [
        | inr b ↦ b
        | inl b ↦ absurd (omega (arith, ap once b, z))
      ]

  read-Spares : (sys : System) → Spares d (effect (read sys s))
  unfolding read
  read-Spares sys = elim (Bool-cases (read_size sys.reads == 0)) [
    | inl a ↦ rw a (λ z. (other, refl))
    | inr a ↦ rw a (λ z. (other, refl))
  ]

  forget_size-Spares : (r : Done ℕ) → Spares d (effect r) → Spares d (effect (forget_size r))
  unfolding forget_size
  forget_size-Spares (s', returns size, calls) h = h
  forget_size-Spares (s', throws, calls) h = h
  forget_size-Spares (s', undefined, calls) h = h

  read_ready-Spares :
      (sys : System) (ms : ℕ) (fd : Descriptor) → Spares d (effect (read_ready sys ms fd s))
  unfolding read_ready
  read_ready-Spares sys ms none = λ z. (other, refl)
  read_ready-Spares sys ms (some fd) = elim (Bool-cases (ltb fd 1024)) [
    | inr a ↦ rw a (λ z. (other, refl))
    | inl a ↦ rw a (elim (Bool-cases (sys.waits fd (ms * 1000 % 2 ^ 32))) [
      | inr b ↦ rw b (λ z. (other, refl))
      | inl b ↦ rw b (forget_size-Spares (read sys s) (read-Spares sys))
    ])
  ]

  send-Spares : (sys : System) → Spares d (effect (send sys s))
  unfolding send
  send-Spares sys = elim (Bool-cases sys.sends) [
    | inl a ↦ rw a (λ z. (other, refl))
    | inr a ↦ rw a (λ z. (other, refl))
  ]

  use_socket-Spares : (t : SocketType) (u : Use) → Spares d (use_socket t u s)
  unfolding use_socket open_socket read_timed close
  use_socket-Spares t (prepares sys address port) = prepare-Spares sys address port
  use_socket-Spares server (opens sys) = open_server-Spares sys
  use_socket-Spares client (opens sys) = open_client-Spares sys
  use_socket-Spares t (reads_some sys) = read-Spares sys
  use_socket-Spares t (waits_for sys ms) = read_ready-Spares sys ms s.conn
  use_socket-Spares t (sends_some sys) = send-Spares sys
  use_socket-Spares t closes = λ z. (other, rw other refl)

session-Spares :
    (t : SocketType) (us : List Use) (d : ℕ) (s : Socket)
    → is_fd d s.fd ≡ false
    → Spares d (session t us s)
unfolding session
session-Spares t [] d s other z = (other, refl)
session-Spares t (u ∷ us) d s other z =
    let calls : List Call = (use_socket t u s).1 in
    let later : List Call = (session t us (use_socket t u s).0).1 in
    let (now, none_now) =
      use_socket-Spares d s other t u (omega (arith, z, times_made-append d calls later)) in
    let (next, none_next) =
      session-Spares t us d (use_socket t u s).0 now
        (omega (arith, z, times_made-append d calls later)) in
    (next, omega (arith, none_now, none_next, times_closed-append d calls later))

-- Whatever a user does with a new server or client, and whatever the system answers, a descriptor
-- that socket() did not make is not closed: the connection that accept gives to a server is never
-- closed, unless it has the number of a descriptor that socket() made.
pub session-closes :
    (t : SocketType) (us : List Use) (d : ℕ)
    → times_made d (session t us create).1 ≡ 0
    → times_closed d (session t us create).1 ≡ 0
unfolding create
session-closes t us d z = (session-Spares t us d create refl z).1
