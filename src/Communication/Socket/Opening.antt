-- ===== src/Communication/Socket/Opening.antt =====
-- How the members of a `DetailSocket` end, and what they close.
use common_lib.Common.{
  ℕ, ◌*◌, ◌%◌, ◌^◌, ◌≡◌, ◌⊎◌, inl, inr, refl, ap, ap₂, ◌∙◌, Bool, true, false, ◌&&◌, none, some,
  List, [], ◌∷◌, ◌++◌, if◌then◌else◌, ltb, Bool-cases,
}
use common_lib.Communication.Socket.{
  Descriptor, Socket, System, Call, made, accepted, closed, returns, throws, undefined, Done, close,
  give_up, take_conn, open_server, open_client, SocketType, server, client, open_socket, read,
  forget_size, read_ready, read_timed, destroy,
}

-- The descriptors closed, in order.
abbrev pub closings : List Call → List Descriptor
closings [] = []
closings (closed fd ∷ calls) = fd ∷ closings calls
closings (_ ∷ calls) = closings calls

abbrev pub is_some : Descriptor → Bool
is_some none = false
is_some (some fd) = true

-- All calls of `open` succeed.
abbrev pub succeeds : SocketType → System → Socket → Bool
succeeds server sys s = sys.sets_options && sys.binds && sys.listens && is_some sys.accepts
succeeds client sys s = sys.reads_address s.address && sys.connects s.address (s.port % 2 ^ 16)

-- What `open` talks to.
abbrev pub peer : SocketType → System → Socket → Descriptor
peer server sys s = sys.accepts
peer client sys s = s.fd

-- What `open` closes when a call fails: nothing if the address of a client is not one.
abbrev pub closes_failed : SocketType → System → Socket → List Descriptor
closes_failed server sys s = s.fd ∷ []
closes_failed client sys s = if sys.reads_address s.address then s.fd ∷ [] else []

-- How `open` ends.
abbrev pub IsOpened : SocketType → System → Socket → Done Unit → Type 0
IsOpened t sys s r =
    (r.0.fd ≡ s.fd)
    × (((succeeds t sys s ≡ true)
          × (r.1 ≡ returns tt)
          × (r.0.conn ≡ peer t sys s)
          × (closings r.2 ≡ []))
        ⊎ ((succeeds t sys s ≡ false) × (r.1 ≡ throws) × (closings r.2 ≡ closes_failed t sys s)))

take_conn_lem :
    (fd : Descriptor) (s : Socket)
    → ((take_conn fd s).0.fd ≡ s.fd)
      × (((is_some fd ≡ true)
            × ((take_conn fd s).1 ≡ returns tt)
            × ((take_conn fd s).0.conn ≡ fd)
            × (closings (take_conn fd s).2 ≡ []))
          ⊎ ((is_some fd ≡ false)
              × ((take_conn fd s).1 ≡ throws)
              × (closings (take_conn fd s).2 ≡ s.fd ∷ [])))
unfolding take_conn give_up close
take_conn_lem none s = (refl, inr (refl, refl, refl))
take_conn_lem (some fd) s = (refl, inl (refl, refl, refl, refl))

-- `open` of a server or a client returns if all its calls succeed; then it talks to the connection
-- that accept gave, or to the client's own descriptor, and has closed nothing. Otherwise it throws,
-- and has closed the descriptor of the socket, but for a client whose address is not one. In both
-- cases the socket keeps its descriptor.
pub open_socket_lem :
    (t : SocketType) (sys : System) (s : Socket) → IsOpened t sys s (open_socket t sys s)
unfolding open_socket open_server open_client give_up close
open_socket_lem server sys s = elim (Bool-cases sys.sets_options) [
  | inr a ↦ rw a (refl, inr (refl, refl, refl))
  | inl a ↦ rw a (elim (Bool-cases sys.binds) [
    | inr b ↦ rw b (refl, inr (refl, refl, refl))
    | inl b ↦ rw b (elim (Bool-cases sys.listens) [
      | inr c ↦ rw c (refl, inr (refl, refl, refl))
      | inl c ↦ rw c (take_conn_lem sys.accepts s)
    ])
  ])
]
open_socket_lem client sys s = elim (Bool-cases (sys.reads_address s.address)) [
  | inr a ↦ rw a (refl, inr (refl, refl, refl))
  | inl a ↦ rw a (elim (Bool-cases (sys.connects s.address (s.port % 2 ^ 16))) [
    | inr b ↦ rw b (refl, inr (refl, refl, refl))
    | inl b ↦ rw b (refl, inl (refl, refl, refl, refl))
  ])
]

closings-append : (xs ys : List Call) → closings (xs ++ ys) ≡ closings xs ++ closings ys
closings-append [] ys = refl
closings-append (made fd ∷ xs) ys = closings-append xs ys
closings-append (accepted fd ∷ xs) ys = closings-append xs ys
closings-append (closed fd ∷ xs) ys = ap (λ l. fd ∷ l) (closings-append xs ys)

-- An `open` that throws, of a server or of a client whose address is one, has closed the descriptor
-- of the socket, and the end of the object closes the same descriptor again.
pub open_socket-destroy :
    (t : SocketType) (sys : System) (s : Socket)
    → (open_socket t sys s).1 ≡ throws
    → closes_failed t sys s ≡ s.fd ∷ []
    → closings ((open_socket t sys s).2 ++ (destroy (open_socket t sys s).0).2) ≡ s.fd ∷ s.fd ∷ []
unfolding destroy close
open_socket-destroy t sys s e closed_one =
    let (kept, ended) = open_socket_lem t sys s in
    closings-append (open_socket t sys s).2 (closed (open_socket t sys s).0.fd ∷ [])
    ∙ elim ended [ inl h ↦ absurd cc | inr h ↦ ap₂ (λ l fd. l ++ fd ∷ []) (h.2 ∙ closed_one) kept ]

forget_size-zero : (r : Done ℕ) (size : ℕ) → (forget_size r).1 ≡ returns size → size ≡ 0
unfolding forget_size
forget_size-zero (s, returns n, calls) size e = cc
forget_size-zero (s, throws, calls) size e = absurd cc
forget_size-zero (s, undefined, calls) size e = absurd cc

-- It returns nothing but 0.
abbrev IsNought : Done ℕ → Type 0
IsNought r = (size : ℕ) → r.1 ≡ returns size → size ≡ 0

read_ready-IsNought :
    (sys : System) (ms : ℕ) (fd : Descriptor) (s : Socket) → IsNought (read_ready sys ms fd s)
unfolding read_ready
read_ready-IsNought sys ms none s = λ size e. absurd cc
read_ready-IsNought sys ms (some fd) s = elim (Bool-cases (ltb fd 1024)) [
  | inr a ↦ rw a (λ size e. absurd cc)
  | inl a ↦ rw a (elim (Bool-cases (sys.waits fd (ms * 1000 % 2 ^ 32))) [
    | inr b ↦ rw b (λ size e. cc)
    | inl b ↦ rw b (forget_size-zero (read sys s))
  ])
]

-- When `read` with a time returns, it returns 0, however many bytes it has read.
pub read_timed-zero :
    (sys : System) (millisecond : ℕ) (s : Socket) (size : ℕ)
    → (read_timed sys millisecond s).1 ≡ returns size
    → size ≡ 0
unfolding read_timed
read_timed-zero sys ms s size e = read_ready-IsNought sys ms s.conn s size e
