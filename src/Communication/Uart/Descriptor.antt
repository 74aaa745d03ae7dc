-- ===== src/Communication/Uart/Descriptor.antt =====
-- The descriptor of a port over a sequence of calls, and the baud rates.
use common_lib.Common.{
  ◌==◌, if◌then◌else◌, ℕ, ◌+◌, ◌≡◌, refl, arith, true, false, none, some, List, [], ◌∷◌, ◌++◌, ◌⊎◌,
  Bool-cases, inl, inr, Option-cases, Bool, Option,
}
use common_lib.Communication.Uart.{
  Baudrate, b9600, b19200, b38400, b57600, b115200, of_uint32, to_uint32, access, Port, Call, opens,
  configures, closes, Uart, Outcome, done, aborted, try_open, open_uart, close, close_call,
}

-- A rate is read back from its number, and any other number stands for 9600.
pub of_uint32_lem :
    (value : ℕ) (rate : Baudrate)
    → (of_uint32 (to_uint32 rate) ≡ rate)
      × ((to_uint32 (of_uint32 value) ≡ value) ⊎ (of_uint32 value ≡ b9600))
unfolding of_uint32 to_uint32
of_uint32_lem value b9600 = (refl, ground arith)
of_uint32_lem value b19200 = (refl, ground arith)
of_uint32_lem value b38400 = (refl, ground arith)
of_uint32_lem value b57600 = (refl, ground arith)
of_uint32_lem value b115200 = (refl, ground arith)

-- The calls of a client; the system answers each `open` for itself.
pub data Use : Type 0 where
  use_open : Port → Use
  use_close : Use

-- One call in the build without strict mode; its state, and what reaches the system.
unfoldable pub call : Use → Uart → Outcome (Uart × List Call)
call (use_open port) u = elim (open_uart false port u) [
  | aborted ↦ aborted
  | done (u', _, calls) ↦ done (u', calls)
]
call use_close u = done (close u)

unfoldable pub client : List Use → Uart → Outcome (Uart × List Call)
client [] u = done (u, [])
client (c ∷ cs) u = elim (call c u) [
  | aborted ↦ aborted
  | done (u', calls) ↦ elim (client cs u') [
    | aborted ↦ aborted
    | done (u'', later) ↦ done (u'', calls ++ later)
  ]
]

abbrev pub count : Bool → ℕ
count true = 1
count false = 0

-- How often descriptor `k` was obtained and given back.
unfoldable pub obtained : ℕ → List Call → ℕ
obtained k [] = 0
obtained k (opens a ∷ cs) = obtained k cs
obtained k (configures fd rate ∷ cs) = count (fd == k) + obtained k cs
obtained k (closes fd ∷ cs) = obtained k cs

abbrev pub is_descriptor : ℕ → Option ℕ → Bool
is_descriptor k none = false
is_descriptor k (some fd) = fd == k

unfoldable pub given_back : ℕ → List Call → ℕ
given_back k [] = 0
given_back k (opens a ∷ cs) = given_back k cs
given_back k (configures fd rate ∷ cs) = given_back k cs
given_back k (closes fd ∷ cs) = count (fd == k) + given_back k cs

-- Whether the port holds descriptor `k`.
abbrev pub holds : ℕ → Uart → ℕ
holds k u = if u.is_open then count (is_descriptor k u.fd) else 0

-- An open port has a descriptor.
abbrev pub IsUart : Uart → Type 0
IsUart u = (u.is_open ≡ false) ⊎ ((fd : ℕ) × (u.fd ≡ some fd))

-- The calls do not stop the program, keep that, and balance.
abbrev Balanced : ℕ → Uart → Outcome (Uart × List Call) → Type 0
Balanced k u r =
    (u' : Uart) × (calls : List Call) × (r ≡ done (u', calls))
    × IsUart u'
    × (obtained k calls + holds k u ≡ given_back k calls + holds k u')

module _ (k : ℕ) (u : Uart) (v : IsUart u) where
  open-Balanced : (port : Port) → Balanced k u (call (use_open port) u)
  unfolding call open_uart try_open obtained given_back
  open-Balanced port = elim (Bool-cases u.is_open) [
    | inl e ↦ (u, [], ground arith, v, refl)
    | inr e ↦ elim (Option-cases (port (access u.mode))) [
      | inl p ↦ (record u { fd = none }, opens (access u.mode) ∷ [], ground arith, inl e, rw e refl)
      | inr (fd, p) ↦ (
        record u { fd = some fd; is_open = true },
        opens (access u.mode) ∷ configures fd u.baudrate ∷ [],
        ground arith,
        inr (fd, refl),
        rw e (omega arith),
      )
    ]
  ]

  close-Balanced : Balanced k u (call use_close u)
  unfolding call close close_call obtained given_back
  close-Balanced = elim (Bool-cases u.is_open) [
    | inr e ↦ (u, [], ground arith, v, refl)
    | inl e ↦ elim v [
      | inl no_port ↦ absurd (ground arith)
      | inr (fd, p) ↦ (
        record u { is_open = false },
        closes fd ∷ [],
        ground arith,
        inl refl,
        rw e (rw p (omega arith)),
      )
    ]
  ]

call-Balanced : (k : ℕ) (c : Use) (u : Uart) → IsUart u → Balanced k u (call c u)
call-Balanced k (use_open port) u v = open-Balanced k u v port
call-Balanced k use_close u v = close-Balanced k u v

obtained-append :
    (k : ℕ) (xs ys : List Call) → obtained k (xs ++ ys) ≡ obtained k xs + obtained k ys
unfolding obtained
obtained-append k [] ys = omega arith
obtained-append k (opens a ∷ xs) ys = obtained-append k xs ys
obtained-append k (configures fd rate ∷ xs) ys = omega (arith, obtained-append k xs ys)
obtained-append k (closes fd ∷ xs) ys = obtained-append k xs ys

given_back-append :
    (k : ℕ) (xs ys : List Call) → given_back k (xs ++ ys) ≡ given_back k xs + given_back k ys
unfolding given_back
given_back-append k [] ys = omega arith
given_back-append k (opens a ∷ xs) ys = given_back-append k xs ys
given_back-append k (configures fd rate ∷ xs) ys = given_back-append k xs ys
given_back-append k (closes fd ∷ xs) ys = omega (arith, given_back-append k xs ys)

client-Balanced : (k : ℕ) (cs : List Use) (u : Uart) → IsUart u → Balanced k u (client cs u)
unfolding client obtained given_back
client-Balanced k [] u v = (u, [], refl, v, omega arith)
client-Balanced k (c ∷ cs) u v =
    let (u', calls, e, v', n) = call-Balanced k c u v in
    let (u'', later, e', v'', n') = client-Balanced k cs u' v' in
    (
      u'',
      calls ++ later,
      rw (e, client) (rw (e', client)),
      v'',
      omega (arith, obtained-append k calls later, given_back-append k calls later, n, n'),
    )

-- However often a client opens and closes a port that is closed at first, in the build without strict
-- mode and whatever the system answers: the program goes on, and each descriptor was given back as
-- often as it was obtained from the system, but for the one that the port holds if it is open. So none
-- leaks, and none is closed twice.
pub client_balance :
    (k : ℕ) (cs : List Use) (u : Uart)
    → u.is_open ≡ false
    → (u' : Uart) × (calls : List Call) × (client cs u ≡ done (u', calls))
      × (obtained k calls ≡ given_back k calls + holds k u')
client_balance k cs u closed =
    let (u', calls, e, v, n) = client-Balanced k cs u (inl closed) in
    (u', calls, e, omega (arith, n, held_before))
  where
    held_before : holds k u ≡ 0
    held_before = rw closed refl
