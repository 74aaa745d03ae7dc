-- ===== src/Asio/Tcp/Laws.antt =====
-- What a receiver makes of the bytes that senders wrote.
use native.Mathlib.Decide.{dec_lt}
use common_lib.Common.{
  ℕ, zero, suc, ◌+◌, ◌%◌, ◌^◌, ◌≤◌, ◌<◌, ◌≡◌, refl, ap, ◌∙◌, arith, List, [], ◌∷◌, ◌++◌, map,
  append_assoc, length, length-append, take, drop, take-append, length-drop, drop-append, All, Bool,
  ltb, if◌then◌else◌, length-take_le,
}
use common_lib.Asio.Tcp.{
  Endian, little, big, receive_failure, StreamEnd, size_bytes, read_size, send, on_receive, report,
  header_failed, receive,
}

read_size-size_bytes :
    (e : Endian) (n : ℕ) (rest : List ℕ)
    → n < 2 ^ 32
    → read_size e (take 4 (size_bytes e n ++ rest)) ≡ n
unfolding read_size size_bytes
read_size-size_bytes little n rest h = omega arith
read_size-size_bytes big n rest h = omega arith

drop-size_bytes : (e : Endian) (n : ℕ) (rest : List ℕ) → drop 4 (size_bytes e n ++ rest) ≡ rest
unfolding size_bytes
drop-size_bytes little n rest = refl
drop-size_bytes big n rest = refl

length-size_bytes : (e : Endian) (n : ℕ) → length (size_bytes e n) ≡ 4
unfolding size_bytes
length-size_bytes little n = refl
length-size_bytes big n = refl

-- The bytes of messages sent one after the other.
abbrev pub send_all : Endian → List (List ℕ) → List ℕ
send_all e [] = []
send_all e (m ∷ ms) = send e m ++ send_all e ms

abbrev pub Fits : List ℕ → Type 0
Fits m = length m < 2 ^ 32

length-send : (e : Endian) (m : List ℕ) → length (send e m) ≡ 4 + length m
unfolding send
length-send e m = omega (
  arith,
  length-append (size_bytes e (length m % 2 ^ 32)) m,
  length-size_bytes e (length m % 2 ^ 32),
)

take-size_bytes :
    (e : Endian) (n j : ℕ) (m : List ℕ)
    → take (suc (suc (suc (suc j)))) (size_bytes e n ++ m) ≡ size_bytes e n ++ take j m
unfolding size_bytes
take-size_bytes little n j m = refl
take-size_bytes big n j m = refl

-- A message torn behind its header still announces its whole size.
torn-size :
    (e : Endian) (k : ℕ) (m : List ℕ)
    → Fits m
    → 4 ≤ k
    → read_size e (take 4 (take k (send e m))) ≡ length m
unfolding send
torn-size e zero m h k4 = absurd (omega arith)
torn-size e (suc zero) m h k4 = absurd (omega arith)
torn-size e (suc (suc zero)) m h k4 = absurd (omega arith)
torn-size e (suc (suc (suc zero))) m h k4 = absurd (omega arith)
torn-size e (suc (suc (suc (suc j)))) m h k4 =
    rw (take-size_bytes e (length m % 2 ^ 32) j m)
      (read_size-size_bytes e (length m % 2 ^ 32) (take j m) (omega arith) ∙ omega arith)

module _ (e : Endian) (has_error : Bool) (end : StreamEnd) where
  -- One message at the head of the stream is handed over, and the rest is received.
  receive-send :
      (fuel : ℕ) (m rest : List ℕ)
      → Fits m
      → receive e has_error end (suc fuel) (send e m ++ rest)
        ≡ on_receive m ∷ receive e has_error end fuel rest
  unfolding receive send
  receive-send fuel m rest h = ground (
    arith,
    size-send,
    drop-send,
    length-send,
    length-append m rest,
    take-append m rest,
    drop-append m rest,
  )
    where
      whole : length m % 2 ^ 32 ≡ length m
      whole = omega arith

      framed : send e m ++ rest ≡ size_bytes e (length m) ++ (m ++ rest)
      framed = rw whole (append_assoc (size_bytes e (length m)) m rest)

      size-send : read_size e (take 4 (send e m ++ rest)) ≡ length m
      size-send = rw framed (read_size-size_bytes e (length m) (m ++ rest) h)

      drop-send : drop 4 (send e m ++ rest) ≡ m ++ rest
      drop-send = rw framed (drop-size_bytes e (length m) (m ++ rest))

      length-send : length (send e m ++ rest) ≡ 4 + length (m ++ rest)
      length-send = rw framed (
          omega (
            arith,
            length-append (size_bytes e (length m)) (m ++ rest),
            length-size_bytes e (length m),
          ))

  -- More fuel than bytes makes no difference.
  pub receive-fuel :
      (n k : ℕ) (stream : List ℕ)
      → length stream < n
      → length stream < k
      → receive e has_error end n stream ≡ receive e has_error end k stream
  unfolding receive
  receive-fuel zero k stream h h' = absurd (omega arith)
  receive-fuel (suc n) zero stream h h' = absurd (omega arith)
  receive-fuel (suc n) (suc k) stream h h' = ground (
    arith,
    receive-fuel n k (drop (read_size e (take 4 stream)) (drop 4 stream)),
    length-drop 4 stream,
    length-drop (read_size e (take 4 stream)) (drop 4 stream),
  )

  pub receive-send_all :
      (fuel : ℕ) (ms : List (List ℕ)) (tail : List ℕ)
      → All Fits ms
      → length (send_all e ms ++ tail) < fuel
      → receive e has_error end fuel (send_all e ms ++ tail)
        ≡ map on_receive ms ++ receive e has_error end fuel tail
  receive-send_all zero ms tail h lt = absurd (omega arith)
  receive-send_all (suc fuel) [] tail h lt = refl
  receive-send_all (suc fuel) (m ∷ ms) tail h lt =
      ap (receive e has_error end (suc fuel)) (append_assoc (send e m) (send_all e ms) tail)
      ∙ receive-send fuel m (send_all e ms ++ tail) h.0
      ∙ ap (λ l. on_receive m ∷ l) (receive-send_all fuel ms tail h.1 shorter ∙ more_fuel)
    where
      shorter : length (send_all e ms ++ tail) < fuel
      shorter = omega (
        arith,
        ap length (append_assoc (send e m) (send_all e ms) tail),
        length-append (send e m) (send_all e ms ++ tail),
        length-send e m,
      )

      more_fuel :
          map on_receive ms ++ receive e has_error end fuel tail
          ≡ map on_receive ms ++ receive e has_error end (suc fuel) tail
      more_fuel =
          ap (λ l. map on_receive ms ++ l)
            (receive-fuel fuel (suc fuel) tail
              (omega (arith, length-append (send_all e ms) tail, shorter))
              (omega (arith, length-append (send_all e ms) tail, shorter)))

  -- A stream that breaks off within a message.
  receive-torn :
      (fuel k : ℕ) (m : List ℕ)
      → Fits m
      → k < length (send e m)
      → receive e has_error end (suc fuel) (take k (send e m))
        ≡ (if ltb k 4 then header_failed has_error end else report has_error receive_failure)
  unfolding receive
  receive-torn fuel k m h lt = elim (dec_lt k 4) [
    | yes early ↦ ground (arith, length-take_le k (send e m))
    | no late ↦ ground (
      arith,
      length-take_le k (send e m),
      torn-size e k m h (omega arith),
      length-drop 4 (take k (send e m)),
      length-send e m,
    )
  ]

  -- Of a stream cut anywhere within a message, the receiver hands over the whole messages in order,
  -- and then reports how it ended: as a lost connection, after closing the socket, only if the cut
  -- lies in a header and asio names the end as such, and as a receive failure otherwise.
  pub receive-cut :
      (fuel k : ℕ) (ms : List (List ℕ)) (m : List ℕ)
      → All Fits ms
      → Fits m
      → k < length (send e m)
      → length (send_all e ms ++ take k (send e m)) < fuel
      → receive e has_error end fuel (send_all e ms ++ take k (send e m))
        ≡ map on_receive ms
          ++ (if ltb k 4 then header_failed has_error end else report has_error receive_failure)
  receive-cut zero k ms m h hm lt enough = absurd (omega arith)
  receive-cut (suc fuel) k ms m h hm lt enough =
      receive-send_all (suc fuel) ms (take k (send e m)) h enough
      ∙ ap (λ l. map on_receive ms ++ l) (receive-torn fuel k m hm lt)
