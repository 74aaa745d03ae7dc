-- ===== src/Communication/Event/Delivery.antt =====
-- From the calls of a publisher to the handler of a subscriber.
use common_lib.Common.{
  ℕ, ◌+◌, ◌<◌, ◌^◌, ◌≡◌, refl, ap, ap₂, sym, ◌∙◌, arith, Option, some, none, List, [], ◌∷◌, ◌++◌,
  map, length, All,
}
use common_lib.Communication.Frame.{FrameType, regist, data_frame, ack, make}
use common_lib.Asio.Tcp.{Endian}
use common_lib.Asio.Tcp.Laws.{Fits}
use common_lib.Asio.Broker
use common_lib.Asio.Broker.{Input, accepts, receives, no_sessions}
use common_lib.Asio.Transport
use common_lib.Asio.Transport.{
  Transport, Effect, connects, sends, on_message, on_subscribed, Outcome, done, crashed, later,
  connected_publisher, connected_subscriber, strand_goes, receives_raw, calls_publish,
}
use common_lib.Communication.Event.{Codec, run, handled}
use common_lib.Communication.Event.Stages.{
  transfer, transfer-All, sent, sent_to, sent-map, sent_to-map, map_twice, Broker-serves,
}
use common_lib.Communication.Event.Calls.{
  effects_of, publisher_calls, subscriber_calls, framed, announced_lem, published_lem, got_lem,
}

abbrev pub and_then : {A B : Type 0} → Option A → (A → Option B) → Option B
and_then none f = none
and_then (some x) f = f x

module _ {A : Type 0} (c : Codec A) where
  -- What the broker is called with: both connect, and their messages arrive.
  abbrev pub inputs : ℕ → ℕ → List (List ℕ) → List (List ℕ) → List Input
  inputs p q announced published =
      accepts p ∷ accepts q ∷ (map (receives q) announced ++ map (receives p) published)

  -- What the handler of the subscriber is called with.
  unfoldable pub delivered : Endian → ℕ → ℕ → ℕ → List A → Option (List A)
  delivered e topic p q xs =
      and_then (effects_of (run c (subscriber_calls c []) (Transport.create topic))) (λ announced.
        and_then (effects_of (run c (publisher_calls c xs) (Transport.create topic))) (λ published.
          and_then
            (Broker.run (inputs p q (transfer e (sent announced)) (transfer e (sent published)))
              no_sessions)
            (λ out.
              and_then
                (effects_of (
                  run c (subscriber_calls c (transfer e (sent_to q out))) (Transport.create topic)))
                (λ got. some (handled c got)))))

  handled-map :
      ((x : A) → c.read (c.write x) ≡ x)
      → (xs : List A) → handled c (map on_message (map c.write xs)) ≡ xs
  unfolding handled
  handled-map h [] = refl
  handled-map h (x ∷ xs) = ap₂ ◌∷◌ (h x) (handled-map h xs)

  announcement_sent :
      (topic : ℕ)
      → sent (connects 0 ∷ sends 0 (make topic regist []) ∷ Transport.receives 0 ∷ [])
        ≡ make topic regist [] ∷ []
  unfolding sent
  announcement_sent topic = refl

  published_sent : (ms : List (List ℕ)) → sent (connects 0 ∷ map (sends 0) ms) ≡ ms
  unfolding sent
  published_sent ms = sent-map 0 ms

  handled_all :
      (topic : ℕ)
      → ((x : A) → c.read (c.write x) ≡ x)
      → (xs : List A)
      → handled c (
          connects 0
          ∷ sends 0 (make topic regist [])
          ∷ Transport.receives 0
          ∷ on_subscribed
          ∷ map on_message (map c.write xs))
        ≡ xs
  unfolding handled
  handled_all topic law xs = handled-map law xs

  make-Fits : (topic : ℕ) (type : FrameType) → Fits (make topic type [])
  unfolding make
  make-Fits topic type = omega arith

  -- Every frame of a value can be sent.
  framed-Fits :
      (topic : ℕ) (xs : List A)
      → All (λ x. length (c.write x) + 3 < 2 ^ 32) xs
      → All Fits (framed c topic xs)
  unfolding make
  framed-Fits topic [] h = tt
  framed-Fits topic (x ∷ xs) (h, hs) = (omega (arith, h), framed-Fits topic xs hs)

  -- A subscriber with an `onSubscribed` and a publisher of the same topic, of 16 bits, connect to a new
  -- broker over streams whose ends have the same byte order, and into which each message is written
  -- whole before the next. The subscriber's registration arrives first, and the publisher makes its
  -- calls once it is connected, before its strand performs them. Then, for a `DataType` that its
  -- operators write and read back, in fewer than 2 ^ 32 - 3 bytes, whatever is published reaches the
  -- handler of the subscriber, in order and each value once, and no part ends the program.
  pub delivered_lem :
      (e : Endian) (topic p q : ℕ) (xs : List A)
      → ((x : A) → c.read (c.write x) ≡ x)
      → topic < 2 ^ 16
      → All (λ x. length (c.write x) + 3 < 2 ^ 32) xs
      → delivered e topic p q xs ≡ some xs
  unfolding delivered
  delivered_lem e topic p q xs law h small =
      ap (λ o. and_then o (λ announced. and_then publisher (from_broker announced)))
        (announced_lem c topic)
      ∙ ap (λ o. and_then o (from_broker announcement)) (published_lem c topic xs h)
      ∙ ap₂ (λ a b. serve (inputs p q a b))
          (ap (transfer e) (announcement_sent topic)
            ∙ transfer-All e (make topic regist [] ∷ []) (short regist, tt))
          (ap (transfer e) (published_sent (framed c topic xs))
            ∙ transfer-All e (framed c topic xs) fits)
      ∙ ap (λ is. serve (accepts p ∷ accepts q ∷ receives q (make topic regist []) ∷ is))
          (map_twice (receives p) (make topic data_frame) (map c.write xs))
      ∙ ap (λ o. and_then o (λ out. hand (transfer e (sent_to q out))))
          (Broker-serves topic p q (map c.write xs) h)
      ∙ ap (λ out. hand (transfer e (sent_to q ((q, make topic ack []) ∷ out))))
          (sym (map_twice (λ m. (q, m)) (make topic data_frame) (map c.write xs)))
      ∙ ap hand (
          ap (transfer e) (sent_to-map q (make topic ack [] ∷ framed c topic xs))
          ∙ transfer-All e (make topic ack [] ∷ framed c topic xs) (short ack, fits))
      ∙ ap (λ o. and_then o (λ got. some (handled c got))) (got_lem c topic xs h)
      ∙ ap some (handled_all topic law xs)
    where
      fits : All Fits (framed c topic xs)
      fits = framed-Fits topic xs small

      short : (type : FrameType) → Fits (make topic type [])
      short type = make-Fits topic type

      publisher : Option (List Effect)
      publisher = effects_of (run c (publisher_calls c xs) (Transport.create topic))

      announcement : List Effect
      announcement = connects 0 ∷ sends 0 (make topic regist []) ∷ Transport.receives 0 ∷ []

      hand : List (List ℕ) → Option (List A)
      hand ms =
          and_then (effects_of (run c (subscriber_calls c ms) (Transport.create topic)))
            (λ got. some (handled c got))

      serve : List Input → Option (List A)
      serve is = and_then (Broker.run is no_sessions) (λ out. hand (transfer e (sent_to q out)))

      from_broker : List Effect → List Effect → Option (List A)
      from_broker announced published =
          serve (inputs p q (transfer e (sent announced)) (transfer e (sent published)))
