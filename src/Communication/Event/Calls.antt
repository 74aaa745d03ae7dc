-- ===== src/Communication/Event/Calls.antt =====
-- What a publisher and a subscriber do, from their creation on.
use common_lib.Common.{
  ℕ, ◌<◌, ◌^◌, ◌≡◌, refl, ap, ◌∙◌, true, Option, some, none, List, [], ◌∷◌, ◌++◌, map,
}
use common_lib.Communication.Frame.{regist, ack, make}
use common_lib.Communication.Frame.Laws.{parse-make}
use common_lib.Asio.Transport
use common_lib.Asio.Transport.{
  Transport, Effect, connects, sends, on_message, on_subscribed, Outcome, done, crashed, later,
  connected_publisher, connected_subscriber, strand_goes, handler_goes, receives_raw, calls_publish,
}
use common_lib.Asio.Transport.Laws.{publish-receive, all_published, all_performed, frames}
use common_lib.Communication.Event
use common_lib.Communication.Event.{
  Codec, Call, registers, subscribes, publishes, asio, publish, step, run, handled,
}

-- What an object did, unless it ended the program.
unfoldable pub effects_of : Outcome → Option (List Effect)
effects_of (done t effects) = some effects
effects_of crashed = none

module _ {A : Type 0} (c : Codec A) where
  -- The publisher registers, and once it is connected, publishes these; its strand follows.
  abbrev pub publisher_calls : List A → List (Call A)
  publisher_calls xs =
      registers
      ∷ asio connected_publisher
      ∷ (map publishes xs ++ map asio (all_performed (map c.write xs)))

  -- The subscriber subscribes, is connected, and receives these.
  abbrev pub subscriber_calls : List (List ℕ) → List (Call A)
  subscriber_calls ms =
      subscribes
      ∷ asio connected_subscriber
      ∷ asio handler_goes
      ∷ asio handler_goes
      ∷ map asio (map (receives_raw true) ms)

  -- The frames of the values.
  abbrev pub framed : ℕ → List A → List (List ℕ)
  framed topic xs = frames topic (map c.write xs)

  -- A transport that is connected.
  abbrev ready : ℕ → Transport
  ready topic = record (Transport.create topic) { socket = some 0; made = 1; connected = true }

  -- What comes before the rest of a subscriber.
  abbrev announces : ℕ → Outcome → Outcome
  announces topic o =
      later (connects 0 ∷ []) (
        later []
          (later (sends 0 (make topic regist []) ∷ []) (later (Transport.receives 0 ∷ []) o)))

  subscriber_begins :
      (topic : ℕ) (calls : List (Call A))
      → run c
          (subscribes ∷ asio connected_subscriber ∷ asio handler_goes ∷ asio handler_goes ∷ calls)
          (Transport.create topic)
        ≡ announces topic (run c calls (ready topic))
  unfolding run step Event.subscribe Transport.create Transport.subscribe Transport.open_socket
      Transport.step Transport.on_subscribe Transport.go_on Transport.register Transport.listen
  subscriber_begins topic calls = refl

  publisher_begins :
      (topic : ℕ) (calls : List (Call A))
      → run c (registers ∷ asio connected_publisher ∷ calls) (Transport.create topic)
        ≡ later (connects 0 ∷ []) (later [] (run c calls (ready topic)))
  unfolding run step Event.regist Transport.create Transport.connect Transport.open_socket
      Transport.step Transport.on_connect
  publisher_begins topic calls = refl

  -- What asio and the strand do is what they do to the transport.
  run-asio : (ms : List Transport.Move) (t : Transport) → run c (map asio ms) t ≡ Transport.run ms t
  unfolding run step Transport.run
  run-asio [] t = refl
  run-asio (m ∷ ms) t = same (Transport.step m t) (run-asio ms)
    where
      same :
          (o : Outcome)
          → ((t' : Transport) → run c (map asio ms) t' ≡ Transport.run ms t')
          → (elim o as (λ _. Outcome) [
            | done t' effects ↦ later effects (run c (map asio ms) t')
            | crashed ↦ crashed
          ])
            ≡ (elim o as (λ _. Outcome) [
              | done t' effects ↦ later effects (Transport.run ms t')
              | crashed ↦ crashed
            ])
      same (done t' effects) ih = ap (later effects) (ih t')
      same crashed ih = refl

  run-publishes :
      (xs : List A) (ms : List Transport.Move) (t : Transport)
      → run c (map publishes xs ++ map asio ms) t
        ≡ Transport.run (all_published (map c.write xs) ++ ms) t
  unfolding run step publish Transport.run Transport.step Transport.publish
  run-publishes [] ms t = run-asio ms t
  run-publishes (x ∷ xs) ms t = ap (later []) (run-publishes xs ms _)

  -- The subscriber announces itself.
  pub announced_lem :
      (topic : ℕ)
      → effects_of (run c (subscriber_calls []) (Transport.create topic))
        ≡ some (connects 0 ∷ sends 0 (make topic regist []) ∷ Transport.receives 0 ∷ [])
  unfolding effects_of later
  announced_lem topic = ap effects_of (subscriber_begins topic []) ∙ unfold run in refl

  pub published_lem :
      (topic : ℕ) (xs : List A)
      → topic < 2 ^ 16
      → effects_of (run c (publisher_calls xs) (Transport.create topic))
        ≡ some (connects 0 ∷ map (sends 0) (framed topic xs))
  unfolding effects_of later Transport.create
  published_lem topic xs h = ap effects_of (
      publisher_begins topic (map publishes xs ++ map asio (all_performed (map c.write xs)))
      ∙ ap (λ o. later (connects 0 ∷ []) (later [] o))
          (run-publishes xs (all_performed (map c.write xs)) (ready topic)
            ∙ (publish-receive (map c.write xs) (ready topic) (ready topic) 0 true refl refl refl
                refl h).0))

  acknowledged :
      (topic : ℕ) (ms : List Transport.Move) (t : Transport)
      → topic < 2 ^ 16
      → Transport.run (receives_raw true (make topic ack []) ∷ ms) t
        ≡ later (on_subscribed ∷ []) (Transport.run ms t)
  unfolding Transport.run Transport.step Transport.on_receive Transport.deliver_frame
      Transport.deliver
  acknowledged topic ms t h =
      ap (λ f. next (Transport.deliver_frame true f t)) (parse-make topic ack [] h tt)
    where
      next : Outcome → Outcome
      next o = elim o [ done t' effects ↦ later effects (Transport.run ms t') | crashed ↦ crashed ]

  pub got_lem :
      (topic : ℕ) (xs : List A)
      → topic < 2 ^ 16
      → effects_of
          (run c (subscriber_calls (make topic ack [] ∷ framed topic xs)) (Transport.create topic))
        ≡ some (
            connects 0
            ∷ sends 0 (make topic regist [])
            ∷ Transport.receives 0
            ∷ on_subscribed
            ∷ map on_message (map c.write xs))
  unfolding effects_of later Transport.create
  got_lem topic xs h = ap effects_of (
      subscriber_begins topic
        (map asio (map (receives_raw true) (make topic ack [] ∷ framed topic xs)))
      ∙ ap (announces topic) (
          run-asio (map (receives_raw true) (make topic ack [] ∷ framed topic xs)) (ready topic)
          ∙ acknowledged topic (map (receives_raw true) (framed topic xs)) (ready topic) h
          ∙ ap (later (on_subscribed ∷ []))
              (publish-receive (map c.write xs) (ready topic) (ready topic) 0 true refl refl refl
                refl h).1))
