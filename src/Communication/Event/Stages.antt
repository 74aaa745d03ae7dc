-- ===== src/Communication/Event/Stages.antt =====
-- The stages on the way from a publisher to a subscriber.
use common_lib.Common.{
  ℕ, suc, ◌<◌, ◌^◌, ◌≡◌, refl, ap, ap₂, ◌∙◌, subst, arith, Bool, true, false, Option, some, none,
  List, [], ◌∷◌, ◌++◌, map, append-nil, length, length-append, All, if◌then◌else◌, ◌==◌, ==_refl,
}
use common_lib.Communication.Frame.{FrameType, regist, data_frame, ack, Frame, make}
use common_lib.Communication.Frame.Laws.{IsFrameType, parse-make}
use common_lib.Asio.Tcp
use common_lib.Asio.Tcp.{Endian, StreamEnd, eof}
use common_lib.Asio.Tcp.Laws.{send_all, Fits, receive-send_all}
use common_lib.Asio.Registry.{Sessions, Send, find, send_live, route}
use common_lib.Asio.Registry
use common_lib.Asio.Broker
use common_lib.Asio.Broker.{
  Broker, Input, accepts, receives, no_sessions, update, on_event, on_subscribe, on_accept,
  dispatch,
}
use common_lib.Asio.Transport.{Effect, sends, later}

-- The messages that a socket hands over.
unfoldable pub messages : List Tcp.Event → List (List ℕ)
messages [] = []
messages (Tcp.on_receive m ∷ es) = m ∷ messages es
messages (Tcp.disconnect ∷ es) = messages es
messages (Tcp.on_error code ∷ es) = messages es

-- What arrives of the messages that one end of a connection sends, once all its bytes have.
unfoldable pub transfer : Endian → List (List ℕ) → List (List ℕ)
transfer e ms = messages (Tcp.receive e true eof (suc (length (send_all e ms))) (send_all e ms))

messages-append : (es fs : List Tcp.Event) → messages (es ++ fs) ≡ messages es ++ messages fs
unfolding messages
messages-append [] fs = refl
messages-append (Tcp.on_receive m ∷ es) fs = ap (λ l. m ∷ l) (messages-append es fs)
messages-append (Tcp.disconnect ∷ es) fs = messages-append es fs
messages-append (Tcp.on_error code ∷ es) fs = messages-append es fs

messages-map : (ms : List (List ℕ)) → messages (map Tcp.on_receive ms) ≡ ms
unfolding messages
messages-map [] = refl
messages-map (m ∷ ms) = ap (λ l. m ∷ l) (messages-map ms)

nothing_left : (e : Endian) (n : ℕ) → messages (Tcp.receive e true eof (suc n) []) ≡ []
unfolding messages Tcp.receive Tcp.header_failed Tcp.report
nothing_left e n = refl

pub transfer-All : (e : Endian) (ms : List (List ℕ)) → All Fits ms → transfer e ms ≡ ms
unfolding transfer
transfer-All e ms h =
    ap messages whole
    ∙ messages-append (map Tcp.on_receive ms) (Tcp.receive e true eof fuel [])
    ∙ ap₂ ◌++◌ (messages-map ms) (nothing_left e (length (send_all e ms)))
    ∙ append-nil ms
  where
    fuel : ℕ
    fuel = suc (length (send_all e ms))

    whole :
        Tcp.receive e true eof fuel (send_all e ms)
        ≡ map Tcp.on_receive ms ++ Tcp.receive e true eof fuel []
    whole =
        subst
          (λ l.
            Tcp.receive e true eof fuel l ≡ map Tcp.on_receive ms ++ Tcp.receive e true eof fuel [])
          (append-nil (send_all e ms))
          (receive-send_all e true eof fuel ms [] h
            (omega (arith, length-append (send_all e ms) [])))

-- The frames that a transport sends on its socket, and those that the broker sends to one session.
unfoldable pub sent : List Effect → List (List ℕ)
sent [] = []
sent (sends s m ∷ es) = m ∷ sent es
sent (_ ∷ es) = sent es

unfoldable pub sent_to : ℕ → List Send → List (List ℕ)
sent_to q [] = []
sent_to q ((s, m) ∷ ms) = if s == q then m ∷ sent_to q ms else sent_to q ms

pub sent-map : (s : ℕ) (ms : List (List ℕ)) → sent (map (sends s) ms) ≡ ms
unfolding sent
sent-map s [] = refl
sent-map s (m ∷ ms) = ap (λ l. m ∷ l) (sent-map s ms)

pub sent_to-map : (q : ℕ) (ms : List (List ℕ)) → sent_to q (map (λ m. (q, m)) ms) ≡ ms
unfolding sent_to
sent_to-map q [] = refl
sent_to-map q (m ∷ ms) = rw (==_refl q) (ap (λ l. m ∷ l) (sent_to-map q ms))

-- The broker, with a subscriber of this topic and a publisher.
abbrev subscribed : ℕ → ℕ → ℕ → Broker
subscribed topic p q = record {
  sessions = (topic, q ∷ []) ∷ [];
  alive = update (update (λ s. false) p true) q true;
}

update_self : (f : ℕ → Bool) (q : ℕ) (b : Bool) → update f q b q ≡ b
update_self f q b = rw (==_refl q) refl

routed :
    (topic p q : ℕ) (payload : List ℕ)
    → on_event (subscribed topic p q) topic payload ≡ (q, make topic data_frame payload) ∷ []
unfolding on_event route find send_live
routed topic p q payload =
    ap pick (ap (λ b. if b then some (q ∷ []) else none) (==_refl topic))
    ∙ ap (λ b. if b then (q, make topic data_frame payload) ∷ [] else [])
        (update_self (update (λ s. false) p true) q true)
  where
    pick : Option (List ℕ) → List Send
    pick o = elim o [
      | none ↦ []
      | some ss ↦ send_live (subscribed topic p q).alive (make topic data_frame payload) ss
    ]

Broker-next :
    (i : Input) (is : List Input) (b b' : Broker) (now later : List Send)
    → Broker.step i b ≡ some (b', now)
    → Broker.run is b' ≡ some later
    → Broker.run (i ∷ is) b ≡ some (now ++ later)
unfolding Broker.run
Broker-next i is b b' now later e f = ap first e ∙ ap second f
  where
    second : Option (List Send) → Option (List Send)
    second o = elim o [ none ↦ none | some l ↦ some (now ++ l) ]

    first : Option (Broker × List Send) → Option (List Send)
    first o = elim o [
      | none ↦ none
      | some (b1, n) ↦ elim (Broker.run is b1) [ none ↦ none | some l ↦ some (n ++ l) ]
    ]

-- What the broker does with a frame.
received :
    (topic s : ℕ) (type : FrameType) (payload : List ℕ) (b : Broker)
    → topic < 2 ^ 16
    → IsFrameType type
    → Broker.step (receives s (make topic type payload)) b ≡ some (dispatch type topic payload s b)
unfolding Broker.step Broker.on_receive
received topic s type payload b h n = ap act (parse-make topic type payload h n)
  where
    act : Option Frame → Option (Broker × List Send)
    act o = elim o [ none ↦ none | some f ↦ some (dispatch f.type f.topic f.payload s b) ]

-- Each event of the publisher goes to the subscriber.
broadcast :
    (topic p q : ℕ) (payloads : List (List ℕ))
    → topic < 2 ^ 16
    → Broker.run (map (λ x. receives p (make topic data_frame x)) payloads) (subscribed topic p q)
      ≡ some (map (λ x. (q, make topic data_frame x)) payloads)
unfolding Broker.run
broadcast topic p q [] h = refl
broadcast topic p q (x ∷ payloads) h =
    Broker-next (receives p (make topic data_frame x))
      (map (λ x. receives p (make topic data_frame x)) payloads) (subscribed topic p q)
      (subscribed topic p q) ((q, make topic data_frame x) ∷ [])
      (map (λ x. (q, make topic data_frame x)) payloads)
      (received topic p data_frame x (subscribed topic p q) h tt
        ∙ unfold dispatch in ap (λ l. some (subscribed topic p q, l)) (routed topic p q x))
      (broadcast topic p q payloads h)

-- A subscriber and a publisher connect, the first one subscribes, and the other one publishes.
pub Broker-serves :
    (topic p q : ℕ) (payloads : List (List ℕ))
    → topic < 2 ^ 16
    → Broker.run
        (accepts p
          ∷ accepts q
          ∷ receives q (make topic regist [])
          ∷ map (λ x. receives p (make topic data_frame x)) payloads)
        no_sessions
      ≡ some ((q, make topic ack []) ∷ map (λ x. (q, make topic data_frame x)) payloads)
unfolding Broker.step on_accept
Broker-serves topic p q payloads h =
    Broker-next (accepts p) _ no_sessions (on_accept no_sessions p) []
      ((q, make topic ack []) ∷ map (λ x. (q, make topic data_frame x)) payloads) refl
      (Broker-next (accepts q) _ (on_accept no_sessions p) (on_accept (on_accept no_sessions p) q)
        [] ((q, make topic ack []) ∷ map (λ x. (q, make topic data_frame x)) payloads) refl
        (Broker-next (receives q (make topic regist [])) _ (on_accept (on_accept no_sessions p) q)
          (subscribed topic p q) ((q, make topic ack []) ∷ [])
          (map (λ x. (q, make topic data_frame x)) payloads)
          (received topic q regist [] (on_accept (on_accept no_sessions p) q) h tt
            ∙ unfold dispatch in unfold on_subscribe in unfold Registry.regist in refl)
          (broadcast topic p q payloads h)))

pub map_twice :
    {A B C : Type 0} (g : B → C) (f : A → B) (xs : List A)
    → map g (map f xs) ≡ map (λ x. g (f x)) xs
map_twice g f [] = refl
map_twice g f (x ∷ xs) = ap (λ l. g (f x) ∷ l) (map_twice g f xs)
