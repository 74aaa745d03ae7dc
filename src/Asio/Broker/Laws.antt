-- ===== src/Asio/Broker/Laws.antt =====
-- The broker does what its specification says.
use common_lib.Common.{
  ℕ, ◌≤◌, ◌≡◌, refl, ap, ◌∙◌, inl, inr, arith, Bool, true, false, some, Option-cases, List, [], ◌∷◌,
  ◌++◌, map, length, if◌then◌else◌, ◌==◌, All, Bool-cases,
}
use common_lib.Communication.Frame.{
  FrameType, regist, unregist, data_frame, ack, other, parse, make,
}
use common_lib.Communication.Frame.Laws.{parse-none_iff}
use common_lib.Asio.Registry.{Send}
use common_lib.Asio.Registry.Laws.{
  view, IsRegistry, without, view-regist, regist-IsRegistry, unregist-IsRegistry, view-unregist,
  live_of, route-view,
}
use common_lib.Asio.Broker.{
  Broker, update, no_sessions, on_subscribe, on_unsubscribe, on_event, dispatch, on_receive,
  on_accept, on_disconnect, Input, accepts, receives, loses, step, run,
}
use common_lib.Asio.Broker.Spec.{
  Subscribers, subscribe, unsubscribe, publish, action_of_type, action, act, spec_run, Admissible,
}

abbrev AllLive : (ℕ → Bool) → List ℕ → Type 0
AllLive alive = All (λ w. alive w ≡ true)

-- The registry holds just the subscribers, and every one of them is connected.
record Implements (b : Broker) (subs : Subscribers) : Type 0 where
  valid : IsRegistry b.sessions
  same : (u : ℕ) → view b.sessions u ≡ subs u
  live : (u : ℕ) → AllLive b.alive (subs u)

live_of-AllLive : (alive : ℕ → Bool) (ws : List ℕ) → AllLive alive ws → live_of alive ws ≡ ws
unfolding live_of
live_of-AllLive alive [] h = refl
live_of-AllLive alive (w ∷ ws) h = rw (h.0, live_of-AllLive alive ws h.1)

AllLive-without :
    (alive : ℕ → Bool) (s : ℕ) (ws : List ℕ) → AllLive alive ws → AllLive alive (without s ws)
unfolding without
AllLive-without alive s [] h = tt
AllLive-without alive s (w ∷ ws) h = elim (Bool-cases (w == s)) [
  | inl e ↦ rw e (AllLive-without alive s ws h.1)
  | inr e ↦ rw e (h.0, AllLive-without alive s ws h.1)
]

AllLive-snoc :
    (alive : ℕ → Bool) (s : ℕ) (ws : List ℕ)
    → AllLive alive ws
    → alive s ≡ true
    → AllLive alive (ws ++ s ∷ [])
AllLive-snoc alive s [] h l = (l, tt)
AllLive-snoc alive s (w ∷ ws) h l = (h.0, AllLive-snoc alive s ws h.1 l)

-- Those that are not taken out stay connected when one session expires.
AllLive-expire :
    (alive : ℕ → Bool) (s : ℕ) (ws : List ℕ)
    → AllLive alive ws
    → AllLive (update alive s false) (without s ws)
unfolding without
AllLive-expire alive s [] h = tt
AllLive-expire alive s (w ∷ ws) h = elim (Bool-cases (w == s)) [
  | inl e ↦ rw e (AllLive-expire alive s ws h.1)
  | inr e ↦ rw e (ground arith, AllLive-expire alive s ws h.1)
]

AllLive-accept :
    (alive : ℕ → Bool) (s : ℕ) (ws : List ℕ) → AllLive alive ws → AllLive (update alive s true) ws
AllLive-accept alive s [] h = tt
AllLive-accept alive s (w ∷ ws) h = (ground arith, AllLive-accept alive s ws h.1)

module _ (b : Broker) (subs : Subscribers) (s : ℕ) (v : Implements b subs) where
  on_subscribe-Implements :
      (topic : ℕ)
      → b.alive s ≡ true
      → Implements (on_subscribe b topic s).0 (act (subscribe topic s) subs).0
  unfolding on_subscribe act
  on_subscribe-Implements topic l = record {
    valid = regist-IsRegistry topic s b.sessions v.valid;
    same = λ u. ground (arith, view-regist topic s b.sessions u, v.same u);
    live = added;
  }
    where
      added : (u : ℕ) → AllLive b.alive (if topic == u then subs u ++ s ∷ [] else subs u)
      added u = elim (Bool-cases (topic == u)) [
        | inl e ↦ rw e (AllLive-snoc b.alive s (subs u) (v.live u) l)
        | inr e ↦ rw e (v.live u)
      ]

  on_unsubscribe-Implements :
      b.alive s ≡ true → Implements (on_unsubscribe b s) (act (unsubscribe s) subs).0
  unfolding on_unsubscribe act
  on_unsubscribe-Implements l = record {
    valid = unregist-IsRegistry b.alive s b.sessions v.valid;
    same = λ u. view-unregist b.alive s b.sessions u l v.valid ∙ ap (without s) (v.same u);
    live = λ u. AllLive-without b.alive s (subs u) (v.live u);
  }

  on_disconnect-Implements :
      b.alive s ≡ true → Implements (on_disconnect b s) (act (unsubscribe s) subs).0
  unfolding on_disconnect act
  on_disconnect-Implements l = record {
    valid = (on_unsubscribe-Implements l).valid;
    same = (on_unsubscribe-Implements l).same;
    live = λ u. AllLive-expire b.alive s (subs u) (v.live u);
  }

  on_accept-Implements : Implements (on_accept b s) subs
  unfolding on_accept
  on_accept-Implements = record {
    valid = v.valid;
    same = v.same;
    live = λ u. AllLive-accept b.alive s (subs u) (v.live u);
  }

on_event-act :
    (b : Broker) (subs : Subscribers) (topic : ℕ) (payload : List ℕ)
    → Implements b subs
    → on_event b topic payload ≡ (act (publish topic payload) subs).1
unfolding on_event act
on_event-act b subs topic payload v =
    route-view b.alive topic payload b.sessions
    ∙ ap (map (λ w. (w, make topic data_frame payload)))
        (ap (live_of b.alive) (v.same topic) ∙ live_of-AllLive b.alive (subs topic) (v.live topic))

-- What a step must come to: a state that implements the new subscribers, and the promised frames.
abbrev Agrees : Subscribers × List Send → (ℕ → Bool) → Broker × List Send → Type 0
Agrees r alive o = Implements o.0 r.0 × (o.1 ≡ r.1) × (o.0.alive ≡ alive)

dispatch-Agrees :
    (b : Broker) (subs : Subscribers) (type : FrameType) (topic : ℕ) (payload : List ℕ) (s : ℕ)
    → Implements b subs
    → b.alive s ≡ true
    → Agrees
        (act (action_of_type type topic payload s) subs)
        b.alive
        (dispatch type topic payload s b)
unfolding dispatch action_of_type
dispatch-Agrees b subs regist topic payload s v l =
    (on_subscribe-Implements b subs s v topic l, sent, refl)
  where
    sent : (on_subscribe b topic s).1 ≡ (act (subscribe topic s) subs).1
    sent = unfold act in refl
dispatch-Agrees b subs unregist topic payload s v l =
    (on_unsubscribe-Implements b subs s v l, unfold act in refl, refl)
dispatch-Agrees b subs data_frame topic payload s v l =
    (unfold act in v, on_event-act b subs topic payload v, refl)
dispatch-Agrees b subs ack topic payload s v l = unfold act in (v, refl, refl)
dispatch-Agrees b subs (other n) topic payload s v l = unfold act in (v, refl, refl)

-- The sessions that are connected after an input.
abbrev connected : Input → (ℕ → Bool) → ℕ → Bool
connected (accepts s) alive = update alive s true
connected (receives s raw) alive = alive
connected (loses s) alive = update alive s false

abbrev Steps : Input → Broker → Subscribers → Type 0
Steps i b subs =
    (o : Broker × List Send) × (step i b ≡ some o)
    × Agrees (act (action i) subs) (connected i b.alive) o

receives-Steps :
    (b : Broker) (subs : Subscribers) (s : ℕ) (raw : List ℕ)
    → Implements b subs
    → b.alive s ≡ true
    → 3 ≤ length raw
    → Steps (receives s raw) b subs
unfolding step on_receive action
receives-Steps b subs s raw v l long = elim (Option-cases (parse raw)) [
  | inl e ↦ absurd (omega (arith, (parse-none_iff raw).0 e))
  | inr (f, e) ↦ (
    dispatch f.type f.topic f.payload s b,
    rw (e, on_receive),
    rw e (dispatch-Agrees b subs f.type f.topic f.payload s v l),
  )
]

accepts-Steps :
    (b : Broker) (subs : Subscribers) (s : ℕ) → Implements b subs → Steps (accepts s) b subs
unfolding step action act on_accept
accepts-Steps b subs s v =
    ((on_accept b s, []), refl, (on_accept-Implements b subs s v, refl, refl))

loses-Steps :
    (b : Broker) (subs : Subscribers) (s : ℕ)
    → Implements b subs
    → b.alive s ≡ true
    → Steps (loses s) b subs
unfolding step action on_disconnect
loses-Steps b subs s v l = (
  (on_disconnect b s, []),
  refl,
  (on_disconnect-Implements b subs s v l, unfold act in refl, refl),
)

-- One input, then the others.
run-Steps :
    (i : Input) (is : List Input) (b : Broker) (subs : Subscribers)
    → Steps i b subs
    → ((b' : Broker)
        → Implements b' (act (action i) subs).0
        → b'.alive ≡ connected i b.alive
        → run is b' ≡ some (spec_run is (act (action i) subs).0))
    → run (i ∷ is) b ≡ some (spec_run (i ∷ is) subs)
unfolding run spec_run
run-Steps i is b subs (o, e, (v, sent, alive)) rest =
    rw (e, run)
      (rw (rest o.0 v alive) (ap (λ l. some (l ++ spec_run is (act (action i) subs).0)) sent))

run-spec :
    (is : List Input) (b : Broker) (subs : Subscribers)
    → Implements b subs
    → Admissible b.alive is
    → run is b ≡ some (spec_run is subs)
run-spec [] b subs v ok = unfold run spec_run in refl
run-spec (accepts s ∷ is) b subs v ok =
    run-Steps (accepts s) is b subs (accepts-Steps b subs s v)
      λ b' v' e. run-spec is b' _ v' (rw e ok.1)
run-spec (receives s raw ∷ is) b subs v ok =
    run-Steps (receives s raw) is b subs (receives-Steps b subs s raw v ok.0 ok.1)
      λ b' v' e. run-spec is b' _ v' (rw e ok.2)
run-spec (loses s ∷ is) b subs v ok =
    run-Steps (loses s) is b subs (loses-Steps b subs s v ok.0)
      λ b' v' e. run-spec is b' _ v' (rw e ok.1)

-- From the start, and for any inputs that asio may deliver and whose frames have at least three
-- bytes, the broker never stops, and sends exactly the frames, in the same order, that its
-- specification sends: no subscriber is missed, and no pointer to a lost session is ever met.
pub broker_refines :
    (is : List Input)
    → Admissible (λ _. false) is
    → run is no_sessions ≡ some (spec_run is (λ _. []))
broker_refines is ok = run-spec is no_sessions (λ _. []) fresh ok
  where
    fresh : Implements no_sessions (λ _. [])
    fresh = record { valid = tt; same = λ u. unfold view in refl; live = λ u. tt }
