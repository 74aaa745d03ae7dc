-- ===== src/Asio/Broker/Spec.antt =====
-- What the broker promises its clients: a map from topics to subscribers, with no registry, no
-- weak pointers and no bytes to parse.
use common_lib.Common.{
  ℕ, Bool, true, false, Option, none, some, List, [], ◌∷◌, ◌++◌, map, length, if◌then◌else◌, ◌==◌,
  ◌≤◌, ◌≡◌,
}
use common_lib.Communication.Frame.{
  FrameType, regist, unregist, data_frame, ack, other, Frame, parse, make,
}
use common_lib.Asio.Registry.{Send}
use common_lib.Asio.Registry.Laws.{without}
use common_lib.Asio.Broker.{update, Input, accepts, receives, loses}

abbrev pub Subscribers : Type 0
Subscribers = ℕ → List ℕ

pub data Action : Type 0 where
  subscribe : ℕ → ℕ → Action
  unsubscribe : ℕ → Action
  publish : ℕ → List ℕ → Action
  nothing : Action

unfoldable pub action_of_type : FrameType → ℕ → List ℕ → ℕ → Action
action_of_type regist topic payload s = subscribe topic s
action_of_type unregist topic payload s = unsubscribe s
action_of_type data_frame topic payload s = publish topic payload
action_of_type ack topic payload s = nothing
action_of_type (other n) topic payload s = nothing

unfoldable pub action_of_frame : ℕ → Option Frame → Action
action_of_frame s none = nothing
action_of_frame s (some f) = action_of_type f.type f.topic f.payload s

unfoldable pub action : Input → Action
unfolding action_of_frame
action (accepts s) = nothing
action (receives s raw) = action_of_frame s (parse raw)
action (loses s) = unsubscribe s

-- A subscriber is acknowledged; an event goes to every subscriber of its topic.
unfoldable pub act : Action → Subscribers → Subscribers × List Send
act (subscribe topic s) subs =
    (λ u. if topic == u then subs u ++ s ∷ [] else subs u, (s, make topic ack []) ∷ [])
act (unsubscribe s) subs = (λ u. without s (subs u), [])
act (publish topic payload) subs =
    (subs, map (λ s. (s, make topic data_frame payload)) (subs topic))
act nothing subs = (subs, [])

unfoldable pub spec_run : List Input → Subscribers → List Send
spec_run [] subs = []
spec_run (i ∷ is) subs = let (subs', sends) = act (action i) subs in sends ++ spec_run is subs'

-- asio delivers frames and errors of connected sessions only, each new session is another one, and
-- no client sends a frame below three bytes.
abbrev pub Admissible : (ℕ → Bool) → List Input → Type 0
Admissible alive [] = Unit
Admissible alive (accepts s ∷ is) = (alive s ≡ false) × Admissible (update alive s true) is
Admissible alive (receives s raw ∷ is) = (alive s ≡ true) × (3 ≤ length raw) × Admissible alive is
Admissible alive (loses s ∷ is) = (alive s ≡ true) × Admissible (update alive s false) is
