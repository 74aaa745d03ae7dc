-- ===== src/Asio/Registry.antt =====
-- `TopicRegistry` of common/src/asio/AsyncEventBroker.cpp. A session is named by a number, and
-- `alive` says which weak pointers still lock. The `unordered_map` is an association list; each
-- call holds `_lock` throughout, so it is one step.
pub mod Laws
mod Tests
use common_lib.Common.{
  ℕ, Bool, true, false, not, ◌&&◌, Option, none, some, List, [], ◌∷◌, ◌++◌, if◌then◌else◌, ◌==◌,
}
use common_lib.Communication.Frame.{data_frame, make}

-- `_sessions`.
abbrev pub Sessions : Type 0
Sessions = List (ℕ × List ℕ)

-- A frame handed to `ClientSession::send`, with the session.
abbrev pub Send : Type 0
Send = ℕ × List ℕ

unfoldable pub find : ℕ → Sessions → Option (List ℕ)
find topic [] = none
find topic ((t, ss) ∷ m) = if t == topic then some ss else find topic m

-- `operator[]` makes an empty entry for a new topic.
unfoldable pub regist : ℕ → ℕ → Sessions → Sessions
regist topic session [] = (topic, session ∷ []) ∷ []
regist topic session ((t, ss) ∷ m) =
    if t == topic then (t, ss ++ session ∷ []) ∷ m else (t, ss) ∷ regist topic session m

unfoldable pub keep_entry : ℕ → List ℕ → Sessions → Sessions
keep_entry topic [] m = m
keep_entry topic (w ∷ ws) m = (topic, w ∷ ws) ∷ m

module _ (alive : ℕ → Bool) where
  -- `remove_if`: an expired pointer stays.
  unfoldable pub remove_session : ℕ → List ℕ → List ℕ
  remove_session session [] = []
  remove_session session (w ∷ ws) =
      if alive w && w == session then remove_session session ws else w ∷ remove_session session ws

  -- An entry that has become empty is erased.
  unfoldable pub unregist : ℕ → Sessions → Sessions
  unregist session [] = []
  unregist session ((t, ss) ∷ m) = keep_entry t (remove_session session ss) (unregist session m)

  unfoldable pub send_live : List ℕ → List ℕ → List Send
  send_live bytes [] = []
  send_live bytes (w ∷ ws) = if alive w then (w, bytes) ∷ send_live bytes ws else send_live bytes ws

  unfoldable pub route : ℕ → List ℕ → Sessions → List Send
  route topic payload m = elim (find topic m) [
    | none ↦ []
    | some ss ↦ send_live (make topic data_frame payload) ss
  ]
