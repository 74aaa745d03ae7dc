-- ===== src/Asio/Registry/Laws.antt =====
-- The registry as a map from topics to subscribers, in the order of registration.
use common_lib.Common.{
  ℕ, ◌≡◌, ◌≢◌, refl, ap, sym, ◌∙◌, inl, inr, arith, Bool, true, List, [], ◌∷◌, ◌++◌, map,
  if◌then◌else◌, ◌==◌, ==_iff, Bool-cases,
}
use common_lib.Communication.Frame.{data_frame, make}
use common_lib.Asio.Registry.{
  Sessions, find, regist, remove_session, unregist, send_live, route, keep_entry,
}

-- The subscribers of a topic.
unfoldable pub view : Sessions → ℕ → List ℕ
view [] topic = []
view ((t, ss) ∷ m) topic = if t == topic then ss else view m topic

-- No topic has two entries, and no entry is empty.
abbrev pub Absent : ℕ → Sessions → Type 0
Absent topic [] = Unit
Absent topic ((t, ss) ∷ m) = (t ≢ topic) × Absent topic m

abbrev pub IsRegistry : Sessions → Type 0
IsRegistry [] = Unit
IsRegistry ((t, ss) ∷ m) = Absent t m × (ss ≢ []) × IsRegistry m

-- A list without the entries of one session.
unfoldable pub without : ℕ → List ℕ → List ℕ
without s [] = []
without s (w ∷ ws) = if w == s then without s ws else w ∷ without s ws

view-Absent : (topic : ℕ) (m : Sessions) → Absent topic m → view m topic ≡ []
unfolding view
view-Absent topic [] h = refl
view-Absent topic ((t, ss) ∷ m) h = ground (arith, view-Absent topic m h.1)

-- Registering adds the session at the end of its topic, and leaves the other topics alone.
pub view-regist :
    (topic s : ℕ) (m : Sessions) (u : ℕ)
    → view (regist topic s m) u ≡ (if topic == u then view m u ++ s ∷ [] else view m u)
unfolding view regist
view-regist topic s [] u = ground arith
view-regist topic s ((t, ss) ∷ m) u = ground (arith, view-regist topic s m u)

Absent-regist :
    (topic s t : ℕ) (m : Sessions) → t ≢ topic → Absent t m → Absent t (regist topic s m)
unfolding regist
Absent-regist topic s t [] h a = (λ e. h (sym e), tt)
Absent-regist topic s t ((v, ss) ∷ m) h a = elim (Bool-cases (v == topic)) [
  | inl e ↦ rw e (a.0, a.1)
  | inr e ↦ rw e (a.0, Absent-regist topic s t m h a.1)
]

snoc-ne-nil : (ss : List ℕ) (s : ℕ) → ss ++ s ∷ [] ≢ []
snoc-ne-nil [] s e = cc
snoc-ne-nil (w ∷ ws) s e = cc

pub regist-IsRegistry : (topic s : ℕ) (m : Sessions) → IsRegistry m → IsRegistry (regist topic s m)
unfolding regist
regist-IsRegistry topic s [] v = (tt, λ e. cc, tt)
regist-IsRegistry topic s ((t, ss) ∷ m) v = elim (Bool-cases (t == topic)) [
  | inl e ↦ rw e (v.0, snoc-ne-nil ss s, v.2)
  | inr e ↦
      rw e (Absent-regist topic s t m (ground arith) v.0, v.1, regist-IsRegistry topic s m v.2)
]

view-keep_entry :
    (t : ℕ) (ss : List ℕ) (m : Sessions) (u : ℕ)
    → Absent t m
    → view (keep_entry t ss m) u ≡ (if t == u then ss else view m u)
unfolding view keep_entry
view-keep_entry t [] m u a = elim (Bool-cases (t == u)) [
  | inl e ↦ rw e (ap (view m) (sym ((==_iff t u).0 e)) ∙ view-Absent t m a)
  | inr e ↦ rw e
]
view-keep_entry t (w ∷ ws) m u a = refl

Absent-keep_entry :
    (t u : ℕ) (ss : List ℕ) (m : Sessions) → t ≢ u → Absent u m → Absent u (keep_entry t ss m)
unfolding keep_entry
Absent-keep_entry t u [] m h a = a
Absent-keep_entry t u (w ∷ ws) m h a = (h, a)

keep_entry-IsRegistry :
    (t : ℕ) (ss : List ℕ) (m : Sessions)
    → Absent t m
    → IsRegistry m
    → IsRegistry (keep_entry t ss m)
unfolding keep_entry
keep_entry-IsRegistry t [] m a v = v
keep_entry-IsRegistry t (w ∷ ws) m a v = (a, λ e. cc, v)

module _ (alive : ℕ → Bool) (s : ℕ) where
  Absent-unregist : (t : ℕ) (m : Sessions) → Absent t m → Absent t (unregist alive s m)
  unfolding unregist
  Absent-unregist t [] a = tt
  Absent-unregist t ((v, ss) ∷ m) a =
      Absent-keep_entry v t (remove_session alive s ss) _ a.0 (Absent-unregist t m a.1)

  pub unregist-IsRegistry : (m : Sessions) → IsRegistry m → IsRegistry (unregist alive s m)
  unfolding unregist
  unregist-IsRegistry [] v = tt
  unregist-IsRegistry ((t, ss) ∷ m) v =
      keep_entry-IsRegistry t (remove_session alive s ss) _ (Absent-unregist t m v.0)
        (unregist-IsRegistry m v.2)

  remove_session-without : (ws : List ℕ) → alive s ≡ true → remove_session alive s ws ≡ without s ws
  unfolding remove_session without
  remove_session-without [] live = refl
  remove_session-without (w ∷ ws) live = elim (Bool-cases (w == s)) [
    | inl e ↦
        let at_s : alive w ≡ true = ap alive ((==_iff w s).0 e) ∙ live in
        rw (e, at_s) (remove_session-without ws live)
    | inr e ↦ ground (arith, remove_session-without ws live)
  ]

  -- Unregistering a live session takes it out of every topic, and nothing else.
  pub view-unregist :
      (m : Sessions) (u : ℕ)
      → alive s ≡ true
      → IsRegistry m
      → view (unregist alive s m) u ≡ without s (view m u)
  unfolding view unregist without
  view-unregist [] u live v = refl
  view-unregist ((t, ss) ∷ m) u live v =
      view-keep_entry t (remove_session alive s ss) (unregist alive s m) u (Absent-unregist t m v.0)
      ∙ ground (arith, remove_session-without ss live, view-unregist m u live v.2)

-- Only the pointers that lock.
unfoldable pub live_of : (ℕ → Bool) → List ℕ → List ℕ
live_of alive [] = []
live_of alive (w ∷ ws) = if alive w then w ∷ live_of alive ws else live_of alive ws

send_live-map :
    (alive : ℕ → Bool) (bytes ws : List ℕ)
    → send_live alive bytes ws ≡ map (λ w. (w, bytes)) (live_of alive ws)
unfolding send_live live_of
send_live-map alive bytes [] = refl
send_live-map alive bytes (w ∷ ws) = ground (arith, send_live-map alive bytes ws)

-- An event goes to the live subscribers of its topic, once for each registration, in order.
pub route-view :
    (alive : ℕ → Bool) (topic : ℕ) (payload : List ℕ) (m : Sessions)
    → route alive topic payload m
      ≡ map (λ w. (w, make topic data_frame payload)) (live_of alive (view m topic))
unfolding route find view live_of
route-view alive topic payload [] = refl
route-view alive topic payload ((t, ss) ∷ m) = ground (
  arith,
  route-view alive topic payload m,
  send_live-map alive (make topic data_frame payload) ss,
)
