-- ===== src/Container/SizedQueue/Laws.antt =====
-- The bounded queue holds the latest entries.
use native.Mathlib.Decide.{dec_lt}
use common_lib.Common.{
  ℕ, suc, ◌+◌, ◌-◌, ◌≤◌, ◌<◌, ◌≡◌, ap, ◌∙◌, arith, List, [], ◌∷◌, ◌++◌, append_assoc, length,
  length-append, drop, drop-append_le, drop-drop, drop-cong, append-nil, length-drop, sym,
}
use common_lib.Container.SizedQueue.{emplace_back, push_back, push_all}

module _ {ℓ} {A : Type ℓ} (limit : ℕ) where
  push_back-full :
      (q : List A) (x : A) → 0 < limit → length q ≡ limit → push_back limit q x ≡ drop 1 q ++ x ∷ []
  unfolding push_back emplace_back
  push_back-full [] x h e = absurd (omega arith)
  push_back-full (y ∷ q) x h e = ground arith

  push_back-room : (q : List A) (x : A) → length q < limit → push_back limit q x ≡ q ++ x ∷ []
  unfolding push_back emplace_back
  push_back-room q x h = ground arith

  -- A push drops just what exceeds the limit, and adds the new entry at the end.
  push_back-drop :
      (q : List A) (x : A)
      → 0 < limit
      → length q ≤ limit
      → push_back limit q x ≡ drop (length q + 1 - limit) (q ++ x ∷ [])
  push_back-drop q x h room = elim (dec_lt (length q) limit) [
    | yes lt ↦
        push_back-room q x lt ∙ drop-cong 0 (length q + 1 - limit) (q ++ x ∷ []) (omega arith)
    | no ge ↦
        push_back-full q x h (omega arith)
        ∙ sym (drop-append_le 1 q (x ∷ []) (omega arith))
        ∙ drop-cong 1 (length q + 1 - limit) (q ++ x ∷ []) (omega arith)
  ]

  -- Pushed to in any order, a queue within its limit holds the latest entries, as many as fit.
  pub push_all_lem :
      (q xs : List A)
      → 0 < limit
      → length q ≤ limit
      → push_all limit q xs ≡ drop (length q + length xs - limit) (q ++ xs)
  unfolding push_all
  push_all_lem q [] h room =
      sym (append-nil q) ∙ drop-cong 0 (length q + 0 - limit) (q ++ []) (omega arith)
  push_all_lem q (x ∷ xs) h room = rw (push_back-drop q x h room) (
      push_all_lem (drop d (q ++ x ∷ [])) xs h small
      ∙ ap (drop rest) (sym (drop-append_le d (q ++ x ∷ []) xs dropped))
      ∙ drop-drop rest d ((q ++ x ∷ []) ++ xs)
      ∙ drop-cong (d + rest) (length q + suc (length xs) - limit) ((q ++ x ∷ []) ++ xs)
          (omega (arith, kept))
      ∙ ap (drop (length q + suc (length xs) - limit)) (append_assoc q (x ∷ []) xs))
    where
      d : ℕ
      d = length q + 1 - limit

      rest : ℕ
      rest = length (drop d (q ++ x ∷ [])) + length xs - limit

      kept : length (drop d (q ++ x ∷ [])) ≡ length q + 1 - d
      kept = omega (arith, length-drop d (q ++ x ∷ []), length-append q (x ∷ []))

      small : length (drop d (q ++ x ∷ [])) ≤ limit
      small = omega (arith, kept)

      dropped : d ≤ length (q ++ x ∷ [])
      dropped = omega (arith, length-append q (x ∷ []))
