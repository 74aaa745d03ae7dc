-- ===== src/Communication/Uart/Laws.antt =====
-- What `readline` returns, without its loop and whatever the chunks.
use common_lib.Common.{
  ℕ, zero, suc, ◌<◌, ◌≡◌, ◌≢◌, refl, ap, sym, ◌∙◌, inl, inr, arith, Bool, true, false, List, [],
  ◌∷◌, ◌++◌, append_assoc, append-nil, length, if◌then◌else◌, ◌==◌, Bool-cases, All, subst,
}
use common_lib.Communication.Uart.Line.{
  null_end, line_feed, carriage_return, end_of_line, Scan, feed, scan, readline_from, readline,
}

-- All that the system delivers.
unfoldable pub delivered : List (List ℕ) → List ℕ
delivered [] = []
delivered (chunk ∷ chunks) = chunk ++ delivered chunks

-- Up to and including the first `c`.
unfoldable pub upto : ℕ → List ℕ → List ℕ
upto c [] = []
upto c (x ∷ xs) = if x == c then x ∷ [] else x ∷ upto c xs

-- The same for CR LF, after a CR or not, as the code does it: a CR that neither LF nor CR follows
-- comes twice.
unfoldable pub upto_crlf : Bool → List ℕ → List ℕ
upto_crlf after_cr [] = []
upto_crlf false (x ∷ xs) = x ∷ upto_crlf (x == 13) xs
upto_crlf true (x ∷ xs) =
    if x == 10
    then x ∷ []
    else if x == 13
    then 13 ∷ upto_crlf true xs
    else 13 ∷ x ∷ upto_crlf false xs

-- The rest of the line, by the bytes of the terminator that are matched.
abbrev Rest : Type 0
Rest = ℕ → List ℕ → List ℕ

-- What a step of the loop leaves of the line that is to come, `whole`: all of it once `readline`
-- returns, and the rest of it before.
abbrev Follows : List ℕ → Rest → List ℕ → List ℕ → Bool × Scan → Type 0
Follows end rest xs whole (true, s) = s.line ≡ whole
Follows end rest xs whole (false, s) =
    (s.end_idx < length end) × (s.line ++ rest s.end_idx xs ≡ whole)

abbrev Feeds : List ℕ → Rest → Type 0
Feeds end rest =
    (i ch : ℕ) (xs l : List ℕ)
    → i < length end
    → Follows end rest xs (l ++ rest i (ch ∷ xs)) (feed end ch (record { end_idx = i; line = l }))

module _ (end : List ℕ) (rest : Rest) where
  scan-go :
      (chs more whole : List ℕ) (o : Bool × Scan)
      → ((l : List ℕ) (i : ℕ)
          → i < length end
          → Follows end rest more
              (l ++ rest i (chs ++ more))
              (scan end chs (record { end_idx = i; line = l })))
      → Follows end rest (chs ++ more) whole o
      → Follows end rest more whole (if o.0 then (true, o.1) else scan end chs o.1)
  scan-go chs more whole (true, s) ih f = f
  scan-go chs more whole (false, s) ih f =
      subst (λ w. Follows end rest more w (scan end chs s)) f.1 (ih s.line s.end_idx f.0)

  scan-Follows :
      (chunk more l : List ℕ) (i : ℕ)
      → Feeds end rest
      → i < length end
      → Follows end rest more
          (l ++ rest i (chunk ++ more))
          (scan end chunk (record { end_idx = i; line = l }))
  unfolding scan
  scan-Follows [] more l i fed h = (h, refl)
  scan-Follows (ch ∷ chs) more l i fed h =
      scan-go chs more _ (feed end ch (record { end_idx = i; line = l }))
        (λ l' i' h'. scan-Follows chs more l' i' fed h') (fed i ch (chs ++ more) l h)

  readline-go :
      (chunks : List (List ℕ)) (whole : List ℕ) (o : Bool × Scan)
      → ((l : List ℕ) (i : ℕ)
          → i < length end
          → (readline_from end chunks (record { end_idx = i; line = l })).0
            ≡ l ++ rest i (delivered chunks))
      → Follows end rest (delivered chunks) whole o
      → (if o.0 then (o.1.line, chunks) else readline_from end chunks o.1).0 ≡ whole
  readline-go chunks whole (true, s) ih f = f
  readline-go chunks whole (false, s) ih f = ih s.line s.end_idx f.0 ∙ f.1

  readline_from-rest :
      (chunks : List (List ℕ)) (l : List ℕ) (i : ℕ)
      → ((j : ℕ) → rest j [] ≡ [])
      → Feeds end rest
      → i < length end
      → (readline_from end chunks (record { end_idx = i; line = l })).0
        ≡ l ++ rest i (delivered chunks)
  unfolding readline_from delivered
  readline_from-rest [] l i ended fed h = sym (append-nil l) ∙ ap (λ r. l ++ r) (sym (ended i))
  readline_from-rest (chunk ∷ chunks) l i ended fed h =
      readline-go chunks _ (scan end chunk (record { end_idx = i; line = l }))
        (λ l' i' h'. readline_from-rest chunks l' i' ended fed h')
        (scan-Follows chunk (delivered chunks) l i fed h)

upto-nil : (c : ℕ) → upto c [] ≡ []
unfolding upto
upto-nil c = refl

one-Feeds : (c : ℕ) → Feeds (c ∷ []) (λ i. upto c)
unfolding feed upto
one-Feeds c zero ch xs l h = elim (Bool-cases (ch == c)) [
  | inl e ↦ rw e refl
  | inr e ↦ rw e (omega arith, append_assoc l (ch ∷ []) (upto c xs))
]
one-Feeds c (suc i) ch xs l h = absurd (omega arith)

-- After `i` matched bytes of CR LF.
abbrev crlf_rest : Rest
crlf_rest zero = upto_crlf false
crlf_rest (suc i) = upto_crlf true

crlf-Feeds : Feeds (13 ∷ 10 ∷ []) crlf_rest
unfolding feed upto_crlf
crlf-Feeds zero ch xs l h = elim (Bool-cases (ch == 13)) [
  | inl e ↦ rw e (omega arith, append_assoc l (ch ∷ []) _)
  | inr e ↦ rw e (omega arith, append_assoc l (ch ∷ []) _)
]
crlf-Feeds (suc zero) ch xs l h = elim (Bool-cases (ch == 10)) [
  | inl e ↦ rw e refl
  | inr e ↦ elim (Bool-cases (ch == 13)) [
    | inl e' ↦ rw (e, e') (omega arith, append_assoc l (13 ∷ []) _)
    | inr e' ↦ rw (e, e') (omega arith, simp append_assoc)
  ]
]
crlf-Feeds (suc (suc i)) ch xs l h = absurd (omega arith)

-- For a terminator of one byte the line is what is delivered up to its first occurrence, or all of
-- it, however the bytes are cut into chunks.
pub readline-one_byte :
    (chunks : List (List ℕ))
    → ((readline null_end chunks).0 ≡ upto 0 (delivered chunks))
      × ((readline line_feed chunks).0 ≡ upto 10 (delivered chunks))
unfolding readline end_of_line
readline-one_byte chunks = (one 0, one 10)
  where
    one :
        (c : ℕ)
        → (readline_from (c ∷ []) chunks (record { end_idx = 0; line = [] })).0
          ≡ upto c (delivered chunks)
    one c =
        readline_from-rest (c ∷ []) (λ i. upto c) chunks [] 0 (λ j. upto-nil c) (one-Feeds c)
          (omega arith)

crlf_rest-nil : (j : ℕ) → crlf_rest j [] ≡ []
unfolding upto_crlf
crlf_rest-nil zero = refl
crlf_rest-nil (suc j) = refl

pub readline-crlf :
    (chunks : List (List ℕ))
    → (readline carriage_return chunks).0 ≡ upto_crlf false (delivered chunks)
unfolding readline end_of_line
readline-crlf chunks =
    readline_from-rest (13 ∷ 10 ∷ []) crlf_rest chunks [] 0 crlf_rest-nil crlf-Feeds (omega arith)

abbrev pub Lacks : ℕ → List ℕ → Type 0
Lacks c = All (λ x. x ≢ c)

upto_crlf-append :
    (body xs : List ℕ) → Lacks 13 body → upto_crlf false (body ++ xs) ≡ body ++ upto_crlf false xs
unfolding upto_crlf
upto_crlf-append [] xs h = refl
upto_crlf-append (x ∷ body) xs h = ground (arith, upto_crlf-append body xs h.1)

-- With CR LF as terminator, a text without a CR before it is returned whole, with the terminator.
pub readline-crlf_line :
    (chunks : List (List ℕ)) (body tail : List ℕ)
    → Lacks 13 body
    → delivered chunks ≡ body ++ 13 ∷ 10 ∷ tail
    → (readline carriage_return chunks).0 ≡ body ++ 13 ∷ 10 ∷ []
readline-crlf_line chunks body tail h e =
    readline-crlf chunks
    ∙ ap (upto_crlf false) e
    ∙ upto_crlf-append body (13 ∷ 10 ∷ tail) h
    ∙ unfold upto_crlf in refl

-- A CR that neither LF nor CR follows stands twice in the line, though it was delivered once.
pub readline-doubles_cr :
    (chunks : List (List ℕ)) (body tail : List ℕ) (x : ℕ)
    → Lacks 13 body
    → x ≢ 10
    → x ≢ 13
    → delivered chunks ≡ body ++ 13 ∷ x ∷ tail
    → (readline carriage_return chunks).0 ≡ body ++ 13 ∷ 13 ∷ x ∷ upto_crlf false tail
unfolding upto_crlf
readline-doubles_cr chunks body tail x h lf cr e =
    readline-crlf chunks
    ∙ ap (upto_crlf false) e
    ∙ upto_crlf-append body (13 ∷ x ∷ tail) h
    ∙ ap (λ l. body ++ 13 ∷ l) lone
  where
    lone : upto_crlf true (x ∷ tail) ≡ 13 ∷ x ∷ upto_crlf false tail
    lone = ground arith

scan-upto :
    (body tail l : List ℕ) (c : ℕ)
    → Lacks c body
    → scan (c ∷ []) (body ++ c ∷ tail) (record { end_idx = 0; line = l })
      ≡ (true, record { end_idx = 1; line = l ++ body ++ c ∷ [] })
unfolding scan feed
scan-upto [] tail l c h = ground (arith, append-nil l)
scan-upto (x ∷ body) tail l c h = ground (
  arith,
  scan-upto body tail (l ++ x ∷ []) c h.1,
  append_assoc l (x ∷ []) (body ++ c ∷ []),
  append_assoc l (x ∷ []) body,
  append_assoc (l ++ x ∷ []) body (c ∷ []),
  append_assoc l body (c ∷ []),
)

-- What stands behind the line feed in the chunk that holds it is lost: it is neither in the line
-- nor left for a later call.
pub readline-drops_rest :
    (body rest : List ℕ) (chunks : List (List ℕ))
    → Lacks 10 body
    → readline line_feed ((body ++ 10 ∷ rest) ∷ chunks) ≡ (body ++ 10 ∷ [], chunks)
unfolding readline readline_from end_of_line
readline-drops_rest body rest chunks h = rw (scan-upto body rest [] 10 h)
