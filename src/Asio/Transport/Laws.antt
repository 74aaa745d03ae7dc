-- ===== src/Asio/Transport/Laws.antt =====
-- What a publisher sends reaches the handler of a subscriber.
use common_lib.Common.{
  ℕ, ◌<◌, ◌^◌, ◌≡◌, refl, ap, sym, ◌∙◌, Bool, true, some, List, [], ◌∷◌, ◌++◌, map, append_assoc,
  append-nil, if◌then◌else◌,
}
use common_lib.Communication.Frame.{data_frame, make}
use common_lib.Communication.Frame.Laws.{parse-make}
use common_lib.Asio.Transport.{
  Task, publishes, resting, sending, Transport, Effect, sends, on_message, Outcome, done, crashed,
  publish, send_data, perform, begin, begin_first, deliver, deliver_frame, on_receive, Move,
  calls_publish, strand_goes, receives_raw, step, later, run,
}

later-nil : (o : Outcome) → later [] o ≡ o
unfolding later
later-nil (done t effects) = refl
later-nil crashed = refl

run-step :
    (m : Move) (ms : List Move) (t t' : Transport) (effects : List Effect)
    → step m t ≡ done t' effects
    → run (m ∷ ms) t ≡ later effects (run ms t')
unfolding run
run-step m ms t t' effects e = ap next e
  where
    next : Outcome → Outcome
    next o = elim o [ done t'' more ↦ later more (run ms t'') | crashed ↦ crashed ]

-- The calls of `publish`, the tasks that they put on the strand, and what performs these.
abbrev pub all_published : List (List ℕ) → List Move
all_published payloads = map calls_publish payloads

abbrev tasks : List (List ℕ) → List Task
tasks payloads = map publishes payloads

abbrev pub all_performed : List (List ℕ) → List Move
all_performed [] = []
all_performed (payload ∷ payloads) = strand_goes ∷ strand_goes ∷ all_performed payloads

abbrev pub frames : ℕ → List (List ℕ) → List (List ℕ)
frames topic payloads = map (make topic data_frame) payloads

run-published :
    (payloads : List (List ℕ)) (ms : List Move) (t : Transport)
    → run (all_published payloads ++ ms) t
      ≡ run ms (record t { strand = t.strand ++ tasks payloads })
run-published [] ms t = ap (λ l. run ms (record t { strand = l })) (sym (append-nil t.strand))
run-published (p ∷ payloads) ms t =
    run-step (calls_publish p) (all_published payloads ++ ms) t
      (record t { strand = t.strand ++ publishes p ∷ [] }) [] (unfold step publish in refl)
    ∙ later-nil
        (run (all_published payloads ++ ms) (record t { strand = t.strand ++ publishes p ∷ [] }))
    ∙ run-published payloads ms (record t { strand = t.strand ++ publishes p ∷ [] })
    ∙ ap (λ l. run ms (record t { strand = l }))
        (append_assoc t.strand (publishes p ∷ []) (tasks payloads))

run-performed :
    (payloads : List (List ℕ)) (t : Transport) (s : ℕ)
    → t.connected ≡ true
    → t.socket ≡ some s
    → t.doing ≡ resting
    → t.strand ≡ tasks payloads
    → run (all_performed payloads) t
      ≡ done (record t { strand = [] }) (map (sends s) (frames t.topic payloads))
unfolding run later step perform begin_first begin send_data
run-performed [] t s c k d e = ap (λ l. done (record t { strand = l }) []) e
run-performed (p ∷ payloads) t s c k d e =
    run-step strand_goes (strand_goes ∷ all_performed payloads) t t1 [] begins
    ∙ later-nil (run (strand_goes ∷ all_performed payloads) t1)
    ∙ run-step strand_goes (all_performed payloads) t1 t2 (sends s (make t.topic data_frame p) ∷ [])
        performs
    ∙ ap (later (sends s (make t.topic data_frame p) ∷ []))
        (run-performed payloads t2 s c k refl refl)
    ∙ ap
        (λ x.
          done (record t { strand = []; doing = x })
            (sends s (make t.topic data_frame p) ∷ map (sends s) (frames t.topic payloads)))
        (sym d)
  where
    t1 : Transport
    t1 = record t { strand = tasks payloads; doing = sending p }

    t2 : Transport
    t2 = record t { strand = tasks payloads; doing = resting }

    begins : step strand_goes t ≡ done t1 []
    begins =
        ap (λ x. perform x t) d
        ∙ ap (λ l. begin_first l t) e
        ∙ ap (λ b. done (if b then t1 else record t { strand = tasks payloads }) []) c

    performs : step strand_goes t1 ≡ done t2 (sends s (make t.topic data_frame p) ∷ [])
    performs = ap (λ x. send_data x p t2) k

run-received :
    (topic : ℕ) (payloads : List (List ℕ)) (subscribed : Bool) (t : Transport)
    → topic < 2 ^ 16
    → run (map (receives_raw subscribed) (frames topic payloads)) t
      ≡ done t (map on_message payloads)
unfolding run later step on_receive deliver_frame deliver
run-received topic [] subscribed t h = refl
run-received topic (p ∷ payloads) subscribed t h =
    run-step (receives_raw subscribed (make topic data_frame p))
      (map (receives_raw subscribed) (frames topic payloads)) t t (on_message p ∷ []) received
    ∙ ap (later (on_message p ∷ [])) (run-received topic payloads subscribed t h)
  where
    received :
        step (receives_raw subscribed (make topic data_frame p)) t ≡ done t (on_message p ∷ [])
    received = ap (λ f. deliver_frame subscribed f t) (parse-make topic data_frame p h tt)

-- A connected publisher whose strand is empty and at rest, with a topic of 16 bits: after any number of calls of
-- `publish`, its strand sends one frame for each on its socket, in the order of the calls. A
-- subscriber, with `onSubscribed` or without, that receives these frames in this order hands each
-- payload to `onMessage` once, in the order of the calls, and does nothing else.
pub publish-receive :
    (payloads : List (List ℕ)) (publisher subscriber : Transport) (s : ℕ) (subscribed : Bool)
    → publisher.connected ≡ true
    → publisher.socket ≡ some s
    → publisher.strand ≡ []
    → publisher.doing ≡ resting
    → publisher.topic < 2 ^ 16
    → (run (all_published payloads ++ all_performed payloads) publisher
        ≡ done publisher (map (sends s) (frames publisher.topic payloads)))
      × (run (map (receives_raw subscribed) (frames publisher.topic payloads)) subscriber
          ≡ done subscriber (map on_message payloads))
publish-receive payloads p q s subscribed c k e d h = (
  run-published payloads (all_performed payloads) p
      ∙ run-performed payloads (record p { strand = p.strand ++ tasks payloads }) s c k d
          (ap (λ l. l ++ tasks payloads) e)
      ∙ ap (λ l. done (record p { strand = l }) (map (sends s) (frames p.topic payloads))) (sym e),
  run-received p.topic payloads subscribed q h,
)
