-- ===== src/Pipeline/TaskConsumer/Ordered.antt =====
-- What becomes of the messages that the consumer of tasks has acknowledged.
use mathlib.Core.Path.{subst}
use mathlib.Core.List.{append_assoc, append-nil}
use ormus.Prelude.{
  ◌≤◌, ◌≡◌, refl, sym, ap, ◌∙◌, arith, Option, none, some, List, [], ◌∷◌, ◌++◌, Outcome, ok, err,
  panic, Error, ltb, length, length-append, Bool, Bool-cases, inl, inr,
}
use ormus.Prelude.TakeAt.{count, count-append}
use ormus.Event.{ProcessedEvent}
use ormus.Pipeline.TaskConsumer.{
  Phase, selecting, sending, returned, crashed, Consumer, Step, take, send, get, stop, change,
  channel_size, new_consumer, phase_of, after_ack, take_next, send_next, stop_next, handed_out,
  step, run,
}

-- The event that the loop is about to send.
abbrev pub held : Phase → List ProcessedEvent
held selecting = []
held (sending e) = e ∷ []
held returned = []
held crashed = []

abbrev pub event_of : Outcome ProcessedEvent → List ProcessedEvent
event_of (ok e) = e ∷ []
event_of (err x) = []
event_of panic = []

module _ {B Body : Type 0} (ack : B → Option Error × B)
    (decode : Body → Outcome ProcessedEvent) where
  -- The events of messages, in their order.
  abbrev pub events_of : List Body → List ProcessedEvent
  events_of [] = []
  events_of (body ∷ bodies) = event_of (decode body) ++ events_of bodies

  events_of-last :
      (bodies : List Body) (body : Body)
      → events_of (bodies ++ body ∷ []) ≡ events_of bodies ++ event_of (decode body)
  events_of-last [] body = append-nil (event_of (decode body))
  events_of-last (x ∷ bodies) body =
      ap (λ es. event_of (decode x) ++ es) (events_of-last bodies body)
      ∙ sym (append_assoc (event_of (decode x)) (events_of bodies) (event_of (decode body)))

  held-phase_of : (o : Outcome ProcessedEvent) → held (phase_of ack decode o) ≡ event_of o
  held-phase_of (ok e) = refl
  held-phase_of (err x) = refl
  held-phase_of panic = refl

  abbrev pub Lines : List ProcessedEvent → Phase → Consumer B Body → Type 0
  Lines events p c = events_of c.acked ≡ c.got ++ (events ++ held p)

  pub record Ordered (c : Consumer B Body) : Type 0 where
    pub in_order : Lines c.events c.phase c
    pub part : (a : Body → Bool) → count a c.acked ≤ count a c.taken
    pub bounded : length c.events ≤ channel_size

  after_ack-Ordered :
      (body : Body) (r : Option Error × B) (c : Consumer B Body)
      → c.phase ≡ selecting
      → Ordered c
      → Ordered (after_ack ack decode body r c)
  after_ack-Ordered body (some x, b) c e v = record {
    in_order = v.in_order;
    part = λ a. let old = v.part a in ground (arith, old, count-append a c.taken (body ∷ []));
    bounded = v.bounded;
  }
  after_ack-Ordered body (none, b) c e v = record {
    in_order =
        events_of-last c.acked body
        ∙ ap (λ es. es ++ event_of (decode body)) (subst (λ q. Lines c.events q c) e v.in_order)
        ∙ append_assoc c.got _ _
        ∙ ap (λ es. c.got ++ es)
            (ap (λ es. es ++ event_of (decode body)) (append-nil c.events)
              ∙ ap (λ es. c.events ++ es) (sym (held-phase_of (decode body))));
    part = λ a.
        let old = v.part a in
        ground (arith, old, count-append a c.taken (body ∷ []), count-append a c.acked (body ∷ []));
    bounded = v.bounded;
  }

  take_next-Ordered :
      (p : Phase) (body : Body) (c : Consumer B Body)
      → c.phase ≡ p
      → Ordered c
      → Ordered (take_next ack decode p body c)
  take_next-Ordered selecting body c e v = after_ack-Ordered body (ack c.broker) c e v
  take_next-Ordered (sending x) body c e v = v
  take_next-Ordered returned body c e v = v
  take_next-Ordered crashed body c e v = v

  send_next-Ordered :
      (p : Phase) (c : Consumer B Body)
      → c.phase ≡ p
      → Ordered c
      → Ordered (send_next ack decode p c)
  send_next-Ordered (sending x) c e v = elim (Bool-cases (ltb (length c.events) channel_size)) [
    | inl room ↦ simp room (record {
      in_order =
          subst (λ q. Lines c.events q c) e v.in_order
          ∙ ap (λ es. c.got ++ es) (sym (append-nil (c.events ++ x ∷ [])));
      part = v.part;
      bounded = ground (arith, room, length-append c.events (x ∷ []));
    })
    | inr full ↦ simp full v
  ]
  send_next-Ordered selecting c e v = v
  send_next-Ordered returned c e v = v
  send_next-Ordered crashed c e v = v

  stop_next-Ordered :
      (p : Phase) (c : Consumer B Body)
      → c.phase ≡ p
      → Ordered c
      → Ordered (stop_next ack decode p c)
  stop_next-Ordered selecting c e v = record {
    in_order = subst (λ q. Lines c.events q c) e v.in_order;
    part = v.part;
    bounded = v.bounded;
  }
  stop_next-Ordered (sending x) c e v = v
  stop_next-Ordered returned c e v = v
  stop_next-Ordered crashed c e v = v

  handed_out-Ordered :
      (es : List ProcessedEvent) (c : Consumer B Body)
      → c.events ≡ es
      → Ordered c
      → Ordered (handed_out ack decode es c)
  handed_out-Ordered [] c e v = v
  handed_out-Ordered (x ∷ es) c e v = record {
    in_order =
        subst (λ l. Lines l c.phase c) e v.in_order
        ∙ sym (append_assoc c.got (x ∷ []) (es ++ held c.phase));
    part = v.part;
    bounded = let old = v.bounded in ground (arith, e, old);
  }

  step-Ordered : (s : Step B Body) (c : Consumer B Body) → Ordered c → Ordered (step ack decode s c)
  unfolding step
  step-Ordered (take body) c v = take_next-Ordered c.phase body c refl v
  step-Ordered send c v = send_next-Ordered c.phase c refl v
  step-Ordered get c v = handed_out-Ordered c.events c refl v
  step-Ordered stop c v = stop_next-Ordered c.phase c refl v
  step-Ordered (change f) c v = record { in_order = v.in_order; part = v.part; bounded = v.bounded }

  run-Ordered :
      (steps : List (Step B Body)) (c : Consumer B Body)
      → Ordered c
      → Ordered (run ack decode steps c)
  unfolding run
  run-Ordered [] c v = v
  run-Ordered (s ∷ steps) c v =
      run-Ordered steps (step ack decode s c) (unfold step in step-Ordered s c v)

  -- Whatever the broker, the reader and the shutdown do between the turns of the loop: the events
  -- of the messages that were acknowledged are, in their order, those that the reader has got,
  -- those in the channel and the one about to be sent; only what was taken is acknowledged, and not
  -- more often; and the channel keeps its size.
  pub run-new_consumer-Ordered :
      (steps : List (Step B Body)) (b : B) → Ordered (run ack decode steps (new_consumer b))
  run-new_consumer-Ordered steps b =
      run-Ordered steps (new_consumer b)
        (record { in_order = refl; part = λ a. omega arith; bounded = omega arith })
