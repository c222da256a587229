-- ===== src/Pipeline/Consumer/Goroutines.antt =====
-- The steps of the consumer's goroutines.
use ormus.Prelude.{
  ℕ, ◌≡◌, refl, arith, some, List, [], ◌∷◌, Outcome, ok, err, panic, ltb, length, length-append,
  ◌==◌, Bool-cases, inl, inr, Table, String,
}
use ormus.Prelude.TakeAt.{count-append}
use ormus.Event.{ProcessedEvent}
use ormus.Pipeline.Consumer.{
  Delivery, message, zero_delivery, Library, Goroutine, starting, sending, acking, Consumer,
  channel_size, drop, decoded, start, send, ack_delivery, go_on,
}
use ormus.Pipeline.Consumer.Invariant.{Kept, Splits, event_of, decoded_event}

module _ {B Body : Type 0} (lib : Library B Body) (size : Body → ℕ)
    (decode : Body → Outcome ProcessedEvent) (carrier : ProcessedEvent → Table String) where
  drop-Kept :
      (d : Delivery Body) (others : List (Goroutine Body)) (c : Consumer B Body)
      → Splits lib size decode carrier c (starting d) others
      → event_of lib size decode carrier d ≡ []
      → Kept lib size decode carrier c
      → Kept lib size decode carrier (drop lib size decode carrier d others c)
  drop-Kept d others c s e v = record {
    each = λ a. let old = v.each a in let w = s.weighs a in ground (arith, old, w);
    sent = λ q. let old = v.sent q in let w = s.sums q in omega (arith, old, w);
    agree = s.agrees.1;
    left = (e, v.left);
    bounded = v.bounded;
  }

  decoded-Kept :
      (d : Delivery Body) (others : List (Goroutine Body)) (o : Outcome ProcessedEvent)
      (c : Consumer B Body)
      → Splits lib size decode carrier c (starting d) others
      → event_of lib size decode carrier d ≡ decoded_event lib size decode carrier o
      → Kept lib size decode carrier c
      → Kept lib size decode carrier (decoded lib size decode carrier d others o c)
  decoded-Kept d others (ok e) c s same v = record {
    each = λ a. let old = v.each a in let w = s.weighs a in omega (arith, old, w);
    sent = λ q. let old = v.sent q in let w = s.sums q in omega (arith, old, w);
    agree = (same, s.agrees.1);
    left = v.left;
    bounded = v.bounded;
  }
  decoded-Kept d others (err x) c s same v = drop-Kept d others c s same v
  decoded-Kept d others panic c s same v = record {
    each = v.each;
    sent = v.sent;
    agree = v.agree;
    left = v.left;
    bounded = v.bounded;
  }

  start-Kept :
      (d : Delivery Body) (others : List (Goroutine Body)) (c : Consumer B Body)
      → Splits lib size decode carrier c (starting d) others
      → Kept lib size decode carrier c
      → Kept lib size decode carrier (start lib size decode carrier d others c)
  start-Kept zero_delivery others c s v = drop-Kept zero_delivery others c s refl v
  start-Kept (message n body) others c s v = elim (Bool-cases (size body == 0)) [
    | inl e ↦ rw e (drop-Kept (message n body) others c s (rw e refl) v)
    | inr e ↦ rw e (decoded-Kept (message n body) others (decode body) c s (rw e refl) v)
  ]

  send-Kept :
      (d : Delivery Body) (e : ProcessedEvent) (others : List (Goroutine Body))
      (c : Consumer B Body)
      → Splits lib size decode carrier c (sending d e) others
      → Kept lib size decode carrier c
      → Kept lib size decode carrier (send lib size decode carrier d e others c)
  send-Kept d e others c s v = elim (Bool-cases c.closed) [
    | inl shut ↦ rw shut (record {
      each = v.each;
      sent = v.sent;
      agree = v.agree;
      left = v.left;
      bounded = v.bounded;
    })
    | inr working ↦ rw working (elim (Bool-cases (ltb (length c.events) channel_size)) [
      | inl room ↦ rw room (record {
        each = λ a. let old = v.each a in let w = s.weighs a in omega (arith, old, w);
        sent = λ q.
            let old = v.sent q in
            let w = s.sums q in
            let x = s.agrees.0 in rw x (ground (arith, old, w, count-append q c.events (e ∷ [])));
        agree = (tt, s.agrees.1);
        left = v.left;
        bounded = ground (arith, room, length-append c.events (e ∷ []));
      })
      | inr full ↦ rw full (record {
        each = v.each;
        sent = v.sent;
        agree = v.agree;
        left = v.left;
        bounded = v.bounded;
      })
    ])
  ]

  ack_delivery-Kept :
      (d : Delivery Body) (others : List (Goroutine Body)) (c : Consumer B Body)
      → Splits lib size decode carrier c (acking d) others
      → Kept lib size decode carrier c
      → Kept lib size decode carrier (ack_delivery lib size decode carrier d others c)
  ack_delivery-Kept zero_delivery others c s v = record {
    each = λ a. let old = v.each a in let w = s.weighs a in ground (arith, old, w);
    sent = λ q. let old = v.sent q in let w = s.sums q in omega (arith, old, w);
    agree = s.agrees.1;
    left = v.left;
    bounded = v.bounded;
  }
  ack_delivery-Kept (message n body) others c s v = record {
    each = λ a. let old = v.each a in let w = s.weighs a in ground (arith, old, w);
    sent = λ q. let old = v.sent q in let w = s.sums q in omega (arith, old, w);
    agree = s.agrees.1;
    left = v.left;
    bounded = v.bounded;
  }

  pub go_on-Kept :
      (g : Goroutine Body) (others : List (Goroutine Body)) (c : Consumer B Body)
      → Splits lib size decode carrier c g others
      → Kept lib size decode carrier c
      → Kept lib size decode carrier (go_on lib size decode carrier (some (g, others)) c)
  unfolding go_on
  go_on-Kept (starting d) others c s v = start-Kept d others c s v
  go_on-Kept (sending d e) others c s v = send-Kept d e others c s v
  go_on-Kept (acking d) others c s v = ack_delivery-Kept d others c s v
