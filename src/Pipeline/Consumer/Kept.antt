-- ===== src/Pipeline/Consumer/Kept.antt =====
-- Where the deliveries and the events of the consumer are.
use ormus.Prelude.{
  ℕ, ◌≡◌, refl, arith, Option, none, some, List, [], ◌∷◌, Outcome, Option-cases, inl, inr, Table,
  String,
}
use ormus.Prelude.TakeAt.{take_at}
use ormus.Event.{ProcessedEvent}
use ormus.Pipeline.Consumer.{
  Delivery, Library, Phase, selecting, returned, crashed, Consumer, Step, take, go, get, stop,
  change, new_consumer, taken_next, go_on, handed_out, in_loop, alive, step, run,
}
use ormus.Pipeline.Consumer.Invariant.{Kept, take_at-Splits}
use ormus.Pipeline.Consumer.Goroutines.{go_on-Kept}

module _ {B Body : Type 0} (lib : Library B Body) (size : Body → ℕ)
    (decode : Body → Outcome ProcessedEvent) (carrier : ProcessedEvent → Table String) where
  handed_out-Kept :
      (es : List ProcessedEvent) (c : Consumer B Body)
      → c.events ≡ es
      → Kept lib size decode carrier c
      → Kept lib size decode carrier (handed_out lib size decode carrier es c)
  handed_out-Kept [] c same v = v
  handed_out-Kept (e ∷ es) c same v = record {
    each = v.each;
    sent = λ q. let old = v.sent q in ground (arith, same, old);
    agree = v.agree;
    left = v.left;
    bounded = let old = v.bounded in ground (arith, same, old);
  }

  taken_next-Kept :
      (r : Option (Delivery Body) × B) (c : Consumer B Body)
      → Kept lib size decode carrier c
      → Kept lib size decode carrier (taken_next lib size decode carrier r c)
  taken_next-Kept (none, b) c v = record {
    each = v.each;
    sent = v.sent;
    agree = v.agree;
    left = v.left;
    bounded = v.bounded;
  }
  taken_next-Kept (some d, b) c v = record {
    each = λ a. let old = v.each a in ground (arith, old);
    sent = λ q. let old = v.sent q in omega (arith, old);
    agree = (tt, v.agree);
    left = v.left;
    bounded = v.bounded;
  }

  in_loop-Kept :
      (p : Phase) (next c : Consumer B Body)
      → Kept lib size decode carrier next
      → Kept lib size decode carrier c
      → Kept lib size decode carrier (in_loop lib size decode carrier p next c)
  in_loop-Kept selecting next c w v = w
  in_loop-Kept returned next c w v = v
  in_loop-Kept crashed next c w v = v

  alive-Kept :
      (p : Phase) (next c : Consumer B Body)
      → Kept lib size decode carrier next
      → Kept lib size decode carrier c
      → Kept lib size decode carrier (alive lib size decode carrier p next c)
  alive-Kept selecting next c w v = w
  alive-Kept returned next c w v = w
  alive-Kept crashed next c w v = v

  pub step-Kept :
      (s : Step B) (c : Consumer B Body)
      → Kept lib size decode carrier c
      → Kept lib size decode carrier (step lib size decode carrier s c)
  unfolding step
  step-Kept take c v = in_loop-Kept c.phase _ c (taken_next-Kept (lib.receive c.broker) c v) v
  step-Kept stop c v =
      in_loop-Kept c.phase _ c
        (record {
          each = v.each;
          sent = v.sent;
          agree = v.agree;
          left = v.left;
          bounded = v.bounded;
        })
        v
  step-Kept (go k) c v =
      alive-Kept c.phase _ c
        (elim (Option-cases (take_at k c.goroutines)) [
          | inl e ↦ rw (e, go_on) v
          | inr ((g, others), e) ↦ rw e (
              go_on-Kept lib size decode carrier g others c
                (take_at-Splits lib size decode carrier k c g others e v) v)
        ])
        v
  step-Kept get c v = alive-Kept c.phase _ c (handed_out-Kept c.events c refl v) v
  step-Kept (change f) c v = record {
    each = v.each;
    sent = v.sent;
    agree = v.agree;
    left = v.left;
    bounded = v.bounded;
  }

  pub run-Kept :
      (steps : List (Step B)) (c : Consumer B Body)
      → Kept lib size decode carrier c
      → Kept lib size decode carrier (run lib size decode carrier steps c)
  unfolding run
  run-Kept [] c v = v
  run-Kept (s ∷ steps) c v =
      run-Kept steps (step lib size decode carrier s c) (unfold step in step-Kept s c v)

  -- However the goroutines of the consumer, its reader, the broker and the shutdown interleave:
  -- each delivery that was taken has a goroutine, was dropped or was acknowledged, as often as it
  -- was taken; those that were dropped carry no event; the events in the channel and with the
  -- reader are, as often as they are there, those of the deliveries that were acknowledged or are
  -- about to be, so that none is acknowledged whose event was not sent; and the channel keeps its
  -- size.
  pub run-new_consumer-Kept :
      (steps : List (Step B)) (b : B)
      → Kept lib size decode carrier (run lib size decode carrier steps (new_consumer b))
  run-new_consumer-Kept steps b =
      run-Kept steps (new_consumer b) (record {
        each = λ a. refl;
        sent = λ q. refl;
        agree = tt;
        left = tt;
        bounded = omega arith;
      })
