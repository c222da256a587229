-- ===== src/Pipeline/Consumer/Shutdown.antt =====
-- When the consumer's program ends by a panic.
use ormus.Prelude.{
  ℕ, ◌≡◌, ◌≢◌, refl, Option, none, some, Bool, true, false, List, [], ◌∷◌, Outcome, ok, err, panic,
  Error, ltb, length, ◌==◌, Bool-cases, inl, inr, Table, String,
}
use ormus.Prelude.TakeAt.{take_at, All}
use ormus.Event.{ProcessedEvent}
use ormus.Pipeline.Consumer.{
  Delivery, message, zero_delivery, Library, Goroutine, starting, sending, acking, Phase, selecting,
  returned, crashed, Consumer, Step, take, go, get, stop, change, channel_size, new_consumer,
  taken_next, decoded, start, send, ack_delivery, go_on, handed_out, end_phase, in_loop, alive,
  crash, return_from_loop, step, run,
}

abbrev pub is_stop : {B : Type 0} → Step B → Bool
is_stop take = false
is_stop (go k) = false
is_stop get = false
is_stop stop = true
is_stop (change f) = false

module _ {B Body : Type 0} (lib : Library B Body) (size : Body → ℕ)
    (decode : Body → Outcome ProcessedEvent) (carrier : ProcessedEvent → Table String) where
  -- The loop goes on, and its channel of events is open.
  abbrev pub Consumes : Consumer B Body → Type 0
  Consumes c = (c.phase ≡ selecting) × (c.closed ≡ false)

  taken_next-Consumes :
      (r : Option (Delivery Body) × B) (c : Consumer B Body)
      → Consumes c
      → Consumes (taken_next lib size decode carrier r c)
  taken_next-Consumes (none, b) c v = v
  taken_next-Consumes (some d, b) c v = v

  decoded-Consumes :
      (d : Delivery Body) (others : List (Goroutine Body)) (o : Outcome ProcessedEvent)
      (c : Consumer B Body)
      → o ≢ panic
      → Consumes c
      → Consumes (decoded lib size decode carrier d others o c)
  decoded-Consumes d others (ok e) c h v = v
  decoded-Consumes d others (err x) c h v = v
  decoded-Consumes d others panic c h v = elim (h refl) [ ]

  start-Consumes :
      (d : Delivery Body) (others : List (Goroutine Body)) (c : Consumer B Body)
      → ((body : Body) → decode body ≢ panic)
      → Consumes c
      → Consumes (start lib size decode carrier d others c)
  start-Consumes zero_delivery others c h v = v
  start-Consumes (message n body) others c h v = elim (Bool-cases (size body == 0)) [
    | inl e ↦ rw e v
    | inr e ↦ rw e (decoded-Consumes (message n body) others (decode body) c (h body) v)
  ]

  send-Consumes :
      (d : Delivery Body) (e : ProcessedEvent) (others : List (Goroutine Body))
      (c : Consumer B Body)
      → Consumes c
      → Consumes (send lib size decode carrier d e others c)
  send-Consumes d e others c v = elim (Bool-cases (ltb (length c.events) channel_size)) [
    | inl room ↦ simp (v.1, room) (v.0, refl)
    | inr full ↦ simp (v.1, full) (v.0, refl)
  ]

  ack_delivery-Consumes :
      (d : Delivery Body) (others : List (Goroutine Body)) (c : Consumer B Body)
      → Consumes c
      → Consumes (ack_delivery lib size decode carrier d others c)
  ack_delivery-Consumes zero_delivery others c v = v
  ack_delivery-Consumes (message n body) others c v = v

  pub go_on-Consumes :
      (r : Option (Goroutine Body × List (Goroutine Body))) (c : Consumer B Body)
      → ((body : Body) → decode body ≢ panic)
      → Consumes c
      → Consumes (go_on lib size decode carrier r c)
  unfolding go_on
  go_on-Consumes none c h v = v
  go_on-Consumes (some (starting d, others)) c h v = start-Consumes d others c h v
  go_on-Consumes (some (sending d e, others)) c h v = send-Consumes d e others c v
  go_on-Consumes (some (acking d, others)) c h v = ack_delivery-Consumes d others c v

  pub handed_out-Consumes :
      (es : List ProcessedEvent) (c : Consumer B Body)
      → Consumes c
      → Consumes (handed_out lib size decode carrier es c)
  handed_out-Consumes [] c v = v
  handed_out-Consumes (e ∷ es) c v = v

  in_loop-Consumes :
      (p : Phase) (next c : Consumer B Body)
      → Consumes next
      → Consumes c
      → Consumes (in_loop lib size decode carrier p next c)
  in_loop-Consumes selecting next c w v = w
  in_loop-Consumes returned next c w v = v
  in_loop-Consumes crashed next c w v = v

  alive-Consumes :
      (p : Phase) (next c : Consumer B Body)
      → Consumes next
      → Consumes c
      → Consumes (alive lib size decode carrier p next c)
  alive-Consumes selecting next c w v = w
  alive-Consumes returned next c w v = w
  alive-Consumes crashed next c w v = v

  pub step-Consumes :
      (s : Step B) (c : Consumer B Body)
      → ((body : Body) → decode body ≢ panic)
      → is_stop s ≡ false
      → Consumes c
      → Consumes (step lib size decode carrier s c)
  unfolding step
  step-Consumes take c h q v =
      in_loop-Consumes c.phase _ c (taken_next-Consumes (lib.receive c.broker) c v) v
  step-Consumes (go k) c h q v =
      alive-Consumes c.phase _ c (go_on-Consumes (take_at k c.goroutines) c h v) v
  step-Consumes get c h q v = alive-Consumes c.phase _ c (handed_out-Consumes c.events c v) v
  step-Consumes stop c h q v = cc
  step-Consumes (change f) c h q v = v

  run-Consumes :
      (steps : List (Step B)) (c : Consumer B Body)
      → ((body : Body) → decode body ≢ panic)
      → All (λ s. is_stop s ≡ false) steps
      → Consumes c
      → Consumes (run lib size decode carrier steps c)
  unfolding run
  run-Consumes [] c h q v = v
  run-Consumes (s ∷ steps) c h (q, qs) v =
      run-Consumes steps (step lib size decode carrier s c) h qs
        (unfold step in step-Consumes s c h q v)

  -- Where no message makes the decoding panic, neither a message, nor an acknowledgement that
  -- fails, nor a connection that breaks ends the loop or the program before the shutdown.
  pub run-new_consumer-Consumes :
      (steps : List (Step B)) (b : B)
      → ((body : Body) → decode body ≢ panic)
      → All (λ s. is_stop s ≡ false) steps
      → Consumes (run lib size decode carrier steps (new_consumer b))
  run-new_consumer-Consumes steps b h q = run-Consumes steps (new_consumer b) h q (refl, refl)

  crashed_at_send :
      (x y : Option Error) (c : Consumer B Body)
      → let after =
          alive lib size decode carrier
            (end_phase lib size decode carrier x y)
            (crash lib size decode carrier c)
            (record c { phase = end_phase lib size decode carrier x y }) in
        (after.phase ≡ crashed) × (after.acked ≡ c.acked) × (after.events ≡ c.events)
  crashed_at_send none none c = (refl, refl, refl)
  crashed_at_send none (some y) c = (refl, refl, refl)
  crashed_at_send (some x) y c = (refl, refl, refl)

  -- A shutdown while a goroutine is before the send of its event ends the program with a panic,
  -- when that goroutine goes on; its delivery is not acknowledged by then.
  pub sending_at_stop :
      (k : ℕ) (d : Delivery Body) (e : ProcessedEvent) (others : List (Goroutine Body))
      (c : Consumer B Body)
      → c.phase ≡ selecting
      → take_at k c.goroutines ≡ some (sending d e, others)
      → let after = run lib size decode carrier (stop ∷ go k ∷ []) c in
        (after.phase ≡ crashed) × (after.acked ≡ c.acked) × (after.events ≡ c.events)
  unfolding run step go_on
  sending_at_stop k d e others c p h =
      rw (p, h)
        (crashed_at_send (lib.close_channel c.broker).0
          (lib.close_connection (lib.close_channel c.broker).1).0
          (return_from_loop lib size decode carrier c))
