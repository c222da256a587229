-- ===== src/Channel/Rabbit/Output/Passed.antt =====
-- Where the deliveries of the output are, and what a closed channel passes on.
use ormus.Prelude.{
  ℕ, suc, ◌+◌, ◌≤◌, ◌≡◌, refl, arith, Option, none, some, Bool, true, false, List, [], ◌∷◌, ◌++◌,
  Outcome, ok, err, panic, ltb, length, length-append, ◌==◌, if◌then◌else◌, Bool-cases,
  Option-cases, inl, inr,
}
use ormus.Prelude.TakeAt.{take_at, take_at-sum}
use ormus.Channel.Rabbit.Output.{
  Delivery, message, zero_delivery, Library, Phase, waiting, opening, subscribing, testing,
  selecting, resting, stopped, crashed, Output, Event, turn, stop, emit, get, change, new_output,
  opened, subscribed, received, start_output, stop_output, emitted, handed_out, step, run,
}

-- One delivery, or the other kind.
abbrev pub is_delivery : Delivery → Delivery → Bool
is_delivery (message m) (message n) = m == n
is_delivery zero_delivery zero_delivery = true
is_delivery (message m) zero_delivery = false
is_delivery zero_delivery (message n) = false

abbrev pub count : Delivery → List Delivery → ℕ
count d [] = 0
count d (x ∷ xs) = let rest = count d xs in if is_delivery x d then suc rest else rest

count-append : (d : Delivery) (xs ys : List Delivery) → count d (xs ++ ys) ≡ count d xs + count d ys
count-append d [] ys = omega arith
count-append d (x ∷ xs) ys = ground (arith, count-append d xs ys)

count-first :
    (d x : Delivery) (xs : List Delivery)
    → count d (x ∷ xs) ≡ (if is_delivery x d then 1 else 0) + count d xs
count-first d x xs = ground arith

module _ {B Ch : Type 0} (lib : Library B Ch) (buffer_size : ℕ) where
  pub record Passed (c : Output B Ch) : Type 0 where
    pub each :
        (d : Delivery)
        → count d c.taken ≡ count d c.sending + count d c.output_channel + count d c.got
    pub bounded : length c.output_channel ≤ buffer_size

  abbrev Same : Output B Ch → Output B Ch → Type 0
  Same c d =
      (d.taken ≡ c.taken)
      × (d.sending ≡ c.sending)
      × (d.output_channel ≡ c.output_channel)
      × (d.got ≡ c.got)

  Passed-Same : (c d : Output B Ch) → Same c d → Passed c → Passed d
  Passed-Same c d (t, s, o, g) v = record {
    each = λ x. rw (t, s, o, g) (v.each x);
    bounded = rw o v.bounded;
  }

  opened-Same :
      (i : ℕ) (r : Option Ch × B) (c : Output B Ch) → Same c (opened lib buffer_size i r c)
  opened-Same i (some ch, b) c = (refl, refl, refl, refl)
  opened-Same i (none, b) c = (refl, refl, refl, refl)

  subscribed-Same :
      (i : ℕ) (ch : Ch) (r : Outcome (Unit {0}) × B) (c : Output B Ch)
      → Same c (subscribed lib buffer_size i ch r c)
  subscribed-Same i ch (ok u, b) c = (refl, refl, refl, refl)
  subscribed-Same i ch (err e, b) c = (refl, refl, refl, refl)
  subscribed-Same i ch (panic, b) c = (refl, refl, refl, refl)

  received-Passed :
      (i : ℕ) (ch : Ch) (r : Option Delivery × B) (c : Output B Ch)
      → Passed c
      → Passed (received lib buffer_size i ch r c)
  received-Passed i ch (none, b) c v = record { each = v.each; bounded = v.bounded }
  received-Passed i ch (some d, b) c v = record {
    each = λ x. let old = v.each x in ground (arith, old);
    bounded = v.bounded;
  }

  start_output-Passed :
      (i : ℕ) (p : Phase Ch) (c : Output B Ch)
      → Passed c
      → Passed (start_output lib buffer_size i p c)
  unfolding start_output
  start_output-Passed i waiting c v = elim (Bool-cases (lib.connection_is_closed c.broker)) [
    | inl b ↦ rw b v
    | inr b ↦ rw b (Passed-Same c _ (refl, refl, refl, refl) v)
  ]
  start_output-Passed i opening c v =
      Passed-Same c _ (opened-Same i (lib.open_channel c.broker) c) v
  start_output-Passed i (subscribing ch) c v =
      Passed-Same c _ (subscribed-Same i ch (lib.consume ch c.broker) c) v
  start_output-Passed i (testing ch) c v = elim (Bool-cases (lib.channel_is_closed ch c.broker)) [
    | inl b ↦ rw b (Passed-Same c _ (refl, refl, refl, refl) v)
    | inr b ↦ rw b (Passed-Same c _ (refl, refl, refl, refl) v)
  ]
  start_output-Passed i (selecting ch) c v = received-Passed i ch (lib.receive ch c.broker) c v
  start_output-Passed i resting c v = Passed-Same c _ (refl, refl, refl, refl) v
  start_output-Passed i stopped c v = v
  start_output-Passed i crashed c v = v

  stop_output-Same :
      (i : ℕ) (p : Phase Ch) (c : Output B Ch) → Same c (stop_output lib buffer_size i p c)
  stop_output-Same i waiting c = (refl, refl, refl, refl)
  stop_output-Same i opening c = (refl, refl, refl, refl)
  stop_output-Same i (subscribing ch) c = (refl, refl, refl, refl)
  stop_output-Same i (testing ch) c = (refl, refl, refl, refl)
  stop_output-Same i (selecting ch) c = (refl, refl, refl, refl)
  stop_output-Same i resting c = (refl, refl, refl, refl)
  stop_output-Same i stopped c = (refl, refl, refl, refl)
  stop_output-Same i crashed c = (refl, refl, refl, refl)

  emitted-Passed :
      (d : Delivery) (others : List Delivery) (c : Output B Ch)
      → ((x : Delivery) → count x c.sending ≡ count x (d ∷ others))
      → Passed c
      → Passed (emitted lib buffer_size (some (d, others)) c)
  emitted-Passed d others c same v = elim (Bool-cases (ltb (length c.output_channel) buffer_size)) [
    | inl room ↦ rw room (record {
      each = λ x.
          let old = v.each x in
          ground (arith, old, same x, count-append x c.output_channel (d ∷ []));
      bounded = ground (arith, room, length-append c.output_channel (d ∷ []));
    })
    | inr full ↦ rw full v
  ]

  handed_out-Passed :
      (ds : List Delivery) (c : Output B Ch)
      → c.output_channel ≡ ds
      → Passed c
      → Passed (handed_out lib buffer_size ds c)
  handed_out-Passed [] c e v = v
  handed_out-Passed (d ∷ ds) c e v = record {
    each = λ x. let old = v.each x in ground (arith, e, old);
    bounded = let old = v.bounded in ground (arith, e, old);
  }

  step-Passed : (e : Event B) (c : Output B Ch) → Passed c → Passed (step lib buffer_size e c)
  unfolding step
  step-Passed (turn i) c v = start_output-Passed i (c.worker i) c v
  step-Passed (stop i) c v = Passed-Same c _ (stop_output-Same i (c.worker i) c) v
  step-Passed (emit k) c v = elim (Option-cases (take_at k c.sending)) [
    | inl e ↦ rw e v
    | inr (r, e) ↦ rw e (
        emitted-Passed r.0 r.1 c
          (λ x.
            take_at-sum (count x) (λ y. if is_delivery y x then 1 else 0) (count-first x) k
              c.sending r e)
          v)
  ]
  step-Passed get c v = handed_out-Passed c.output_channel c refl v
  step-Passed (change f) c v = Passed-Same c _ (refl, refl, refl, refl) v

  run-Passed :
      (es : List (Event B)) (c : Output B Ch) → Passed c → Passed (run lib buffer_size es c)
  unfolding run
  run-Passed [] c v = v
  run-Passed (e ∷ es) c v =
      run-Passed es (step lib buffer_size e c) (unfold step in step-Passed e c v)

  -- From a new channel on, whatever its workers, its users, the broker and the connection do, every
  -- delivery that a worker took waits to be sent, is in the buffer or was received, as often as it
  -- was taken, and the buffer is never over its size.
  pub run-new_output-Passed :
      (es : List (Event B)) (b : B) → Passed (run lib buffer_size es (new_output b))
  unfolding new_output
  run-new_output-Passed es b =
      run-Passed es (new_output b) (record { each = λ d. refl; bounded = omega arith })
