-- ===== src/Channel/Rabbit/Input/Kept.antt =====
-- Where the messages of the input are.
use ormus.Prelude.{
  ℕ, suc, ◌+◌, ◌≤◌, ◌≡◌, refl, arith, Option, none, some, List, [], ◌∷◌, Error, ltb, length,
  length-append, ◌==◌, if◌then◌else◌, Bool-cases, Option-cases, inl, inr,
}
use ormus.Channel.Simple.Delivery.{count, count-append}
use ormus.Prelude.TakeAt.{take_at, take_at-sum, take_at-All, All}
use ormus.Channel.Rabbit.Input.{
  Library, Phase, waiting, opening, testing, selecting, resting, stopped, Try, Input, Event, send,
  turn, stop, publish, change, new_input, opened, received, start_input, stop_input, called,
  publish_to_rabbitmq, step, run,
}

-- The publications of a message that are tried.
abbrev pub pending : {Ch : Type 0} → ℕ → List (Try Ch) → ℕ
pending m [] = 0
pending m (t ∷ ts) = let rest = pending m ts in if t.message == m then suc rest else rest

-- No try is past the policy.
abbrev pub Within : {Ch : Type 0} → ℕ → List (Try Ch) → Type 0
Within n = All (λ t. t.tries ≤ n)

pending-first :
    {Ch : Type 0} (m : ℕ) (t : Try Ch) (ts : List (Try Ch))
    → pending m (t ∷ ts) ≡ (if t.message == m then 1 else 0) + pending m ts
pending-first m t ts = ground arith

-- An entry that is taken out, and the others, are what there was.
abbrev Split : {Ch : Type 0} → List (Try Ch) → Try Ch × List (Try Ch) → Type 0
Split ts r =
    ((m : ℕ) → pending m ts ≡ pending m (r.0 ∷ r.1))
    × ((n : ℕ) → Within n ts → Within n (r.0 ∷ r.1))

take_at-Split :
    {Ch : Type 0} (k : ℕ) (ts : List (Try Ch)) (r : Try Ch × List (Try Ch))
    → take_at k ts ≡ some r
    → Split ts r
take_at-Split k ts r e = (
  λ m. take_at-sum (pending m) (λ t. if t.message == m then 1 else 0) (pending-first m) k ts r e,
  λ n w. take_at-All (λ t. t.tries ≤ n) k ts r e w,
)

module _ {B Ch : Type 0} (lib : Library B Ch) (buffer_size max_retry_policy : ℕ) where
  pub record Kept (c : Input B Ch) : Type 0 where
    pub each :
        (m : ℕ)
        → count m c.sent
          ≡ count m c.input_channel
            + pending m c.publishing
            + count m c.published
            + count m c.failed
    pub within : Within max_retry_policy c.publishing
    pub bounded : length c.input_channel ≤ buffer_size

  -- Neither the messages nor the publications change.
  abbrev Same : Input B Ch → Input B Ch → Type 0
  Same c d =
      (d.sent ≡ c.sent)
      × (d.input_channel ≡ c.input_channel)
      × (d.publishing ≡ c.publishing)
      × (d.published ≡ c.published)
      × (d.failed ≡ c.failed)

  Kept-Same : (c d : Input B Ch) → Same c d → Kept c → Kept d
  Kept-Same c d (s, i, p, u, f) v = record {
    each = λ m. rw (s, i, p, u, f) (v.each m);
    within = rw p v.within;
    bounded = rw i v.bounded;
  }

  opened-Same :
      (i : ℕ) (r : Option Ch × B) (c : Input B Ch)
      → Same c (opened lib buffer_size max_retry_policy i r c)
  opened-Same i (some ch, b) c = (refl, refl, refl, refl, refl)
  opened-Same i (none, b) c = (refl, refl, refl, refl, refl)

  received-Kept :
      (i : ℕ) (ch : Ch) (q : List ℕ) (c : Input B Ch)
      → c.input_channel ≡ q
      → Kept c
      → Kept (received lib buffer_size max_retry_policy i ch q c)
  received-Kept i ch [] c e v = v
  received-Kept i ch (m ∷ ms) c e v = record {
    each = λ k. let old = v.each k in ground (arith, e, old);
    within = (omega arith, v.within);
    bounded = let old = v.bounded in ground (arith, e, old);
  }

  start_input-Kept :
      (i : ℕ) (p : Phase Ch) (c : Input B Ch)
      → Kept c
      → Kept (start_input lib buffer_size max_retry_policy i p c)
  unfolding start_input
  start_input-Kept i waiting c v = elim (Bool-cases (lib.connection_is_closed c.broker)) [
    | inl b ↦ rw b v
    | inr b ↦ rw b (Kept-Same c _ (refl, refl, refl, refl, refl) v)
  ]
  start_input-Kept i opening c v = Kept-Same c _ (opened-Same i (lib.open_channel c.broker) c) v
  start_input-Kept i (testing ch) c v = elim (Bool-cases (lib.channel_is_closed ch c.broker)) [
    | inl b ↦ rw b (Kept-Same c _ (refl, refl, refl, refl, refl) v)
    | inr b ↦ rw b (Kept-Same c _ (refl, refl, refl, refl, refl) v)
  ]
  start_input-Kept i (selecting ch) c v = received-Kept i ch c.input_channel c refl v
  start_input-Kept i resting c v = Kept-Same c _ (refl, refl, refl, refl, refl) v
  start_input-Kept i stopped c v = v

  stop_input-Same :
      (i : ℕ) (p : Phase Ch) (c : Input B Ch)
      → Same c (stop_input lib buffer_size max_retry_policy i p c)
  stop_input-Same i waiting c = (refl, refl, refl, refl, refl)
  stop_input-Same i opening c = (refl, refl, refl, refl, refl)
  stop_input-Same i (testing ch) c = (refl, refl, refl, refl, refl)
  stop_input-Same i (selecting ch) c = (refl, refl, refl, refl, refl)
  stop_input-Same i resting c = (refl, refl, refl, refl, refl)
  stop_input-Same i stopped c = (refl, refl, refl, refl, refl)

  -- A try that was taken out of `c` and called.
  called-Kept :
      (t : Try Ch) (others : List (Try Ch)) (r : Option Error × B) (c : Input B Ch)
      → Split c.publishing (t, others)
      → Kept c
      → Kept (called lib buffer_size max_retry_policy t r (record c { publishing = others }))
  called-Kept t others (none, b) c (same, in_policy) v = record {
    each = λ m. let old = v.each m in ground (arith, old, same m);
    within = (in_policy max_retry_policy v.within).1;
    bounded = v.bounded;
  }
  called-Kept t others (some e, b) c (same, in_policy) v =
      let (low, rest) = in_policy max_retry_policy v.within in
      elim (Bool-cases (ltb max_retry_policy (t.tries + 1))) [
        | inl past ↦ rw past (record {
          each = λ m. let old = v.each m in ground (arith, old, same m);
          within = rest;
          bounded = v.bounded;
        })
        | inr before ↦ rw before (record {
          each = λ m. let old = v.each m in ground (arith, old, same m);
          within = (ground (arith, before), rest);
          bounded = v.bounded;
        })
      ]

  step-Kept :
      (e : Event B) (c : Input B Ch) → Kept c → Kept (step lib buffer_size max_retry_policy e c)
  unfolding step publish_to_rabbitmq
  step-Kept (send m) c v = elim (Bool-cases (ltb (length c.input_channel) buffer_size)) [
    | inl room ↦ rw room (record {
      each =
          λ k. let old = v.each k in ground (arith, old, count-append k c.input_channel (m ∷ []));
      within = v.within;
      bounded = ground (arith, room, length-append c.input_channel (m ∷ []));
    })
    | inr full ↦ rw full v
  ]
  step-Kept (turn i) c v = start_input-Kept i (c.worker i) c v
  step-Kept (stop i) c v = Kept-Same c _ (stop_input-Same i (c.worker i) c) v
  step-Kept (publish k) c v = elim (Option-cases (take_at k c.publishing)) [
    | inl e ↦ rw e v
    | inr (r, e) ↦
        let s = take_at-Split k c.publishing r e in
        rw e (called-Kept r.0 r.1 (lib.publish_with_context r.0.channel r.0.message c.broker) c s v)
  ]
  step-Kept (change f) c v = Kept-Same c _ (refl, refl, refl, refl, refl) v

  run-Kept :
      (es : List (Event B)) (c : Input B Ch)
      → Kept c
      → Kept (run lib buffer_size max_retry_policy es c)
  unfolding run
  run-Kept [] c v = v
  run-Kept (e ∷ es) c v =
      run-Kept es (step lib buffer_size max_retry_policy e c) (unfold step in step-Kept e c v)

  -- From a new channel on, whatever its workers, its users, the broker and the connection do, every
  -- message that was sent is in the buffer, is tried, was published or was logged as failed, as
  -- often as it was sent; no try is past the policy, and the buffer is never over its size.
  pub run-new_input-Kept :
      (es : List (Event B)) (b : B) → Kept (run lib buffer_size max_retry_policy es (new_input b))
  unfolding new_input
  run-new_input-Kept es b =
      run-Kept es (new_input b) (record { each = λ m. refl; within = tt; bounded = omega arith })
