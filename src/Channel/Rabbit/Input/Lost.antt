-- ===== src/Channel/Rabbit/Input/Lost.antt =====
-- A message that a worker receives after its channel was closed.
use mathlib.Core.Path.{subst}
use ormus.Prelude.{
  ℕ, zero, suc, ◌+◌, ◌≡◌, refl, sym, arith, some, true, false, List, [], ◌∷◌, Error, ltb,
}
use ormus.Prelude.TakeAt.{take_at}
use ormus.Channel.Rabbit.Input.{
  Library, selecting, Try, Input, Event, turn, publish, change, on_broker, received, start_input,
  publish_to_rabbitmq, step, run,
}

-- The calls for one message, when nothing else is published.
abbrev pub retries : {B : Type 0} → ℕ → List (Event B)
retries zero = publish 0 ∷ []
retries (suc k) = publish 0 ∷ retries k

module _ {B Ch : Type 0} (lib : Library B Ch) (buffer_size max_retry_policy : ℕ) (ch : Ch)
    (Closed : B → Type 0) where
  -- A closed channel refuses to publish, and stays closed.
  pub record Refuses : Type 0 where
    pub error : B → Error
    pub fails : (m : ℕ) (b : B) → Closed b → (lib.publish_with_context ch m b).0 ≡ some (error b)
    pub stays : (m : ℕ) (b : B) → Closed b → Closed (lib.publish_with_context ch m b).1

  -- The messages of `d` are those of `c`, with one message more that failed, and the others that
  -- are tried.
  abbrev pub HasFailed : ℕ → List (Try Ch) → Input B Ch → Input B Ch → Type 0
  HasFailed m others c d =
      (d.publishing ≡ others)
      × (d.failed ≡ m ∷ c.failed)
      × (d.published ≡ c.published)
      × (d.input_channel ≡ c.input_channel)

  tried_again :
      (t : Try Ch) (others : List (Try Ch)) (c : Input B Ch)
      → Refuses
      → c.publishing ≡ t ∷ others
      → t.channel ≡ ch
      → ltb max_retry_policy (t.tries + 1) ≡ false
      → Closed c.broker
      → step lib buffer_size max_retry_policy (publish 0) c ≡ record c {
        broker = (lib.publish_with_context ch t.message c.broker).1;
        publishing = record { channel = ch; message = t.message; tries = t.tries + 1 } ∷ others;
      }
  unfolding step publish_to_rabbitmq take_at
  tried_again t others c r p q before closed =
      rw (p, q, r.fails t.message c.broker closed, before) refl

  gives_up :
      (t : Try Ch) (others : List (Try Ch)) (c : Input B Ch)
      → Refuses
      → c.publishing ≡ t ∷ others
      → t.channel ≡ ch
      → ltb max_retry_policy (t.tries + 1) ≡ true
      → Closed c.broker
      → HasFailed t.message others c (step lib buffer_size max_retry_policy (publish 0) c)
  unfolding step publish_to_rabbitmq take_at
  gives_up t others c r p q past closed =
      rw (p, q, r.fails t.message c.broker closed, past) (refl, refl, refl, refl)

  retries_fail :
      (k : ℕ) (t : Try Ch) (others : List (Try Ch)) (c : Input B Ch)
      → Refuses
      → c.publishing ≡ t ∷ others
      → t.channel ≡ ch
      → t.tries + k ≡ max_retry_policy
      → Closed c.broker
      → HasFailed t.message others c (run lib buffer_size max_retry_policy (retries k) c)
  unfolding run
  retries_fail zero t others c r p q n closed = gives_up t others c r p q (ground (arith, n)) closed
  retries_fail (suc k) t others c r p q n closed =
      let n' : (t.tries + 1) + k ≡ max_retry_policy = omega arith in
      subst (λ x. HasFailed t.message others c (run lib buffer_size max_retry_policy (retries k) x))
        (sym (tried_again t others c r p q (ground (arith, n)) closed))
        (retries_fail k (record { channel = ch; message = t.message; tries = t.tries + 1 }) others _
          r refl refl n' (r.stays t.message c.broker closed))

  abbrev taken : ℕ → ℕ → List ℕ → B → Input B Ch → Input B Ch
  taken i m ms b c =
      received lib buffer_size max_retry_policy i ch (m ∷ ms)
        (on_broker lib buffer_size max_retry_policy b c)

  takes :
      (i m : ℕ) (ms : List ℕ) (b : B) (c : Input B Ch)
      → c.worker i ≡ selecting ch
      → c.input_channel ≡ m ∷ ms
      → step lib buffer_size max_retry_policy
          (turn i)
          (on_broker lib buffer_size max_retry_policy b c)
        ≡ taken i m ms b c
  unfolding step start_input
  takes i m ms b c w q = rw (w, q) refl

  -- Where a channel is closed after the worker found it open, the next message that the worker
  -- receives is tried on it alone: after one publication more than the policy has retries it is
  -- logged as failed and gone, with the other messages as they were.
  pub received_late :
      (i m : ℕ) (ms : List ℕ) (f : B → B) (c : Input B Ch)
      → Refuses
      → c.worker i ≡ selecting ch
      → c.input_channel ≡ m ∷ ms
      → Closed (f c.broker)
      → let d =
          run lib buffer_size max_retry_policy (change f ∷ turn i ∷ retries max_retry_policy) c in
        (d.failed ≡ m ∷ c.failed)
        × (d.published ≡ c.published)
        × (d.publishing ≡ c.publishing)
        × (d.input_channel ≡ ms)
  unfolding run step
  received_late i m ms f c r w q closed =
      let t : Try Ch = record { channel = ch; message = m; tries = 0 } in
      let (p, failed, published, input) =
        retries_fail max_retry_policy t c.publishing (taken i m ms (f c.broker) c) r refl refl
          (omega arith) closed in
      subst
        (λ x.
          let d = run lib buffer_size max_retry_policy (retries max_retry_policy) x in
          (d.failed ≡ m ∷ c.failed)
          × (d.published ≡ c.published)
          × (d.publishing ≡ c.publishing)
          × (d.input_channel ≡ ms))
        (sym (takes i m ms (f c.broker) c w q)) (failed, published, p, input)
