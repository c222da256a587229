-- ===== src/Pipeline/Consume.antt =====
-- Which messages the three consumers acknowledge, and which they pass on.
use ormus.Prelude.{
  ℕ, String, none, some, ◌≡◌, ◌≢◌, refl, Bool-cases, false, inl, inr, [], ◌∷◌, ◌++◌, Table, Outcome,
  ok, err, panic, Error, ◌==◌,
}
use ormus.Event.{ProcessedEvent}
use ormus.Pipeline.{
  Fate, undecoded, unacknowledged, crashed, Pipe, Ack, traced, consume_processed_event,
  consume_task, consume_acked_task, forward_first,
}

module _ {B Body : Type 0} (size : Body → ℕ) (decode : Body → Outcome ProcessedEvent)
    (carrier : ProcessedEvent → Table String) where
  forward_first-changed :
      (ack : Ack B) (refused : Error → Fate) (o : Outcome ProcessedEvent) (p : Pipe B)
      → let q = (forward_first size decode carrier ack refused o p).1 in
        q.broker ≢ p.broker
        → (e : ProcessedEvent) × (o ≡ ok e)
          × (q.events ≡ p.events ++ traced carrier e ∷ [])
          × (q.broker ≡ (ack p.broker).1)
  forward_first-changed ack refused (ok e) p h = (e, refl, refl, refl)
  forward_first-changed ack refused (err x) p h = absurd (h refl)
  forward_first-changed ack refused panic p h = absurd (h refl)

  -- Of the consumer of processed events and of the consumer of tasks, the broker is asked to
  -- acknowledge a message only after its event was passed on: where the state of the broker changes
  -- at all, the channel has the decoded event as its last.
  acked_forwarded :
      (body : Body) (ack : Ack B) (p : Pipe B)
      → let (f, q) = consume_processed_event size decode carrier body ack p in
        let (g, r) = consume_task size decode carrier body ack p in
        (q.broker ≢ p.broker
          → (e : ProcessedEvent) × (decode body ≡ ok e)
            × (q.events ≡ p.events ++ traced carrier e ∷ [])
            × (q.broker ≡ (ack p.broker).1))
        × (r.broker ≢ p.broker
            → (e : ProcessedEvent) × (decode body ≡ ok e)
              × (r.events ≡ p.events ++ traced carrier e ∷ [])
              × (r.broker ≡ (ack p.broker).1))
  unfolding consume_processed_event consume_task
  acked_forwarded body ack p = (
    λ h. elim (Bool-cases (size body == 0)) [
      | inl empty ↦ absurd (h (rw empty))
      | inr full ↦ rw full (forward_first-changed ack unacknowledged (decode body) p (rw full at h))
    ],
    forward_first-changed ack (λ _. crashed) (decode body) p,
  )

  -- The older consumer of tasks acknowledges first: a message that does not decode is gone from the
  -- broker, and nothing is passed on.
  pub acked_lost :
      (body : Body) (ack : Ack B) (p : Pipe B) (x : Error)
      → decode body ≡ err x
      → (ack p.broker).0 ≡ none
      → consume_acked_task size decode carrier body ack p
        ≡ (undecoded x, record p { broker = (ack p.broker).1 })
  unfolding consume_acked_task
  acked_lost body ack p x bad acked = rw (acked, bad)

  -- A refused acknowledgement of a message that decodes crashes the worker's consumer of tasks,
  -- where the consumer of processed events reports it; both have passed the event on by then.
  pub refused_ack :
      (body : Body) (ack : Ack B) (p : Pipe B) (e : ProcessedEvent) (x : Error)
      → decode body ≡ ok e
      → (ack p.broker).0 ≡ some x
      → (size body == 0) ≡ false
      → let q = record p {
        events = p.events ++ traced carrier e ∷ [];
        broker = (ack p.broker).1;
      } in
        (consume_task size decode carrier body ack p ≡ (crashed, q))
        × (consume_processed_event size decode carrier body ack p ≡ (unacknowledged x, q))
  unfolding consume_processed_event consume_task
  refused_ack body ack p e x good refused full = (rw (good, refused), rw (full, good, refused))
