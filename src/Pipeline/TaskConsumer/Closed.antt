-- ===== src/Pipeline/TaskConsumer/Closed.antt =====
-- What the goroutine of the consumer of tasks leaves behind.
use ormus.Prelude.{ℕ, suc, ◌≡◌, String, Bool, true, Exec, Outcome-cases, inl, inr, ◌∙◌, ◌>>=◌}
use ormus.Pipeline.Dialled.{fail_on_error, deferring}
use ormus.Pipeline.Consumer.Setup.Closed.{
  opened, Keeps, Closes, fail_on_error-Closes, and_then-Closes, after_call,
}
use ormus.Pipeline.TaskConsumer.{Library, subscribe, consume_tasks}

module _ {B : Type 0} (unclosed : B → ℕ) where
  -- What opens something, and what closes it; an error of the closing is ignored.
  pub record Opens {A : Type 0} (open_it : Exec B A) (close : A → B → B) : Type 0 where
    pub counts : (b : B) → unclosed (open_it b).1 ≡ opened (open_it b).0 (unclosed b)
    pub closes : (a : A) (b : B) (n : ℕ) → unclosed b ≡ suc n → unclosed (close a b) ≡ n

  with_opened :
      {A C : Type 0} (open_it : Exec B A) (close : A → B → B) (f : A → Exec B C)
      → Opens open_it close
      → ((a : A) → Closes unclosed (f a))
      → Closes unclosed (fail_on_error open_it >>= λ a. deferring (close a) (f a))
  with_opened open_it close f o h b =
      let t = (open_it b).1 in
      let count = o.counts b in
      elim (Outcome-cases (open_it b).0) [
        | inl (a, e) ↦
            let (u, p) = h a t in rw e (o.closes a (f a t).1 (unclosed b) (u ∙ rw e at count), p)
        | inr (inl (x, e)) ↦ rw e (rw e at count, λ y q. cc)
        | inr (inr e) ↦ rw e (rw e at count, λ y q. cc)
      ]

module _ {B Conn Ch Msgs : Type 0} (lib : Library B Conn Ch Msgs) (queue_name : String)
    (loop : Msgs → Exec B (Unit {0})) (unclosed : B → ℕ) where
  -- What each call of the library does to the number of what is open.
  pub record Counts : Type 0 where
    pub connection : Opens unclosed lib.dial lib.close_connection
    pub channel : (conn : Conn) → Opens unclosed (lib.channel conn) lib.close_channel
    pub queue :
        (ch : Ch) (name : String) (durable : Bool)
        → Keeps unclosed (lib.queue_declare ch name durable)
    pub prefetch : (ch : Ch) (n : ℕ) → Keeps unclosed (lib.qos ch n)
    pub deliveries : (ch : Ch) (q : String) → Keeps unclosed (lib.consume ch q)

  subscribe-Closes : (ch : Ch) → Counts → Closes unclosed (subscribe lib queue_name loop ch)
  subscribe-Closes ch k =
      after_call unclosed (lib.queue_declare ch queue_name true) _ (k.queue ch queue_name true) λ q.
        after_call unclosed (lib.qos ch 1) _ (k.prefetch ch 1)
          λ _. fail_on_error-Closes unclosed (lib.consume ch q) (k.deliveries ch q)

  -- However the dial, the channel, the declaration, the subscription or the loop fails, the
  -- goroutine has closed the connection and the channel that it opened, and a failure is a panic
  -- and never an error.
  pub consume_tasks-Closes :
      Counts
      → ((msgs : Msgs) → Closes unclosed (loop msgs))
      → Closes unclosed (consume_tasks lib queue_name loop)
  unfolding consume_tasks
  consume_tasks-Closes k h =
      with_opened unclosed lib.dial lib.close_connection _ k.connection λ conn.
        with_opened unclosed (lib.channel conn) lib.close_channel _ (k.channel conn) λ ch.
          and_then-Closes unclosed (subscribe lib queue_name loop ch) loop (subscribe-Closes ch k) h
