-- ===== src/Pipeline/Consumer/Setup/Closed.antt =====
-- What the goroutine of the consumer leaves behind.
use ormus.Prelude.{
  ℕ, suc, ◌≡◌, ◌≢◌, ◌∙◌, String, Bool, true, false, Exec, Error, Outcome, ok, err, panic,
  Outcome-cases, inl, inr, ◌>>=◌,
}
use ormus.Pipeline.Dialled.{failed_on, fail_on_error}
use ormus.Pipeline.Consumer.Setup.{Library, and_closed, deferring, subscribe, consume_deliveries}

-- One more where a call succeeds.
abbrev pub opened : {A : Type 0} → Outcome A → ℕ → ℕ
opened (ok a) n = suc n
opened (err e) n = n
opened panic n = n

pub failed_on-≢-err : {A : Type 0} (o : Outcome A) (e : Error) → failed_on o ≢ err e
failed_on-≢-err (ok a) e h = cc
failed_on-≢-err (err x) e h = cc
failed_on-≢-err panic e h = cc

and_closed-≢-err :
    {A : Type 0} (o : Outcome A) (x : Outcome (Unit {0})) (e : Error)
    → o ≢ err e
    → and_closed o x ≢ err e
and_closed-≢-err (ok a) (ok u) e h k = cc
and_closed-≢-err (ok a) (err y) e h k = cc
and_closed-≢-err (ok a) panic e h k = cc
and_closed-≢-err (err y) (ok u) e h k = h k
and_closed-≢-err (err y) (err z) e h k = cc
and_closed-≢-err (err y) panic e h k = cc
and_closed-≢-err panic x e h k = cc

module _ {B : Type 0} (unclosed : B → ℕ) where
  -- What opens something, and what closes it, also where it returns an error.
  pub record Opens {A : Type 0} (open_it : Exec B A) (close : A → Exec B (Unit {0})) : Type 0 where
    pub counts : (b : B) → unclosed (open_it b).1 ≡ opened (open_it b).0 (unclosed b)
    pub closes : (a : A) (b : B) (n : ℕ) → unclosed b ≡ suc n → unclosed (close a b).1 ≡ n

  abbrev pub Keeps : {A : Type 0} → Exec B A → Type 0
  Keeps m = (b : B) → unclosed (m b).1 ≡ unclosed b

  -- What was opened is closed, and a failure is a panic.
  abbrev pub Closes : {A : Type 0} → Exec B A → Type 0
  Closes m = (b : B) → (unclosed (m b).1 ≡ unclosed b) × ((e : Error) → (m b).0 ≢ err e)

  pub fail_on_error-Closes : {A : Type 0} (m : Exec B A) → Keeps m → Closes (fail_on_error m)
  fail_on_error-Closes m k b = (k b, failed_on-≢-err (m b).0)

  pub and_then-Closes :
      {A C : Type 0} (m : Exec B A) (f : A → Exec B C)
      → Closes m
      → ((a : A) → Closes (f a))
      → Closes (m >>= f)
  and_then-Closes m f h k b = elim (Outcome-cases (m b).0) [
    | inl (a, e) ↦ let (u, p) = k a (m b).1 in rw e (u ∙ (h b).0, p)
    | inr (inl (x, e)) ↦ elim ((h b).1 x e) [ ]
    | inr (inr e) ↦ rw e ((h b).0, λ x q. cc)
  ]

  pub after_call :
      {A C : Type 0} (m : Exec B A) (f : A → Exec B C)
      → Keeps m
      → ((a : A) → Closes (f a))
      → Closes (fail_on_error m >>= f)
  after_call m f h k = and_then-Closes (fail_on_error m) f (fail_on_error-Closes m h) k

  with_opened :
      {A C : Type 0} (open_it : Exec B A) (close : A → Exec B (Unit {0})) (f : A → Exec B C)
      → Opens open_it close
      → ((a : A) → Closes (f a))
      → Closes (fail_on_error open_it >>= λ a. deferring (close a) (f a))
  with_opened open_it close f o h b =
      let t = (open_it b).1 in
      let count = o.counts b in
      elim (Outcome-cases (open_it b).0) [
        | inl (a, e) ↦
            let (u, p) = h a t in
            rw e (
              o.closes a (f a t).1 (unclosed b) (u ∙ rw e at count),
              λ x. and_closed-≢-err (f a t).0 (close a (f a t).1).0 x (p x),
            )
        | inr (inl (x, e)) ↦ rw e (rw e at count, λ x q. cc)
        | inr (inr e) ↦ rw e (rw e at count, λ x q. cc)
      ]

module _ {B Conn Ch Msgs : Type 0} (lib : Library B Conn Ch Msgs) (topic : String)
    (loop : Msgs → Exec B (Unit {0})) (unclosed : B → ℕ) where
  -- What each call of the library does to the number of what is open.
  pub record Counts : Type 0 where
    pub connection : Opens unclosed lib.dial lib.close_connection
    pub channel : (conn : Conn) → Opens unclosed (lib.channel conn) lib.close_channel
    pub exchange :
        (ch : Ch) (name kind : String) (durable : Bool)
        → Keeps unclosed (lib.exchange_declare ch name kind durable)
    pub queue :
        (ch : Ch) (name : String) (durable exclusive : Bool)
        → Keeps unclosed (lib.queue_declare ch name durable exclusive)
    pub bind :
        (ch : Ch) (q key exchange : String) → Keeps unclosed (lib.queue_bind ch q key exchange)
    pub deliveries : (ch : Ch) (q : String) → Keeps unclosed (lib.consume ch q)

  subscribe-Closes : (ch : Ch) → Counts → Closes unclosed (subscribe lib topic loop ch)
  subscribe-Closes ch k =
      let exchange : String = "processed-events-exchange" in
      after_call unclosed (lib.exchange_declare ch exchange "topic" true) _
        (k.exchange ch exchange "topic" true)
        λ _.
          after_call unclosed (lib.queue_declare ch "" false true) _ (k.queue ch "" false true) λ q.
            after_call unclosed (lib.queue_bind ch q topic exchange) _ (k.bind ch q topic exchange)
              λ _. fail_on_error-Closes unclosed (lib.consume ch q) (k.deliveries ch q)

  -- However the dial, the channel, the declarations, the subscription, the loop or a closing fails,
  -- the goroutine has closed the connection and the channel that it opened, and what failed ends
  -- the program by a panic: the goroutine never returns an error.
  pub consume_deliveries-Closes :
      Counts
      → ((msgs : Msgs) → Closes unclosed (loop msgs))
      → Closes unclosed (consume_deliveries lib topic loop)
  unfolding consume_deliveries
  consume_deliveries-Closes k h =
      with_opened unclosed lib.dial lib.close_connection _ k.connection λ conn.
        with_opened unclosed (lib.channel conn) lib.close_channel _ (k.channel conn) λ ch.
          and_then-Closes unclosed (subscribe lib topic loop ch) loop (subscribe-Closes ch k) h
