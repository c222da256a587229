-- ===== src/Channel/Rabbit/Setup.antt =====
-- What setting a channel up leaves open, and which connection it uses.
use ormus.Prelude.{
  ℕ, suc, ◌+◌, ◌≤◌, ◌≡◌, refl, arith, String, true, Exec, ok, err, panic, Error, and_then-state,
  concat, Outcome-cases, ◌-◌, inl, inr, ◌>>=◌, ◌>>◌, return,
}
use ormus.Channel.{Mode, start_workers}
use ormus.Channel.Rabbit.{
  Amqp, Params, Client, RabbitmqChannel, closing, or_else, declare_exchange, declare_queue,
  bind_exchange_to_queue, declare_all, wait_for_connection, new_channel_with_context, new_channel,
}

module _ {B Conn Ch : Type 0} (amqp : Amqp B Conn Ch) (unclosed : B → ℕ) where
  -- `unclosed` counts the channels that were opened and for which `Close` was not called.
  pub record Counts : Type 0 where
    pub opened :
        (conn : Conn) (b : B) (ch : Ch)
        → (amqp.open_channel conn b).0 ≡ ok ch
        → unclosed (amqp.open_channel conn b).1 ≡ suc (unclosed b)
    pub refused :
        (conn : Conn) (b : B) (e : Error)
        → (amqp.open_channel conn b).0 ≡ err e
        → unclosed (amqp.open_channel conn b).1 ≡ unclosed b
    pub crashed :
        (conn : Conn) (b : B)
        → (amqp.open_channel conn b).0 ≡ panic
        → unclosed (amqp.open_channel conn b).1 ≡ unclosed b
    pub closed : (ch : Ch) (b : B) (n : ℕ) → unclosed b ≡ suc n → unclosed (amqp.close ch b).1 ≡ n
    pub exchange :
        (ch : Ch) (x : String) (b : B) → unclosed (amqp.exchange_declare ch x b).1 ≡ unclosed b
    pub exchange_passive :
        (ch : Ch) (x : String) (b : B)
        → unclosed (amqp.exchange_declare_passive ch x b).1 ≡ unclosed b
    pub queue : (ch : Ch) (x : String) (b : B) → unclosed (amqp.queue_declare ch x b).1 ≡ unclosed b
    pub queue_passive :
        (ch : Ch) (x : String) (b : B) → unclosed (amqp.queue_declare_passive ch x b).1 ≡ unclosed b
    pub bind : (ch : Ch) (q x : String) (b : B) → unclosed (amqp.queue_bind ch q x b).1 ≡ unclosed b

  -- At most `n` channels more stay open.
  abbrev pub Leaks : {A : Type 0} → ℕ → Exec B A → Type 0
  Leaks n m = (b : B) → (unclosed b ≤ unclosed (m b).1) × (unclosed (m b).1 ≤ unclosed b + n)

  Leaks-weaken : {A : Type 0} (n k : ℕ) (m : Exec B A) → n ≤ k → Leaks n m → Leaks k m
  Leaks-weaken n k m le h b = let (low, high) = h b in (low, omega arith)

  Leaks-bind :
      {A C : Type 0} (n k : ℕ) (m : Exec B A) (f : A → Exec B C)
      → Leaks n m
      → ((a : A) → Leaks k (f a))
      → Leaks (n + k) (m >>= f)
  Leaks-bind n k m f h g b =
      let (low, high) = h b in
      and_then-state (λ t. (unclosed b ≤ unclosed t) × (unclosed t ≤ unclosed b + (n + k))) (m b) f
        (low, omega arith) (λ a e. let (low', high') = g a (m b).1 in (omega arith, omega arith))

  Leaks-return : {A : Type 0} (a : A) → Leaks 0 (return a)
  Leaks-return a b = (omega arith, omega arith)

  Leaks-or_else :
      {A C : Type 0} (n : ℕ) (m : Exec B A) (f : A → Exec B C) (k : Exec B C)
      → Leaks 0 m
      → ((a : A) → Leaks n (f a))
      → Leaks n k
      → Leaks n (λ b. or_else (m b) f k)
  Leaks-or_else n m f k h g l b =
      let (low, high) = h b in
      elim (Outcome-cases (m b).0) [
        | inl (a, e) ↦ rw e (let (low', high') = g a (m b).1 in (omega arith, omega arith))
        | inr (inl (x, e)) ↦ rw e (let (low', high') = l (m b).1 in (omega arith, omega arith))
        | inr (inr e) ↦ rw e (low, omega arith)
      ]

  module _ (c : Counts) where
    with_channel :
        {A : Type 0} (n : ℕ) (conn : Conn) (f : Ch → Exec B A)
        → ((ch : Ch) → Leaks n (f ch))
        → Leaks n (amqp.open_channel conn >>= λ ch. closing amqp ch (f ch))
    with_channel n conn f h b = elim (Outcome-cases (amqp.open_channel conn b).0) [
      | inl (ch, e) ↦
          let t = (amqp.open_channel conn b).1 in
          let o = c.opened conn b ch e in
          let (low, high) = h ch t in
          let z = c.closed ch (f ch t).1 (unclosed (f ch t).1 - 1) (omega arith) in
          rw e (omega arith, omega arith)
      | inr (inl (x, e)) ↦ let o = c.refused conn b x e in rw e (omega arith, omega arith)
      | inr (inr e) ↦ let o = c.crashed conn b e in rw e (omega arith, omega arith)
    ]

    Leaks-open : (conn : Conn) → Leaks 1 (amqp.open_channel conn)
    Leaks-open conn b = elim (Outcome-cases (amqp.open_channel conn b).0) [
      | inl (ch, e) ↦ let o = c.opened conn b ch e in (omega arith, omega arith)
      | inr (inl (x, e)) ↦ let o = c.refused conn b x e in (omega arith, omega arith)
      | inr (inr e) ↦ let o = c.crashed conn b e in (omega arith, omega arith)
    ]

    Leaks-same : {A : Type 0} (m : Exec B A) → ((b : B) → unclosed (m b).1 ≡ unclosed b) → Leaks 0 m
    Leaks-same m h b = let e = h b in (omega arith, omega arith)

    -- A declaration that asks on a second channel where the first one fails.
    Leaks-declare :
        (conn : Conn) (first second : Ch → Exec B (Unit {0}))
        → ((ch : Ch) (b : B) → unclosed (first ch b).1 ≡ unclosed b)
        → ((ch : Ch) (b : B) → unclosed (second ch b).1 ≡ unclosed b)
        → Leaks 1 (
            amqp.open_channel conn >>= λ ch.
            closing amqp ch λ s. or_else (first ch s) return (amqp.open_channel conn >>= second))
    Leaks-declare conn first second h k = with_channel 1 conn _ λ ch.
        Leaks-or_else 1 (first ch) return (amqp.open_channel conn >>= second)
          (Leaks-same (first ch) (h ch))
          (λ a. Leaks-weaken 0 1 (return {A = Unit {0}} a) (omega arith) (Leaks-return a))
          (Leaks-bind 1 0 (amqp.open_channel conn) second (Leaks-open conn)
            (λ ch. Leaks-same (second ch) (k ch)))

    declare_exchange-Leaks : (conn : Conn) (x : String) → Leaks 1 (declare_exchange amqp conn x)
    unfolding declare_exchange
    declare_exchange-Leaks conn x =
        Leaks-declare conn (λ ch. amqp.exchange_declare ch x)
          (λ ch. amqp.exchange_declare_passive ch x) (λ ch. c.exchange ch x)
          (λ ch. c.exchange_passive ch x)

    declare_queue-Leaks : (conn : Conn) (x : String) → Leaks 1 (declare_queue amqp conn x)
    unfolding declare_queue
    declare_queue-Leaks conn x =
        Leaks-declare conn (λ ch. amqp.queue_declare ch x) (λ ch. amqp.queue_declare_passive ch x)
          (λ ch. c.queue ch x) (λ ch. c.queue_passive ch x)

    bind-Leaks : (conn : Conn) (x q : String) → Leaks 0 (bind_exchange_to_queue amqp conn x q)
    unfolding bind_exchange_to_queue
    bind-Leaks conn x q =
        with_channel 0 conn _ λ ch. Leaks-same (amqp.queue_bind ch q x) (c.bind ch q x)

    declare_all-Leaks : (conn : Conn) (p : Params) → Leaks 2 (declare_all amqp conn p)
    unfolding declare_all
    declare_all-Leaks conn p =
        let made : Exec B RabbitmqChannel =
          return (record { params = p; workers = start_workers p.mode p.number_instants }) in
        let declared = declare_exchange amqp conn p.exchange in
        let queued = declare_queue amqp conn p.queue in
        let bound = bind_exchange_to_queue amqp conn p.exchange p.queue in
        with_channel 2 conn (λ ch. declared >> (queued >> (bound >> made)))
          λ ch.
            Leaks-bind 1 1 declared (λ _. queued >> (bound >> made))
              (declare_exchange-Leaks conn p.exchange)
              λ _.
                Leaks-bind 1 0 queued (λ _. bound >> made) (declare_queue-Leaks conn p.queue)
                  λ _.
                    Leaks-bind 0 0 bound (λ _. made) (bind-Leaks conn p.exchange p.queue)
                      λ _.
                        Leaks-return {A = RabbitmqChannel}
                          (record { params = p; workers = start_workers p.mode p.number_instants })

    -- To make a channel, whatever fails in it, leaves at most two of the library's channels open
    -- that were not before, and where it returns an error, the table of channels as the wait left
    -- it.
    pub new_channel-Leaks :
        (others : Client B Conn → Client B Conn) (name : String) (mode : Mode)
        (buffer_size n retries : ℕ) (s : Client B Conn)
        → let w = wait_for_connection amqp others s in
          let r = new_channel amqp others name mode buffer_size n retries s in
          (unclosed w.broker ≤ unclosed r.1.broker)
          × (unclosed r.1.broker ≤ unclosed w.broker + 2)
          × ((e : Error) → r.0 ≡ err e → r.1.channels ≡ w.channels)
    unfolding new_channel new_channel_with_context
    new_channel-Leaks others name mode buffer_size n retries s =
        let p : Params = record {
          mode = mode;
          exchange = concat name "-exchange";
          queue = concat name "-queue";
          buffer_size = buffer_size;
          number_instants = n;
          max_retry_policy = retries;
        } in
        let b = (wait_for_connection amqp others s).broker in
        let (low, high) = declare_all-Leaks s.connection p b in
        elim (Outcome-cases (declare_all amqp s.connection p b).0) [
          | inl (ch, h) ↦ rw h (low, high, λ e k. cc)
          | inr (inl (x, h)) ↦ rw h (low, high, λ e k. refl)
          | inr (inr h) ↦ rw h (low, high, λ e k. refl)
        ]

  -- Where the connection was closed when `NewChannel` read it and stays so, a channel of it can not
  -- be opened, so that the call fails, also though the others have set a new connection while it
  -- waited; the table of channels is the one that they left.
  pub new_channel-stale :
      (others : Client B Conn → Client B Conn) (name : String) (mode : Mode)
      (buffer_size n retries : ℕ) (s : Client B Conn)
      → ((b : B)
          → amqp.connection_is_closed s.connection b ≡ true
          → (e : Error) × ((amqp.open_channel s.connection b).0 ≡ err e))
      → amqp.connection_is_closed s.connection s.broker ≡ true
      → amqp.connection_is_closed s.connection (others s).broker ≡ true
      → let r = new_channel amqp others name mode buffer_size n retries s in
        (e : Error) × (r.0 ≡ err e)
        × (r.1.channels ≡ (others s).channels)
        × (r.1.connection ≡ (others s).connection)
  unfolding new_channel new_channel_with_context wait_for_connection declare_all
  new_channel-stale others name mode buffer_size n retries s closes closed stays =
      let (e, h) = closes (others s).broker stays in rw (closed, h) (e, refl, refl, refl)
