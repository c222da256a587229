-- ===== src/Broker/Connection.antt =====
-- What the client of pkg/broker leaves open: `NewRabbitMQBroker` and `Close`.
use ormus.Prelude.{
  ℕ, suc, ◌≡◌, ap, ◌∙◌, Error, Outcome, ok, err, panic, String, and_then, and_then-eq-ok, return,
  ◌>>=◌,
}
use ormus.Broker.{
  AmqpConfig, Amqp, Fmt, RabbitMq, wrapped, wrapping, amqp_uri, new_rabbitmq_broker, close,
}

-- One more, or one less, where a call succeeds.
abbrev pub opened : {A : Type 0} → Outcome A → ℕ → ℕ
opened (ok a) n = suc n
opened (err e) n = n
opened panic n = n

-- What is open after the constructor: by the answer of the dial, and by its own.
abbrev pub left_open : {A C : Type 0} → Outcome A → Outcome C → ℕ → ℕ
left_open (ok conn) (ok rb) n = suc (suc n)
left_open (ok conn) (err e) n = suc n
left_open (ok conn) panic n = suc n
left_open (err e) o n = n
left_open panic o n = n

wrapped-eq-ok :
    {A : Type 0} (f : Error → Error) (o : Outcome A) (a : A) → wrapped f o ≡ ok a → o ≡ ok a
wrapped-eq-ok f (ok b) a h = h
wrapped-eq-ok f (err e) a h = cc
wrapped-eq-ok f panic a h = cc

module _ {B Conn Ch Args Msgs : Type 0} (amqp : Amqp B Conn Ch Args Msgs) (fmt : Fmt)
    (unclosed : B → ℕ) where
  -- What the library's calls do to the number of what is open.
  pub record Counts : Type 0 where
    pub dialled :
        (uri : String) (b : B)
        → unclosed (amqp.dial uri b).1 ≡ opened (amqp.dial uri b).0 (unclosed b)
    pub with_channel :
        (conn : Conn) (b : B)
        → unclosed (amqp.channel conn b).1 ≡ opened (amqp.channel conn b).0 (unclosed b)
    pub without_channel :
        (ch : Ch) (b : B)
        → opened (amqp.close_channel ch b).0 (unclosed (amqp.close_channel ch b).1) ≡ unclosed b
    pub hung_up :
        (conn : Conn) (b : B)
        → opened (amqp.close_connection conn b).0 (unclosed (amqp.close_connection conn b).1)
          ≡ unclosed b

  abbrev broker_of : AmqpConfig Args → Conn → Ch → RabbitMq Conn Ch Args
  broker_of c conn ch = record {
    conn = conn;
    ch = ch;
    base_cfg = c.base_config;
    optional_cfg = c.amqp_option;
  }

  after_channel :
      (c : AmqpConfig Args) (conn : Conn) (f : Error → Error) (n : ℕ) (r : Outcome Ch × B)
      → unclosed r.1 ≡ opened r.0 (suc n)
      → let (o, t) = and_then (wrapped f r.0, r.1) (λ ch. return (broker_of c conn ch)) in
        unclosed t ≡ left_open (ok conn) o n
  after_channel c conn f n (ok ch, t) h = h
  after_channel c conn f n (err e, t) h = h
  after_channel c conn f n (panic, t) h = h

  after_dial :
      (c : AmqpConfig Args) (f g : Error → Error) (n : ℕ) (r : Outcome Conn × B)
      → Counts
      → unclosed r.1 ≡ opened r.0 n
      → let (o, t) =
          and_then
            (wrapped f r.0, r.1)
            (λ conn. wrapping g (amqp.channel conn) >>= λ ch. return (broker_of c conn ch)) in
        unclosed t ≡ left_open r.0 o n
  after_dial c f g n (ok conn, t) k h =
      after_channel c conn g n (amqp.channel conn t)
        (k.with_channel conn t ∙ ap (opened (amqp.channel conn t).0) h)
  after_dial c f g n (err e, t) k h = h
  after_dial c f g n (panic, t) k h = h

  new_rabbitmq_broker-left_open :
      (c : AmqpConfig Args) (b : B)
      → Counts
      → let (o, t) = new_rabbitmq_broker amqp fmt c b in
        unclosed t ≡ left_open (amqp.dial (amqp_uri amqp fmt c.base_config) b).0 o (unclosed b)
  unfolding new_rabbitmq_broker
  new_rabbitmq_broker-left_open c b k =
      let uri = amqp_uri amqp fmt c.base_config in
      after_dial c (fmt.errorf "failed to connect to RabbitMQ: ")
        (fmt.errorf "failed to open a channel: ") (unclosed b) (amqp.dial uri b) k (k.dialled uri b)

  closes_two :
      (rb : RabbitMq Conn Ch Args) (b : B)
      → Counts
      → (close amqp fmt rb b).0 ≡ ok tt
      → suc (suc (unclosed (close amqp fmt rb b).1)) ≡ unclosed b
  unfolding close
  closes_two rb b k h =
      let f = fmt.errorf "failed to close channel: " in
      let g = fmt.errorf "failed to close connection: " in
      let (u, e, rest, same) = and_then-eq-ok (wrapping f (amqp.close_channel rb.ch) b) _ tt h in
      let t = (amqp.close_channel rb.ch b).1 in
      let first = wrapped-eq-ok f (amqp.close_channel rb.ch b).0 u e in
      let second = wrapped-eq-ok g (amqp.close_connection rb.conn t).0 tt rest in
      let closed : suc (unclosed t) ≡ unclosed b = rw first at (k.without_channel rb.ch b) in
      let hung_up : suc (unclosed (amqp.close_connection rb.conn t).1) ≡ unclosed t =
        rw second at (k.hung_up rb.conn t) in
      rw (same, hung_up) closed

  -- Whatever the library answers, the constructor leaves two open more than before where it returns
  -- a client, none where the dial fails, and one, the connection, where the channel fails; and a
  -- client that is closed with no error, whatever else is open by then, leaves two less.
  new_rabbitmq_broker-close :
      (c : AmqpConfig Args) (b : B)
      → Counts
      → let (o, t) = new_rabbitmq_broker amqp fmt c b in
        (unclosed t ≡ left_open (amqp.dial (amqp_uri amqp fmt c.base_config) b).0 o (unclosed b))
        × ((rb : RabbitMq Conn Ch Args) (later : B)
            → (close amqp fmt rb later).0 ≡ ok tt
            → suc (suc (unclosed (close amqp fmt rb later).1)) ≡ unclosed later)
  new_rabbitmq_broker-close c b k =
      (new_rabbitmq_broker-left_open c b k, λ rb later h. closes_two rb later k h)
