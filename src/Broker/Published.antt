-- ===== src/Broker/Published.antt =====
-- What a call of `PublishMessage` has published.
use ormus.Prelude.{
  ◌≡◌, ◌≢◌, refl, sym, ap, ◌∙◌, String, Bool, List, [], ◌∷◌, ◌++◌, Exec, Outcome, ok, err, panic,
  Error, and_then, and_then-state,
}
use mathlib.Core.Path.{subst}
use mathlib.Core.List.{append_assoc, append-nil}
use ormus.Broker.{
  Message, Amqp, Fmt, RabbitMq, wrapped, declare_and_bind_queue, wrapping,
  declare_exchange_and_bind_queue, publish_each, publish_message,
}

-- Exchange, key and body.
abbrev pub Entry : Type 0
Entry = String × String × String

abbrev pub added : {A : Type 0} → Outcome A → Entry → List Entry → List Entry
added (ok a) e es = es ++ e ∷ []
added (err x) e es = es
added panic e es = es

abbrev pub entries : {Uuid : Type 0} → String → String → List (Message Uuid) → List Entry
entries exchange q [] = []
entries exchange q (m ∷ ms) = (exchange, q, m.payload) ∷ entries exchange q ms

-- Of the messages a first part was published, in order, and the rest was not; that is all of them
-- exactly if the outcome is no error.
pub record PublishesPrefix {Uuid : Type 0} (exchange q : String) (messages : List (Message Uuid))
    (before after : List Entry) (o : Outcome (Unit {0})) : Type 0 where
  pub first : List (Message Uuid)
  pub rest : List (Message Uuid)
  pub splits : messages ≡ first ++ rest
  pub adds : after ≡ before ++ entries exchange q first
  pub complete : o ≡ ok tt → rest ≡ []
  pub stopped : messages ≢ [] → rest ≡ [] → o ≡ ok tt

module _ {B Conn Ch Args Msgs : Type 0} (amqp : Amqp B Conn Ch Args Msgs) (fmt : Fmt)
    (rb : RabbitMq Conn Ch Args) (published : B → List Entry) where
  -- What the calls of the library do to what is published.
  pub record Publishes : Type 0 where
    pub exchange :
        (name kind : String) (d a i n : Bool) (args : Args) (b : B)
        → published (amqp.exchange_declare rb.ch name kind d a i n args b).1 ≡ published b
    pub queue :
        (name : String) (d a e n : Bool) (args : Args) (b : B)
        → published (amqp.queue_declare rb.ch name d a e n args b).1 ≡ published b
    pub bound :
        (q key name : String) (n : Bool) (args : Args) (b : B)
        → published (amqp.queue_bind rb.ch q key name n args b).1 ≡ published b
    pub publish :
        (name key : String) (m i : Bool) (kind body : String) (b : B)
        → let (o, t) = amqp.publish rb.ch name key m i kind body b in
          published t ≡ added o (name, key, body) (published b)

  cons_left :
      {Uuid : Type 0} (msg : Message Uuid) (messages : List (Message Uuid)) → msg ∷ messages ≢ []
  cons_left msg messages h = cc

  none_sent :
      {Uuid : Type 0} (q : String) (messages : List (Message Uuid)) (before after : List Entry)
      (o : Outcome (Unit {0}))
      → after ≡ before
      → o ≢ ok tt
      → (s : PublishesPrefix rb.base_cfg.exchange_name q messages before after o) × (s.rest
          ≡ messages)
  none_sent q messages before after o same h = (
    record {
      first = [];
      rest = messages;
      splits = refl;
      adds = same ∙ sym (append-nil before);
      complete = λ e. elim (h e) [ ];
      stopped = λ some_left e. elim (some_left e) [ ];
    },
    refl,
  )

  -- The log before and after some publications, and whether they all succeeded.
  abbrev Tells :
      {Uuid : Type 0} → String → List (Message Uuid) → List Entry → Outcome (Unit {0}) × B → Type 0
  Tells q messages before (o, t) =
      (s : PublishesPrefix rb.base_cfg.exchange_name q messages before (published t) o) × (s.rest
          ≡ []
        → o ≡ ok tt)

  after_first :
      {Uuid : Type 0} (q : String) (msg : Message Uuid) (messages : List (Message Uuid))
      (before : List Entry) (f : Error → Error) (call : Outcome (Unit {0}) × B)
      (next : Exec B (Unit {0}))
      → published call.1 ≡ added call.0 (rb.base_cfg.exchange_name, q, msg.payload) before
      → Tells q messages (published call.1) (next call.1)
      → Tells q (msg ∷ messages) before (and_then (wrapped f call.0, call.1) (λ _. next))
  after_first q msg messages before f (ok u, t) next log (tail, ends) = (
    record {
      first = msg ∷ tail.first;
      rest = tail.rest;
      splits = ap (λ ms. msg ∷ ms) tail.splits;
      adds =
          tail.adds
          ∙ ap (λ es. es ++ entries rb.base_cfg.exchange_name q tail.first) log
          ∙ append_assoc before _ _;
      complete = tail.complete;
      stopped = λ left none_left. ends none_left;
    },
    ends,
  )
  after_first q msg messages before f (err x, t) next log tail =
      let (s, all_left) =
        none_sent q (msg ∷ messages) before (published t) (err (f x)) log (λ h. cc) in
      (s, λ h. elim (cons_left msg messages (sym all_left ∙ h)) [ ])
  after_first q msg messages before f (panic, t) next log tail =
      let (s, all_left) = none_sent q (msg ∷ messages) before (published t) panic log (λ h. cc) in
      (s, λ h. elim (cons_left msg messages (sym all_left ∙ h)) [ ])

  publish_each-Tells :
      {Uuid : Type 0} (q : String) (messages : List (Message Uuid)) (b : B)
      → Publishes
      → Tells q messages (published b) (publish_each amqp fmt rb q messages b)
  unfolding publish_each
  publish_each-Tells q [] b p = (
    record {
      first = [];
      rest = [];
      splits = refl;
      adds = sym (append-nil (published b));
      complete = λ e. refl;
      stopped = λ left e. refl;
    },
    λ e. refl,
  )
  publish_each-Tells q (msg ∷ messages) b p =
      let exchange = rb.base_cfg.exchange_name in
      let o = rb.optional_cfg in
      let call =
        amqp.publish rb.ch exchange q o.publish_mandatory o.publish_immediate "text/plain"
          msg.payload b in
      after_first q msg messages (published b) (fmt.errorf "failed to publish a message: ") call
        (publish_each amqp fmt rb q messages)
        (p.publish exchange q o.publish_mandatory o.publish_immediate "text/plain" msg.payload b)
        (publish_each-Tells q messages call.1 p)

  declare_and_bind-same :
      (topic : String) (b : B)
      → Publishes
      → published (declare_and_bind_queue amqp fmt rb topic b).1 ≡ published b
  declare_and_bind-same topic b p =
      let o = rb.optional_cfg in
      let m = wrapping (fmt.errorf "failed to Declare a queue: ") (
        amqp.queue_declare rb.ch topic o.queue_durable o.queue_auto_deleted o.queue_exclusive
          o.queue_no_wait o.queue_args) in
      let Same : B → Type 0 = λ t. published t ≡ published b in
      let declared =
        p.queue topic o.queue_durable o.queue_auto_deleted o.queue_exclusive o.queue_no_wait
          o.queue_args b in
      and_then-state Same (m b) _ declared λ q e.
        let bind =
          wrapping (fmt.errorf "failed to bind a queue: ") (
            amqp.queue_bind rb.ch q topic rb.base_cfg.exchange_name o.queue_no_wait o.queue_args) in
        let bound =
          p.bound q topic rb.base_cfg.exchange_name o.queue_no_wait o.queue_args (m b).1 in
        and_then-state Same (bind (m b).1) _ (bound ∙ declared) (λ u h. bound ∙ declared)

  declared-same :
      (topic name kind : String) (b : B)
      → Publishes
      → published (declare_exchange_and_bind_queue amqp fmt rb topic name kind b).1 ≡ published b
  unfolding declare_exchange_and_bind_queue
  declared-same topic name kind b p =
      let o = rb.optional_cfg in
      let Same : B → Type 0 = λ t. published t ≡ published b in
      and_then-state Same
        (amqp.exchange_declare rb.ch name kind o.exchange_durable o.exchange_auto_deleted
          o.exchange_internal o.exchange_no_wait o.exchange_args b)
        _ (p.exchange name kind _ _ _ _ _ b)
        λ u e. declare_and_bind-same topic _ p ∙ p.exchange name kind _ _ _ _ _ b

  after_declared :
      {Uuid : Type 0} (topic : String) (messages : List (Message Uuid)) (before : List Entry)
      (declared : Outcome String × B) (f : String → Exec B (Unit {0}))
      → published declared.1 ≡ before
      → ((q : String) → Tells q messages (published declared.1) (f q declared.1))
      → let (o, t) = and_then declared f in
        (q : String) × PublishesPrefix rb.base_cfg.exchange_name q messages before (published t) o
  after_declared topic messages before (ok q, t) f same tells = (
    q,
    let (o, u) = f q t in
        subst (λ log. PublishesPrefix rb.base_cfg.exchange_name q messages log (published u) o) same
          (tells q).0,
  )
  after_declared topic messages before (err x, t) f same tells =
      (topic, (none_sent topic messages before (published t) (err x) same (λ h. cc)).0)
  after_declared topic messages before (panic, t) f same tells =
      (topic, (none_sent topic messages before (published t) panic same (λ h. cc)).0)

  -- Whatever the declarations and the publications answer, the messages of a call are published in
  -- their order with one queue's name as their key until the first failure, and nothing else is:
  -- what was published is a first part of the messages, all of them where there is no error, and
  -- not all of them where there is one, unless there was no message.
  pub publish_message-PublishesPrefix :
      {Uuid : Type 0} (topic : String) (messages : List (Message Uuid)) (b : B)
      → Publishes
      → let (o, t) = publish_message amqp fmt rb topic messages b in
        (q : String) × PublishesPrefix rb.base_cfg.exchange_name q messages
          (published b)
          (published t)
          o
  unfolding publish_message
  publish_message-PublishesPrefix topic messages b p =
      let c = rb.base_cfg in
      let declared =
        declare_exchange_and_bind_queue amqp fmt rb topic c.exchange_name c.exchange_mode b in
      after_declared topic messages (published b) declared
        (λ q. publish_each amqp fmt rb q messages)
        (declared-same topic c.exchange_name c.exchange_mode b p)
        (λ q. publish_each-Tells q messages declared.1 p)
