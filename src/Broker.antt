-- ===== src/Broker.antt =====
-- The client of RabbitMQ of pkg/broker: pkg/broker/rabbitmq/rabbitmq.go and config.go, with the
-- messages of pkg/broker/messagebroker. The library of RabbitMQ is a parameter, over a state that
-- holds it and the broker, and so are what fmt does with an error and a number, and the library of
-- UUIDs. Arguments of declarations are of a type of their own, with `nil`.
pub mod Published
pub mod Connection
pub mod Consuming
use ormus.Prelude.{
  ℕ, String, Bool, true, false, Option, none, some, List, [], ◌∷◌, Exec, Outcome, ok, err, panic,
  Error, ◌>>=◌, return, concat,
}

pub record Message (Uuid : Type 0) : Type 0 where
  pub id : Uuid
  pub topic : String
  pub payload : String

abbrev pub new_message : {Uuid : Type 0} → Uuid → String → String → Message Uuid
new_message uuid topic payload = record { id = uuid; topic = topic; payload = payload }

pub record AmqpBaseConfig : Type 0 where
  pub username : String
  pub password : String
  pub hostname : String
  pub port : ℕ
  pub virtual_host : String
  pub exchange_name : String
  pub exchange_mode : String

pub record AmqpOptions (Args : Type 0) : Type 0 where
  pub consume_message_chan_size : ℕ
  pub exchange_durable : Bool
  pub exchange_auto_deleted : Bool
  pub exchange_internal : Bool
  pub exchange_no_wait : Bool
  pub exchange_args : Args
  pub queue_durable : Bool
  pub queue_auto_deleted : Bool
  pub queue_exclusive : Bool
  pub queue_no_wait : Bool
  pub queue_args : Args
  pub publish_mandatory : Bool
  pub publish_immediate : Bool
  pub consumer_tag : String
  pub consumer_auto_ack : Bool
  pub consumer_exclusive : Bool
  pub consumer_no_local : Bool
  pub consumer_no_wait : Bool
  pub consumer_args : Args

pub record AmqpConfig (Args : Type 0) : Type 0 where
  pub base_config : AmqpBaseConfig
  pub amqp_option : AmqpOptions Args

-- The zero value of the options.
abbrev pub no_options : {Args : Type 0} → Args → AmqpOptions Args
no_options nil = record {
  consume_message_chan_size = 0;
  exchange_durable = false;
  exchange_auto_deleted = false;
  exchange_internal = false;
  exchange_no_wait = false;
  exchange_args = nil;
  queue_durable = false;
  queue_auto_deleted = false;
  queue_exclusive = false;
  queue_no_wait = false;
  queue_args = nil;
  publish_mandatory = false;
  publish_immediate = false;
  consumer_tag = "";
  consumer_auto_ack = false;
  consumer_exclusive = false;
  consumer_no_local = false;
  consumer_no_wait = false;
  consumer_args = nil;
}

abbrev pub new_amqp_config :
    {Args : Type 0} → Args → AmqpBaseConfig → Option (AmqpOptions Args) → AmqpConfig Args
new_amqp_config nil base (some o) = record { base_config = base; amqp_option = o }
new_amqp_config nil base none = record {
  base_config = base;
  amqp_option = record (no_options nil) {
    exchange_durable = true;
    queue_auto_deleted = true;
    consumer_auto_ack = true;
    consumer_tag = "";
    consume_message_chan_size = 100;
  };
}

-- The calls of the library, their arguments in its order.
pub record Amqp (B Conn Ch Args Msgs : Type 0) : Type 0 where
  pub dial : String → Exec B Conn
  pub channel : Conn → Exec B Ch
  pub exchange_declare : Ch → String → String → Bool → Bool → Bool → Bool → Args → Exec B (Unit {0})
  -- the name of the queue that was declared
  pub queue_declare : Ch → String → Bool → Bool → Bool → Bool → Args → Exec B String
  pub queue_bind : Ch → String → String → String → Bool → Args → Exec B (Unit {0})
  -- exchange, key, mandatory, immediate, type of the content, body
  pub publish : Ch → String → String → Bool → Bool → String → String → Exec B (Unit {0})
  pub consume : Ch → String → String → Bool → Bool → Bool → Bool → Args → Exec B Msgs
  pub close_channel : Ch → Exec B (Unit {0})
  pub close_connection : Conn → Exec B (Unit {0})

pub record Fmt : Type 0 where
  -- `fmt.Errorf` of a text and `%w`
  pub errorf : String → Error → Error
  -- `%d`
  pub decimal : ℕ → String

pub record RabbitMq (Conn Ch Args : Type 0) : Type 0 where
  pub conn : Conn
  pub ch : Ch
  pub base_cfg : AmqpBaseConfig
  pub optional_cfg : AmqpOptions Args

-- An error is returned with a text before it.
abbrev pub wrapped : {A : Type 0} → (Error → Error) → Outcome A → Outcome A
wrapped f (ok a) = ok a
wrapped f (err e) = err (f e)
wrapped f panic = panic

abbrev pub wrapping : {S A : Type 0} → (Error → Error) → Exec S A → Exec S A
wrapping f m s = let (o, t) = m s in (wrapped f o, t)

module _ {B Conn Ch Args Msgs : Type 0} (amqp : Amqp B Conn Ch Args Msgs) (fmt : Fmt) where
  abbrev pub amqp_uri : AmqpBaseConfig → String
  amqp_uri c = concat "amqp://" (
      concat c.username (
        concat ":" (
          concat c.password (
            concat "@" (
              concat c.hostname
                (concat ":" (concat (fmt.decimal c.port) (concat "/" c.virtual_host))))))))

  unfoldable pub new_rabbitmq_broker : AmqpConfig Args → Exec B (RabbitMq Conn Ch Args)
  new_rabbitmq_broker c =
      wrapping (fmt.errorf "failed to connect to RabbitMQ: ") (amqp.dial (amqp_uri c.base_config))
      >>= λ conn. wrapping (fmt.errorf "failed to open a channel: ") (amqp.channel conn) >>= λ ch.
          return (record {
            conn = conn;
            ch = ch;
            base_cfg = c.base_config;
            optional_cfg = c.amqp_option;
          })

  module _ (rb : RabbitMq Conn Ch Args) where
    abbrev pub close_channel : Exec B (Unit {0})
    close_channel = amqp.close_channel rb.ch

    unfoldable pub close : Exec B (Unit {0})
    close = wrapping (fmt.errorf "failed to close channel: ") (amqp.close_channel rb.ch) >>= λ _.
        wrapping (fmt.errorf "failed to close connection: ") (amqp.close_connection rb.conn)

    abbrev pub declare_exchange : String → String → Exec B (Unit {0})
    declare_exchange exchange_name kind =
        let o = rb.optional_cfg in
        amqp.exchange_declare rb.ch exchange_name kind o.exchange_durable o.exchange_auto_deleted
          o.exchange_internal o.exchange_no_wait o.exchange_args

    abbrev pub declare_and_bind_queue : String → Exec B String
    declare_and_bind_queue topic =
        let o = rb.optional_cfg in
        wrapping (fmt.errorf "failed to Declare a queue: ") (
          amqp.queue_declare rb.ch topic o.queue_durable o.queue_auto_deleted o.queue_exclusive
            o.queue_no_wait o.queue_args)
        >>= λ q.
            wrapping (fmt.errorf "failed to bind a queue: ")
              (amqp.queue_bind rb.ch q topic rb.base_cfg.exchange_name o.queue_no_wait o.queue_args)
            >>= λ _. return q

    unfoldable pub declare_exchange_and_bind_queue : String → String → String → Exec B String
    declare_exchange_and_bind_queue topic exchange_name kind =
        declare_exchange exchange_name kind >>= λ _. declare_and_bind_queue topic

    unfoldable pub publish_each : {Uuid : Type 0} → String → List (Message Uuid) → Exec B (Unit {0})
    publish_each q [] = return tt
    publish_each q (msg ∷ messages) =
        wrapping (fmt.errorf "failed to publish a message: ") (
          amqp.publish rb.ch rb.base_cfg.exchange_name q rb.optional_cfg.publish_mandatory
            rb.optional_cfg.publish_immediate "text/plain" msg.payload)
        >>= λ _. publish_each q messages

    unfoldable pub publish_message :
        {Uuid : Type 0} → String → List (Message Uuid) → Exec B (Unit {0})
    unfolding declare_exchange_and_bind_queue publish_each
    publish_message topic messages =
        declare_exchange_and_bind_queue topic rb.base_cfg.exchange_name rb.base_cfg.exchange_mode
        >>= λ q. publish_each q messages

    -- `ConsumeMessage` up to its goroutine.
    unfoldable pub subscribe : String → Exec B Msgs
    subscribe topic =
        let o = rb.optional_cfg in
        wrapping (fmt.errorf "failed to register a consumer: ") (
          amqp.consume rb.ch topic o.consumer_tag o.consumer_auto_ack o.consumer_exclusive
            o.consumer_no_local o.consumer_no_wait o.consumer_args)
