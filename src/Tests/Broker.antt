-- ===== src/Tests/Broker.antt =====
-- The client of pkg/broker, over a library that keeps a log and one that counts what is open.
use ormus.Prelude.{
  ℕ, suc, ◌≡◌, refl, List, [], ◌∷◌, ◌++◌, none, Bool, true, false, Exec, ok, err, plain, String,
  str_eq,
}
use ormus.Broker.{
  Message, new_message, AmqpBaseConfig, AmqpConfig, Amqp, Fmt, RabbitMq, new_amqp_config,
  publish_message,
}
use ormus.Broker.Published.{
  Entry, added, PublishesPrefix, Publishes, publish_message-PublishesPrefix,
}
use ormus.Broker.Connection.{Counts}
use ormus.Broker.Consuming.{Step, arrive, close_msgs, turn, receive, run, start}
use ormus.Broker.Consuming.Ordered.{Ordered, run-start-Ordered}

abbrev base : AmqpBaseConfig
base = record {
  username = "guest";
  password = "guest";
  hostname = "localhost";
  port = 5672;
  virtual_host = "";
  exchange_name = "events";
  exchange_mode = "direct";
}

abbrev fmt : Fmt
fmt = record { errorf = λ text e. plain text; decimal = λ n. "5672" }

abbrev config : AmqpConfig (Unit {0})
config = new_amqp_config tt base none

abbrev Log : Type 0
Log = List Entry

-- The broker refuses one body.
abbrev publish : Bool → Entry → Exec Log (Unit {0})
publish true e log = (err (plain "channel closed"), log)
publish false e log = (ok tt, log ++ e ∷ [])

abbrev logging : Amqp Log (Unit {0}) (Unit {0}) (Unit {0}) (Unit {0})
logging = record {
  dial = λ uri log. (ok tt, log);
  channel = λ conn log. (ok tt, log);
  exchange_declare = λ ch name kind d a i n args log. (ok tt, log);
  queue_declare = λ ch name d a e n args log. (ok name, log);
  queue_bind = λ ch q key name n args log. (ok tt, log);
  publish = λ ch name key m i kind body. publish (str_eq body "bad") (name, key, body);
  consume = λ ch q tag a e l n args log. (ok tt, log);
  close_channel = λ ch log. (ok tt, log);
  close_connection = λ conn log. (ok tt, log);
}

abbrev client : RabbitMq (Unit {0}) (Unit {0}) (Unit {0})
client = record { conn = tt; ch = tt; base_cfg = base; optional_cfg = config.amqp_option }

logged :
    (refused : Bool) (e : Entry) (log : Log)
    → (publish refused e log).1 ≡ added (publish refused e log).0 e log
logged true e log = refl
logged false e log = refl

logging-Publishes : Publishes logging fmt client (λ log. log)
logging-Publishes = record {
  exchange = λ name kind d a i n args b. refl;
  queue = λ name d a e n args b. refl;
  bound = λ q key name n args b. refl;
  publish = λ name key m i kind body b. logged (str_eq body "bad") (name, key, body) b;
}

abbrev messages : List (Message ℕ)
messages = new_message 1 "topic" "a" ∷ new_message 2 "topic" "bad" ∷ new_message 3 "topic" "c" ∷ []

publish_message-PublishesPrefix_example :
    let (o, t) = publish_message logging fmt client "topic" messages [] in
    (q : String) × PublishesPrefix "events" q messages [] t o
publish_message-PublishesPrefix_example =
    publish_message-PublishesPrefix logging fmt client (λ log. log) "topic" messages []
      logging-Publishes

-- What is open, of a broker that refuses each channel.
abbrev refusing : Amqp ℕ (Unit {0}) (Unit {0}) (Unit {0}) (Unit {0})
refusing = record {
  dial = λ uri n. (ok tt, suc n);
  channel = λ conn n. (err (plain "no more channels"), n);
  exchange_declare = λ ch name kind d a i no_wait args n. (ok tt, n);
  queue_declare = λ ch name d a e no_wait args n. (ok name, n);
  queue_bind = λ ch q key name no_wait args n. (ok tt, n);
  publish = λ ch name key m i kind body n. (ok tt, n);
  consume = λ ch q tag a e l no_wait args n. (ok tt, n);
  close_channel = λ ch n. (err (plain "closed"), n);
  close_connection = λ conn n. (err (plain "closed"), n);
}

refusing-Counts : Counts refusing fmt (λ n. n)
refusing-Counts = record {
  dialled = λ uri b. refl;
  with_channel = λ conn b. refl;
  without_channel = λ ch b. refl;
  hung_up = λ conn b. refl;
}

abbrev steps : List Step
steps =
    arrive "a" ∷ turn ∷ arrive "b" ∷ turn ∷ turn ∷ receive ∷ turn ∷ close_msgs ∷ turn ∷ receive ∷ []

run-start-Ordered_example : Ordered (λ n. n) "topic" 1 (run (λ n. n) "topic" 1 steps start)
run-start-Ordered_example = run-start-Ordered (λ n. n) "topic" 1 steps
