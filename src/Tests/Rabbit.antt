-- ===== src/Tests/Rabbit.antt =====
-- Channels over a RabbitMQ that is a count of open channels, or a flag that a channel was closed.
use ormus.Prelude.{
  ℕ, zero, suc, ◌+◌, ◌-◌, ◌≤◌, ◌<◌, ◌≡◌, refl, arith, none, some, Bool, false, List, [], ◌∷◌,
  Outcome, ok, err, Error, plain, ◌==◌, if◌then◌else◌,
}
use ormus.Channel.{both_mode}
use ormus.Channel.Rabbit.{Amqp, Client, done, reconnect, new_channel, wait_for_connection}
use ormus.Channel.Rabbit.Reconnect.{reconnect_lem, after_dials, Refused}
use ormus.Channel.Rabbit.Setup.{Counts, new_channel-Leaks}
use ormus.Channel.Rabbit.Input.{Library, Event, send, turn, publish, new_input, run}
use ormus.Channel.Rabbit.Output as Output
use ormus.Channel.Rabbit.Output.Passed.{Passed, run-new_output-Passed}
use ormus.Channel.Rabbit.Input.Kept.{Kept, run-new_input-Kept}

-- A broker that has no such exchange, over connections of which 0 is closed.
abbrev pub amqp : (ℕ → ℕ → Outcome ℕ × ℕ) → Amqp ℕ ℕ ℕ
amqp opener = record {
  connection_is_closed = λ conn b. conn == 0;
  open_channel = opener;
  exchange_declare = λ ch x b. (err (plain "precondition failed"), b);
  exchange_declare_passive = λ ch x b. (ok tt, b);
  queue_declare = λ ch q b. (ok tt, b);
  queue_declare_passive = λ ch q b. (ok tt, b);
  queue_bind = λ ch q x b. (ok tt, b);
  close = λ ch b. (ok tt, b - 1);
}

abbrev pub opens : ℕ → ℕ → Outcome ℕ × ℕ
opens conn b = (ok 7, suc b)

abbrev count : ℕ → ℕ
count b = b

count-Counts : Counts (amqp opens) count
count-Counts = record {
  opened = λ conn b ch h. refl;
  refused = λ conn b e h. cc;
  crashed = λ conn b h. cc;
  closed = λ ch b n h. omega arith;
  exchange = λ ch x b. refl;
  exchange_passive = λ ch x b. refl;
  queue = λ ch x b. refl;
  queue_passive = λ ch x b. refl;
  bind = λ ch q x b. refl;
}

abbrev pub client : ℕ → Client ℕ ℕ
client conn = record { broker = 0; connection = conn; channels = [] }

abbrev pub reconnects : Client ℕ ℕ → Client ℕ ℕ
reconnects c = record c { connection = 1 }

new_channel-Leaks_example :
    let w = wait_for_connection (amqp opens) reconnects (client 1) in
    let r = new_channel (amqp opens) reconnects "tasks" both_mode 100 2 5 (client 1) in
    (count w.broker ≤ count r.1.broker)
    × (count r.1.broker ≤ count w.broker + 2)
    × ((e : Error) → r.0 ≡ err e → r.1.channels ≡ w.channels)
new_channel-Leaks_example =
    new_channel-Leaks (amqp opens) count count-Counts reconnects "tasks" both_mode 100 2 5
      (client 1)

-- The first dial is refused.
abbrev dial : ℕ → Outcome ℕ × ℕ
dial zero = (err (plain "connection refused"), 1)
dial (suc n) = (ok 9, suc n)

first-Refused : (k : ℕ) → k < 1 → Refused dial (after_dials dial k 0)
first-Refused zero h = (plain "connection refused", refl)
first-Refused (suc k) h = absurd (omega arith)

reconnect_lem_example : reconnect dial 5 4 (client 0) ≡ record {
  ended = done;
  client = record { broker = 1; connection = 9; channels = [] };
  slept = 10;
}
reconnect_lem_example = reconnect_lem dial 5 4 1 (client 0) 9 first-Refused refl (omega arith)

-- A channel that refuses once it is closed.
abbrev one_channel : Library Bool ℕ
one_channel = record {
  connection_is_closed = λ b. false;
  open_channel = λ b. (some 7, b);
  channel_is_closed = λ ch b. b;
  publish_with_context = λ ch m b. (if b then some (plain "closed") else none, b);
  close = λ ch b. b;
}

abbrev published_once : List (Event Bool)
published_once = send 5 ∷ turn 0 ∷ turn 0 ∷ turn 0 ∷ turn 0 ∷ publish 0 ∷ []

run-new_input-Kept_example :
    Kept one_channel 2 1 (run one_channel 2 1 published_once (new_input false))
run-new_input-Kept_example = run-new_input-Kept one_channel 2 1 published_once false

-- A broker that has one delivery for each receive until it is closed.
abbrev one_output : Output.Library Bool ℕ
one_output = record {
  connection_is_closed = λ b. false;
  open_channel = λ b. (some 7, b);
  consume = λ ch b. (ok tt, b);
  channel_is_closed = λ ch b. b;
  receive = λ ch b. (some (if b then Output.zero_delivery else Output.message 5), b);
  close = λ ch b. b;
}

abbrev passed_once : List (Output.Event Bool)
passed_once =
    Output.turn 0
    ∷ Output.turn 0
    ∷ Output.turn 0
    ∷ Output.turn 0
    ∷ Output.turn 0
    ∷ Output.emit 0
    ∷ Output.get
    ∷ []

run-new_output-Passed_example :
    Passed one_output 2 (Output.run one_output 2 passed_once (Output.new_output false))
run-new_output-Passed_example = run-new_output-Passed one_output 2 passed_once false
