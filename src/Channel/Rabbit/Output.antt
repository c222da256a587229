-- ===== src/Channel/Rabbit/Output.antt =====
-- The output of a channel over RabbitMQ: `startOutputWitContext` and `callMeNextTime` of
-- pkg/channel/adapter/rabbitmq/channel.go, in steps as those of the input. Each delivery that a
-- worker takes is sent to the output channel by a goroutine of its own. The Go channel of the
-- library's deliveries is closed with the library's channel: a receive then gives the zero value.
pub mod Passed
use ormus.Prelude.{
  ℕ, suc, Option, none, some, Bool, List, [], ◌∷◌, ◌++◌, Outcome, ok, err, panic, ltb, length, ◌==◌,
  if◌then◌else◌,
}
use ormus.Prelude.TakeAt.{take_at}

-- A message of the broker, by its number, or the zero value, whose `Ack` fails.
pub data Delivery : Type 0 where
  message : ℕ → Delivery
  zero_delivery : Delivery

-- What a receive gives at once; none where it waits.
pub record Library (B Ch : Type 0) : Type 0 where
  pub connection_is_closed : B → Bool
  pub open_channel : B → Option Ch × B
  pub consume : Ch → B → Outcome (Unit {0}) × B
  pub channel_is_closed : Ch → B → Bool
  pub receive : Ch → B → Option Delivery × B
  pub close : Ch → B → B

-- A worker that crashed has ended the program.
pub data Phase (Ch : Type 0) : Type 0 where
  waiting opening : Phase Ch
  subscribing testing selecting : Ch → Phase Ch
  resting stopped crashed : Phase Ch

pub record Output (B Ch : Type 0) : Type 0 where
  pub broker : B
  pub worker : ℕ → Phase Ch
  -- goroutines before their send
  pub sending : List Delivery
  pub output_channel : List Delivery
  -- for the specification: what the workers took, and what the users have got
  pub taken : List Delivery
  pub got : List Delivery

pub data Event (B : Type 0) : Type 0 where
  turn : ℕ → Event B
  stop : ℕ → Event B
  emit : ℕ → Event B
  get : Event B
  change : (B → B) → Event B

unfoldable pub new_output : {B Ch : Type 0} → B → Output B Ch
new_output b = record {
  broker = b;
  worker = λ i. waiting;
  sending = [];
  output_channel = [];
  taken = [];
  got = [];
}

module _ {B Ch : Type 0} (lib : Library B Ch) (buffer_size : ℕ) where
  abbrev pub enter : ℕ → Phase Ch → B → Output B Ch → Output B Ch
  enter i p b c = record c { broker = b; worker = λ j. if i == j then p else c.worker j }

  abbrev pub opened : ℕ → Option Ch × B → Output B Ch → Output B Ch
  opened i (some ch, b) c = enter i (subscribing ch) b c
  opened i (none, b) c = enter i resting b c

  -- The branch of an error calls `Error()` on the error of the opening, which is nil.
  abbrev pub subscribed : ℕ → Ch → Outcome (Unit {0}) × B → Output B Ch → Output B Ch
  subscribed i ch (ok _, b) c = enter i (testing ch) b c
  subscribed i ch (err e, b) c = enter i crashed b c
  subscribed i ch (panic, b) c = enter i crashed b c

  abbrev pub received : ℕ → Ch → Option Delivery × B → Output B Ch → Output B Ch
  received i ch (none, b) c = record c { broker = b }
  received i ch (some d, b) c =
      enter i (testing ch) b (record c { sending = d ∷ c.sending; taken = d ∷ c.taken })

  unfoldable pub start_output : ℕ → Phase Ch → Output B Ch → Output B Ch
  start_output i waiting c =
      if lib.connection_is_closed c.broker then c else enter i opening c.broker c
  start_output i opening c = opened i (lib.open_channel c.broker) c
  start_output i (subscribing ch) c = subscribed i ch (lib.consume ch c.broker) c
  start_output i (testing ch) c =
      if lib.channel_is_closed ch c.broker
      then enter i resting (lib.close ch c.broker) c
      else enter i (selecting ch) c.broker c
  start_output i (selecting ch) c = received i ch (lib.receive ch c.broker) c
  start_output i resting c = enter i waiting c.broker c
  start_output i stopped c = c
  start_output i crashed c = c

  abbrev pub stop_output : ℕ → Phase Ch → Output B Ch → Output B Ch
  stop_output i (selecting ch) c = enter i stopped (lib.close ch c.broker) c
  stop_output i waiting c = c
  stop_output i opening c = c
  stop_output i (subscribing ch) c = c
  stop_output i (testing ch) c = c
  stop_output i resting c = c
  stop_output i stopped c = c
  stop_output i crashed c = c

  -- A send on a full buffer waits.
  abbrev pub emitted : Option (Delivery × List Delivery) → Output B Ch → Output B Ch
  emitted none c = c
  emitted (some (d, others)) c =
      if ltb (length c.output_channel) buffer_size
      then record c { sending = others; output_channel = c.output_channel ++ d ∷ [] }
      else c

  abbrev pub handed_out : List Delivery → Output B Ch → Output B Ch
  handed_out [] c = c
  handed_out (d ∷ ds) c = record c { output_channel = ds; got = d ∷ c.got }

  unfoldable pub step : Event B → Output B Ch → Output B Ch
  unfolding start_output take_at
  step (turn i) c = start_output i (c.worker i) c
  step (stop i) c = stop_output i (c.worker i) c
  step (emit k) c = emitted (take_at k c.sending) c
  step get c = handed_out c.output_channel c
  step (change f) c = record c { broker = f c.broker }

  unfoldable pub run : List (Event B) → Output B Ch → Output B Ch
  unfolding step
  run [] c = c
  run (e ∷ es) c = run es (step e c)
