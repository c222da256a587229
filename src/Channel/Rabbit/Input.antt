-- ===== src/Channel/Rabbit/Input.antt =====
-- The input of a channel over RabbitMQ: `startInputWithContext`, `callMeNextTime` and
-- `publishToRabbitmq` of pkg/channel/adapter/rabbitmq/channel.go as the goroutines that they are. A
-- step is what one of them does next: a turn of a worker is one test, one call of the library or
-- one receive; each publication that is tried is a goroutine of its own. The sleeps are left out:
-- a goroutine that sleeps is one whose step comes later. Messages are named by numbers.
pub mod Kept
pub mod Lost
use ormus.Prelude.{
  ℕ, zero, suc, ◌+◌, Option, none, some, Bool, List, [], ◌∷◌, ◌++◌, Error, ltb, length, ◌==◌,
  if◌then◌else◌,
}
use ormus.Prelude.TakeAt.{take_at}

pub record Library (B Ch : Type 0) : Type 0 where
  pub connection_is_closed : B → Bool
  pub open_channel : B → Option Ch × B
  pub channel_is_closed : Ch → B → Bool
  pub publish_with_context : Ch → ℕ → B → Option Error × B
  pub close : Ch → B → B

pub data Phase (Ch : Type 0) : Type 0 where
  waiting : Phase Ch
  opening : Phase Ch
  testing : Ch → Phase Ch
  selecting : Ch → Phase Ch
  resting : Phase Ch
  stopped : Phase Ch

-- A goroutine of `publishToRabbitmq` before its call.
pub record Try (Ch : Type 0) : Type 0 where
  pub channel : Ch
  pub message : ℕ
  pub tries : ℕ

pub record Input (B Ch : Type 0) : Type 0 where
  pub broker : B
  pub worker : ℕ → Phase Ch
  pub input_channel : List ℕ
  pub publishing : List (Try Ch)
  -- for the specification: what was sent, published, and logged as failed
  pub sent : List ℕ
  pub published : List ℕ
  pub failed : List ℕ

pub data Event (B : Type 0) : Type 0 where
  send : ℕ → Event B
  turn : ℕ → Event B
  stop : ℕ → Event B
  publish : ℕ → Event B
  change : (B → B) → Event B

unfoldable pub new_input : {B Ch : Type 0} → B → Input B Ch
new_input b = record {
  broker = b;
  worker = λ i. waiting;
  input_channel = [];
  publishing = [];
  sent = [];
  published = [];
  failed = [];
}

module _ {B Ch : Type 0} (lib : Library B Ch) (buffer_size max_retry_policy : ℕ) where
  abbrev pub enter : ℕ → Phase Ch → Input B Ch → Input B Ch
  enter i p c = record c { worker = λ j. if i == j then p else c.worker j }

  abbrev pub on_broker : B → Input B Ch → Input B Ch
  on_broker b c = record c { broker = b }

  abbrev pub opened : ℕ → Option Ch × B → Input B Ch → Input B Ch
  opened i (some ch, b) c = enter i (testing ch) (on_broker b c)
  opened i (none, b) c = enter i resting (on_broker b c)

  abbrev pub received : ℕ → Ch → List ℕ → Input B Ch → Input B Ch
  received i ch [] c = c
  received i ch (m ∷ ms) c = enter i (testing ch) (record c {
    input_channel = ms;
    publishing = record { channel = ch; message = m; tries = 0 } ∷ c.publishing;
  })

  unfoldable pub start_input : ℕ → Phase Ch → Input B Ch → Input B Ch
  start_input i waiting c = if lib.connection_is_closed c.broker then c else enter i opening c
  start_input i opening c = opened i (lib.open_channel c.broker) c
  start_input i (testing ch) c =
      if lib.channel_is_closed ch c.broker
      then enter i resting (on_broker (lib.close ch c.broker) c)
      else enter i (selecting ch) c
  start_input i (selecting ch) c = received i ch c.input_channel c
  start_input i resting c = enter i waiting c
  start_input i stopped c = c

  abbrev pub stop_input : ℕ → Phase Ch → Input B Ch → Input B Ch
  stop_input i (selecting ch) c = enter i stopped (on_broker (lib.close ch c.broker) c)
  stop_input i waiting c = c
  stop_input i opening c = c
  stop_input i (testing ch) c = c
  stop_input i resting c = c
  stop_input i stopped c = c

  -- After the call, with the others that publish; the next try tests the policy first.
  abbrev pub called : Try Ch → Option Error × B → Input B Ch → Input B Ch
  called t (none, b) c = record c { broker = b; published = t.message ∷ c.published }
  called t (some e, b) c =
      if ltb max_retry_policy (t.tries + 1)
      then record c { broker = b; failed = t.message ∷ c.failed }
      else record c { broker = b; publishing = record t { tries = t.tries + 1 } ∷ c.publishing }

  unfoldable pub publish_to_rabbitmq : Option (Try Ch × List (Try Ch)) → Input B Ch → Input B Ch
  publish_to_rabbitmq none c = c
  publish_to_rabbitmq (some (t, others)) c =
      called t (lib.publish_with_context t.channel t.message c.broker)
        (record c { publishing = others })

  -- A send on a full buffer waits.
  unfoldable pub step : Event B → Input B Ch → Input B Ch
  unfolding start_input publish_to_rabbitmq take_at
  step (send m) c =
      if ltb (length c.input_channel) buffer_size
      then record c { input_channel = c.input_channel ++ m ∷ []; sent = m ∷ c.sent }
      else c
  step (turn i) c = start_input i (c.worker i) c
  step (stop i) c = stop_input i (c.worker i) c
  step (publish k) c = publish_to_rabbitmq (take_at k c.publishing) c
  step (change f) c = on_broker (f c.broker) c

  unfoldable pub run : List (Event B) → Input B Ch → Input B Ch
  unfolding step
  run [] c = c
  run (e ∷ es) c = run es (step e c)
