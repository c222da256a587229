-- ===== src/Broker/Consuming.antt =====
-- The goroutine of `ConsumeMessage` of pkg/broker/rabbitmq/rabbitmq.go: it ranges over the
-- library's channel of deliveries, and sends each body as a message with a new UUID. A step is one
-- receive or one send.
pub mod Ordered
use ormus.Prelude.{
  ℕ, suc, Option, none, some, Bool, true, false, List, [], ◌∷◌, ◌++◌, String, length, ltb,
  if◌then◌else◌,
}
use ormus.Broker.{Message}

pub data Phase (Uuid : Type 0) : Type 0 where
  ranging : Phase Uuid
  sending : Message Uuid → Phase Uuid
  -- the deliveries are at their end, and the channel of messages is closed
  finished : Phase Uuid

pub record Consuming (Uuid : Type 0) : Type 0 where
  -- the bodies in the library's channel, and whether it is closed
  pub msgs : List String
  pub msgs_closed : Bool
  pub phase : Phase Uuid
  -- the buffered messages of the channel that the caller got
  pub out : List (Message Uuid)
  -- the UUIDs that were made
  pub made : ℕ
  -- for the specification: the bodies that arrived, and the messages that were received
  pub arrived : List String
  pub received : List (Message Uuid)

pub data Step : Type 0 where
  arrive : String → Step
  close_msgs : Step
  turn : Step
  receive : Step

abbrev pub start : {Uuid : Type 0} → Consuming Uuid
start = record {
  msgs = [];
  msgs_closed = false;
  phase = ranging;
  out = [];
  made = 0;
  arrived = [];
  received = [];
}

module _ {Uuid : Type 0} (new_uuid : ℕ → Uuid) (topic : String) (chan_size : ℕ) where
  abbrev pub range_next : List String → Consuming Uuid → Consuming Uuid
  range_next [] c = if c.msgs_closed then record c { phase = finished } else c
  range_next (body ∷ bodies) c = record c {
    msgs = bodies;
    phase = sending (record { id = new_uuid c.made; topic = topic; payload = body });
    made = suc c.made;
  }

  -- A send on a full buffer waits.
  abbrev pub take_turn : Phase Uuid → Consuming Uuid → Consuming Uuid
  take_turn ranging c = range_next c.msgs c
  take_turn (sending m) c =
      if ltb (length c.out) chan_size
      then record c { phase = ranging; out = c.out ++ m ∷ [] }
      else c
  take_turn finished c = c

  -- With nothing in the buffer, a receive meets the sender that waits, as on an unbuffered channel.
  abbrev pub meet : Phase Uuid → Consuming Uuid → Consuming Uuid
  meet (sending m) c = record c { phase = ranging; received = c.received ++ m ∷ [] }
  meet ranging c = c
  meet finished c = c

  abbrev pub receive_next : List (Message Uuid) → Consuming Uuid → Consuming Uuid
  receive_next [] c = meet c.phase c
  receive_next (m ∷ ms) c = record c { out = ms; received = c.received ++ m ∷ [] }

  abbrev pub arrive_next : Bool → String → Consuming Uuid → Consuming Uuid
  arrive_next true body c = c
  arrive_next false body c = record c {
    msgs = c.msgs ++ body ∷ [];
    arrived = c.arrived ++ body ∷ [];
  }

  unfoldable pub step : Step → Consuming Uuid → Consuming Uuid
  step (arrive body) c = arrive_next c.msgs_closed body c
  step close_msgs c = record c { msgs_closed = true }
  step turn c = take_turn c.phase c
  step receive c = receive_next c.out c

  unfoldable pub run : List Step → Consuming Uuid → Consuming Uuid
  unfolding step
  run [] c = c
  run (s ∷ steps) c = run steps (step s c)
