-- ===== src/Pipeline/TaskConsumer.antt =====
-- The consumer of tasks that dials the broker: the goroutine of `Consume` of
-- destination/taskmanager/adapter/rabbitmqtaskmanager/task_consumer.go. Its loop takes one message
-- after another, acknowledges it, decodes it and sends the event. The client's library and
-- encoding/json are parameters; a step is what the loop does up to its next receive or send.
pub mod Ordered
pub mod Closed
use ormus.Prelude.{
  ℕ, Option, none, some, Bool, true, false, String, List, [], ◌∷◌, ◌++◌, Exec, Outcome, ok, err,
  panic, Error, ◌>>=◌, length, ltb, if◌then◌else◌,
}
use ormus.Event.{ProcessedEvent}
use ormus.Pipeline.Dialled.{fail_on_error, deferring}

pub record Library (B Conn Ch Msgs : Type 0) : Type 0 where
  pub dial : Exec B Conn
  pub channel : Conn → Exec B Ch
  -- name, and whether it is durable; the name that the broker gave
  pub queue_declare : Ch → String → Bool → Exec B String
  -- how many messages the broker may deliver before an acknowledgement
  pub qos : Ch → ℕ → Exec B (Unit {0})
  pub consume : Ch → String → Exec B Msgs
  pub close_channel : Ch → B → B
  pub close_connection : Conn → B → B

module _ {B Conn Ch Msgs : Type 0} (lib : Library B Conn Ch Msgs) (queue_name : String)
    (loop : Msgs → Exec B (Unit {0})) where
  abbrev pub subscribe : Ch → Exec B Msgs
  subscribe ch = fail_on_error (lib.queue_declare ch queue_name true) >>= λ q.
      fail_on_error (lib.qos ch 1) >>= λ _. fail_on_error (lib.consume ch q)

  unfoldable pub consume_tasks : Exec B (Unit {0})
  consume_tasks = fail_on_error lib.dial >>= λ conn. deferring (lib.close_connection conn) (
      fail_on_error (lib.channel conn) >>= λ ch.
      deferring (lib.close_channel ch) (subscribe ch >>= loop))

pub data Phase : Type 0 where
  selecting : Phase
  sending : ProcessedEvent → Phase
  returned crashed : Phase

pub record Consumer (B Body : Type 0) : Type 0 where
  pub broker : B
  pub phase : Phase
  pub events : List ProcessedEvent
  -- for the specification, in the order in which it happened: the bodies that were taken, those
  -- whose acknowledgement the broker took, and the events that the reader has got
  pub taken : List Body
  pub acked : List Body
  pub got : List ProcessedEvent

pub data Step (B Body : Type 0) : Type 0 where
  take : Body → Step B Body
  send : Step B Body
  get : Step B Body
  stop : Step B Body
  change : (B → B) → Step B Body

abbrev pub channel_size : ℕ
channel_size = 100

abbrev pub new_consumer : {B Body : Type 0} → B → Consumer B Body
new_consumer b = record {
  broker = b;
  phase = selecting;
  events = [];
  taken = [];
  acked = [];
  got = [];
}

module _ {B Body : Type 0} (ack : B → Option Error × B)
    (decode : Body → Outcome ProcessedEvent) where
  -- An error of the decoding is logged, and the loop goes on.
  abbrev pub phase_of : Outcome ProcessedEvent → Phase
  phase_of (ok e) = sending e
  phase_of (err x) = selecting
  phase_of panic = crashed

  -- So is one of the acknowledgement.
  abbrev pub after_ack : Body → Option Error × B → Consumer B Body → Consumer B Body
  after_ack body (some x, b) c = record c { broker = b; taken = c.taken ++ body ∷ [] }
  after_ack body (none, b) c = record c {
    broker = b;
    phase = phase_of (decode body);
    taken = c.taken ++ body ∷ [];
    acked = c.acked ++ body ∷ [];
  }

  abbrev pub take_next : Phase → Body → Consumer B Body → Consumer B Body
  take_next selecting body c = after_ack body (ack c.broker) c
  take_next (sending e) body c = c
  take_next returned body c = c
  take_next crashed body c = c

  -- A send on a full buffer waits, and the loop sees no shutdown meanwhile.
  abbrev pub send_next : Phase → Consumer B Body → Consumer B Body
  send_next (sending e) c =
      if ltb (length c.events) channel_size
      then record c { phase = selecting; events = c.events ++ e ∷ [] }
      else c
  send_next selecting c = c
  send_next returned c = c
  send_next crashed c = c

  abbrev pub stop_next : Phase → Consumer B Body → Consumer B Body
  stop_next selecting c = record c { phase = returned }
  stop_next (sending e) c = c
  stop_next returned c = c
  stop_next crashed c = c

  abbrev pub handed_out : List ProcessedEvent → Consumer B Body → Consumer B Body
  handed_out [] c = c
  handed_out (e ∷ es) c = record c { events = es; got = c.got ++ e ∷ [] }

  unfoldable pub step : Step B Body → Consumer B Body → Consumer B Body
  step (take body) c = take_next c.phase body c
  step send c = send_next c.phase c
  step get c = handed_out c.events c
  step stop c = stop_next c.phase c
  step (change f) c = record c { broker = f c.broker }

  unfoldable pub run : List (Step B Body) → Consumer B Body → Consumer B Body
  unfolding step
  run [] c = c
  run (s ∷ steps) c = run steps (step s c)
