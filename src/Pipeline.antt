-- ===== src/Pipeline.antt =====
-- The pipeline from the broker to the task service, one message at a time: what the goroutines of
-- destination/processedevent/adapter/rabbitmqconsumer, destination/taskcoordinator/adapter/
-- dtcoordinator and destination/taskmanager do between a message and the channel that they write.
-- encoding/json is a parameter, as `decode` and `encode`; so are the broker's acknowledgement and
-- the carriers of OpenTelemetry. A send on a channel is an append to the list of what was sent.
pub mod Consume
pub mod Publish
pub mod Memory
pub mod Dialled
pub mod Consumer
pub mod TaskConsumer
pub mod Whole
use ormus.Prelude.{
  ℕ, zero, suc, String, Option, none, some, Bool, true, false, List, [], ◌∷◌, ◌++◌, Table, lookup,
  Exec, Outcome, ok, err, panic, Error, plain, return, fail, ◌>>=◌, ◌>>◌, length, ltb,
  if◌then◌else◌, ◌==◌,
}
use ormus.Event.{ProcessedEvent, DestinationType, destination_type}

-- What a goroutine has done with its message when it ends.
pub data Fate : Type 0 where
  skipped : Fate
  undecoded : Error → Fate
  unacknowledged : Error → Fate
  forwarded : Fate
  crashed : Fate

-- The channel of events that a consumer fills, and the state of the broker.
pub record Pipe (B : Type 0) : Type 0 where
  pub events : List ProcessedEvent
  pub broker : B

-- `Ack` of the message at hand.
abbrev pub Ack : Type 0 → Type 0
Ack B = B → Option Error × B

abbrev pub forward : {B : Type 0} → ProcessedEvent → Pipe B → Pipe B
forward e p = record p { events = p.events ++ e ∷ [] }

abbrev pub fate : (Error → Fate) → Option Error → Fate
fate refused none = forwarded
fate refused (some x) = refused x

abbrev pub acknowledge : {B : Type 0} → Ack B → (Error → Fate) → Pipe B → Fate × Pipe B
acknowledge ack refused p = let (e, b) = ack p.broker in (fate refused e, record p { broker = b })

-- The event goes on with the carrier of the new span.
abbrev pub traced : (ProcessedEvent → Table String) → ProcessedEvent → ProcessedEvent
traced carrier e = record e { tracer_carrier = carrier e }

module _ {B Body : Type 0} (size : Body → ℕ) (decode : Body → Outcome ProcessedEvent)
    (carrier : ProcessedEvent → Table String) where
  -- rabbitmqconsumer: the goroutine of `Consume`.
  abbrev pub forward_first :
      Ack B → (Error → Fate) → Outcome ProcessedEvent → Pipe B → Fate × Pipe B
  forward_first ack refused (ok e) p = acknowledge ack refused (forward (traced carrier e) p)
  forward_first ack refused (err x) p = (undecoded x, p)
  forward_first ack refused panic p = (crashed, p)

  unfoldable pub consume_processed_event : Body → Ack B → Pipe B → Fate × Pipe B
  consume_processed_event body ack p =
      if size body == 0 then (skipped, p) else forward_first ack unacknowledged (decode body) p

  -- rabbitmqchanneltaskmanager: as above, with no test for an empty body; where the broker refuses
  -- the acknowledgement, `err.Error()` is called on the nil error of the decoding, and panics.
  unfoldable pub consume_task : Body → Ack B → Pipe B → Fate × Pipe B
  consume_task body ack p = forward_first ack (λ _. crashed) (decode body) p

  -- rabbitmqtaskmanager: the message is acknowledged before it is decoded.
  abbrev pub decode_after : Outcome ProcessedEvent → Pipe B → Fate × Pipe B
  decode_after (ok e) p = (forwarded, forward e p)
  decode_after (err x) p = (undecoded x, p)
  decode_after panic p = (crashed, p)

  abbrev pub after_ack : Body → Option Error → Pipe B → Fate × Pipe B
  after_ack body none p = decode_after (decode body) p
  after_ack body (some x) p = (unacknowledged x, p)

  unfoldable pub consume_acked_task : Body → Ack B → Pipe B → Fate × Pipe B
  consume_acked_task body ack p =
      let (e, b) = ack p.broker in after_ack body e (record p { broker = b })

-- destination/taskmanager/task_manager.go: the interface `Publisher`.
abbrev pub Publisher : Type 0 → Type 0
Publisher Q = ProcessedEvent → Exec Q (Unit {0})

-- rabbitmqchanneltaskmanager: `Enqueue` sends the JSON of the event, and `Publish` calls it.
module _ {Body : Type 0} (encode : ProcessedEvent → Outcome Body) where
  abbrev pub send_json : Outcome Body → Exec (List Body) (Unit {0})
  send_json (ok json) q = (ok tt, q ++ json ∷ [])
  send_json (err x) q = (err x, q)
  send_json panic q = (panic, q)

  unfoldable pub enqueue_json : Publisher (List Body)
  enqueue_json pe = send_json (encode pe)

  unfoldable pub publish_json : Publisher (List Body)
  publish_json pe = enqueue_json pe

-- dtcoordinator: what the goroutine of `Start` does with one event.
pub data Coordinated : Type 0 where
  no_publisher : DestinationType → Coordinated
  refused : Error → Coordinated
  published : Coordinated
  broken : Coordinated

abbrev pub TaskPublisherMap : Type 0 → Type 0
TaskPublisherMap Q = Table (Publisher Q)

abbrev pub coordinated : {Q : Type 0} → Outcome (Unit {0}) × Q → Coordinated × Q
coordinated (ok _, q) = (published, q)
coordinated (err x, q) = (refused x, q)
coordinated (panic, q) = (broken, q)

abbrev pub publish_by : {Q : Type 0} → Option (Publisher Q) → ProcessedEvent → Q → Coordinated × Q
publish_by none pe q = (no_publisher (destination_type pe), q)
publish_by (some publish) pe q = coordinated (publish pe q)

unfoldable pub coordinate :
    {Q : Type 0} → TaskPublisherMap Q → Table String → ProcessedEvent → Q → Coordinated × Q
coordinate publishers carrier pe q =
    publish_by (lookup (destination_type pe) publishers) (record pe { tracer_carrier = carrier }) q
