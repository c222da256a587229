-- ===== src/Lib.antt =====
-- Ormus takes events from the sources of its users, processes them and delivers them to
-- destinations. This library models the destination side, from the broker to the third parties, the
-- channels of pkg/channel that carry the messages, the errors, users, sources and projects of the
-- manager with its routes and forms and its way to the database, the configuration of all programs,
-- and the command line.
--
-- The way of an event. destination/processedevent/adapter/rabbitmqconsumer takes a message from the
-- broker, decodes it and passes the event on; destination/taskcoordinator/adapter/dtcoordinator
-- asks the publisher of the event's destination type; destination/taskmanager sends its JSON to a
-- queue and, at the worker, decodes it again (Pipeline). destination/worker calls HandleTask of
-- destination/taskservice, which locks the task, reads its status, finds the task and its handler,
-- delivers, and stores what came of it (TaskService), in stores (TaskStore) and by handlers
-- (Delivery). The queues are channels of pkg/channel (Channel).
--
-- Files:
--   Prelude      shared names; Effects has `Outcome`, what a Go function returns that may fail or
--                panic, and `Exec`, an action on a state, with its sequence; Maps the maps of Go.
--   Event        event/ and manager/entity/integration.go; Event/Names: IDs.
--   Task         destination/entity/taskentity/task.go; Task/Status: statuses and their texts.
--   TaskStore    the interfaces Idempotency and Repository with their laws; TaskStore/Memory and
--                TaskStore/Redis: the adapters, which fill the laws; Refinement: the two side by
--                side.
--   Delivery     destination/taskdelivery.
--   TaskService  destination/taskservice: `handle_task` is HandleTask, cut into `locked_body`,
--                `execute`, `get_task`, `deliver` and `deliver_by` at its stages. Once: final
--                tasks; Sends, Delivers: what a successful call has done; Locks: the lock; Faults:
--                lost and repeated deliveries; Exactly: what one event does over any store of the
--                statuses, and its Tally events that are handled one after the other. Overlap: the
--                goroutines of destination/worker/worker.go, one for each event (`launched`), whose
--                calls overlap, cut into turns, under the lock of adapter/etcd/adapter.go; Cases
--                and Exclusion: who holds a task; Turns, Flight, Applied, Once: deliveries in
--                flight; Served, Finished, Launched: what calls that have come to their end have
--                done. Etcd: Lock of adapter/etcd/adapter.go, and Cancelled: its contexts.
--   Pipeline     the consumers, the coordinator and the publisher, one message at a time; Consume
--                and Publish: what is acknowledged and which publisher is asked; Memory: the queue
--                in memory; Dialled: the queue that dials the broker, and Closed what it leaves.
--                Consumer: the goroutines of the consumer of processed events; Invariant,
--                Goroutines, Kept, Shutdown: its messages and its end; Turns, Drained: that its
--                goroutines end; Setup: its way to the broker. TaskConsumer: the consumer of tasks
--                that dials the broker, with Ordered and Closed. Whole: cmd/destination, the two
--                programs from broker to third party; Delivered and Once: what arrives; Setup: the
--                queue between them.
--   Channel      modes and the table of channels; Lookups; Simple: the channel in memory, one step
--                of a goroutine at a time, and Simple/Delivery its invariant; Retry:
--                publishToRabbitmq. Rabbit: how a channel over RabbitMQ is set up and connected,
--                with Setup and Reconnect; Rabbit/Input: the goroutines of its input, with Kept and
--                Lost; Rabbit/Output: those of its output, with Passed.
--   Broker       pkg/broker, a client of RabbitMQ: Published, what a call publishes; Connection,
--                what is left open; Consuming: the goroutine that passes the deliveries on.
--   Converter    pkg/channel/converter.go: Loops, which ones it starts; Again: calls that are
--                repeated; Conversion: what one does.
--   RichError    pkg/richerror and pkg/httpmsg; RichError/Chain: chains of errors.
--   Database     adapter/scylladb with scyllainitialize, source/repository/scylladb/migrate and the
--                constructor of manager/repository/scyllarepo; Effects: the rules for its calls;
--                Ready: what it leaves.
--   Settings     config: the defaults and how they are loaded; Layers: which layer a value is from.
--   Source       manager/service/sourceservice over a heap of sources; MockRepo:
--                manager/mockRepo/sourcemock, and whose sources it touches; Routes: the middleware,
--                handlers and routes, and what a client reaches; WriteKey: source/service/writekey.
--   User         manager/service/userservice, manager/service/authservice and the password policy;
--                MockRepository: manager/mockRepo/usermock, and Session: register and log in;
--                Policy; Registered: the rules on an address; IsValid: isvalid.go; Expiration: the
--                lifetimes of tokens; Scylla: manager/repository/scyllarepo, with Rows; Routes:
--                manager/delivery/httpserver/userhandler, Answers: what it tells, Registers: twice
--                one address.
--   Form         the forms of manager/validator; Form/Rules: what they rely on of the library of
--                rules; Form/Users and Form/Sources.
--   Project      manager/service/projectservice, manager/mockRepo/projectstub and manager/workers;
--                Work: the worker.
--   Cli          cli/api, cli/cmd/config and the login of cli/cmd/user; Cli/Session: from one
--                command to the next.
--   Tests        concrete inputs.
--
-- State. HandleTask works on a `World`: the states of the idempotency store, of the repository, of
-- the locker and of the third parties, each of a type of its own, so that a theorem says which of
-- them a call changes. The worker's calls are turns in any order, in Overlap: a `System` has a
-- clock, the owner of each key, the world and the workers, each with the deadline of its lock and
-- the point that it is at. A key may lapse once the deadline has passed. A `*entity.Source` is a
-- position in a heap. The goroutines of the channel in memory interleave as a list of steps, and so
-- do those of a channel over RabbitMQ and of the converter, and of the consumers of processed
-- events and of pkg/broker.
--
-- Bounds and fuel. Attempts wrap at 2 ^ 8 and durations at 2 ^ 64. `publish_to_rabbitmq` counts its
-- calls with fuel, of which the policy's retries and two more are enough, and `reconnect` its
-- attempts, of which one more than the dials that are refused is enough. All else is structural.
--
-- Parameters. Third-party code is an argument: the client of Redis, encoding/json, the broker's
-- acknowledgement, the locker, bcrypt, the library of tokens, encoding/base64, the classes of
-- unicode, echo's binding, the library of rules of the forms, amqp091-go, gocql and golang-migrate,
-- koanf, and the file and the network of the command line. Where a theorem relies on them, a record
-- or a hypothesis says what.
--
-- Not modelled: spans, metrics and logs, which change no state (the text of a span's attribute is
-- computed where it can panic); the client of Redis; the generated code of contract/go; the logger;
-- the other main programs; the commands that only print.
pub mod Prelude
pub mod Event
pub mod Task
pub mod TaskStore
pub mod Delivery
pub mod TaskService
pub mod Pipeline
pub mod Channel
pub mod Broker
pub mod Converter
pub mod RichError
pub mod Database
pub mod Settings
pub mod Source
pub mod User
pub mod Form
pub mod Project
pub mod Cli
pub mod Tests
