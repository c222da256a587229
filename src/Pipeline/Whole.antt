-- ===== src/Pipeline/Whole.antt =====
-- The destination side as its two programs put it together: cmd/destination/main.go, from the
-- broker of the processed events to the queue of tasks, and
-- cmd/destination/delivery_workers/webhook_delivery_worker.go, from the queue to the third party.
-- The goroutines of a stage take its messages in some order, which is that of the list; one that
-- panics ends the program.
pub mod Delivered
pub mod Once
pub mod Setup
use ormus.Prelude.{String, Bool, List, [], ◌∷◌, Table, Outcome, ◌||◌}
use ormus.Event.{ProcessedEvent, webhook_destination_type}
use ormus.Pipeline.{
  Fate, skipped, undecoded, unacknowledged, forwarded, crashed, Pipe, Ack, consume_processed_event,
  consume_task, TaskPublisherMap, publish_json, coordinate,
}

abbrev pub go_on : {B : Type 0} → Fate → Pipe B → Pipe B → Pipe B
go_on skipped q rest = rest
go_on (undecoded x) q rest = rest
go_on (unacknowledged x) q rest = rest
go_on forwarded q rest = rest
go_on crashed q rest = q

unfoldable pub consume_all :
    {B Body : Type 0} → (Body → Pipe B → Fate × Pipe B) → List Body → Pipe B → Pipe B
consume_all consume [] p = p
consume_all consume (body ∷ bodies) p =
    let (f, q) = consume body p in go_on f q (consume_all consume bodies q)

module _ {Body : Type 0} (encode : ProcessedEvent → Outcome Body)
    (carrier : ProcessedEvent → Table String) where
  -- The one publisher that main.go registers.
  abbrev pub task_publishers : TaskPublisherMap (List Body)
  task_publishers = (webhook_destination_type, publish_json encode) ∷ []

  unfoldable pub coordinate_all : List ProcessedEvent → List Body → List Body
  unfolding coordinate
  coordinate_all [] q = q
  coordinate_all (pe ∷ pes) q = coordinate_all pes (coordinate task_publishers (carrier pe) pe q).1

-- The first program: what is in the queue of tasks after it took the messages.
unfoldable pub tasks_of :
    {B Body : Type 0}
    → (Body → Pipe B → Fate × Pipe B)
    → (ProcessedEvent → Outcome Body)
    → (ProcessedEvent → Table String)
    → List Body
    → B
    → List Body
unfolding consume_all coordinate_all
tasks_of consume encode carrier bodies b =
    coordinate_all encode carrier
      (consume_all consume bodies (record { events = []; broker = b })).events []

-- The second program, up to the worker: the events that it takes from the queue's messages.
unfoldable pub events_of :
    {B Body : Type 0} → (Body → Pipe B → Fate × Pipe B) → List Body → B → List ProcessedEvent
unfolding consume_all
events_of consume bodies b =
    (consume_all consume bodies (record { events = []; broker = b })).events
