-- ===== src/Tests/Whole.antt =====
-- The two programs of the destination side, on messages that are the events themselves.
use ormus.Prelude.{
  ℕ, zero, suc, ◌<◌, String, Table, arith, ◌≡◌, refl, List, [], ◌∷◌, lookup, none, some, panic, ◌≢◌,
}
use ormus.Event.{ProcessedEvent, id}
use ormus.TaskService.Exactly.{fake_service, start}
use ormus.TaskService.Overlap.{run, step, turn, launched, finished}
use ormus.Tests.Overlap.{three_calls}
use ormus.Pipeline.{consume_task}
use ormus.Pipeline.Whole.{events_of, consume_all}
use ormus.Pipeline.Whole.Once.{worker_events}
use ormus.Tests.Pipes.{Message, size, decode, encode, carrier, takes}
use ormus.Tests.Deliveries.{store, store_laws, table-Saves, table-Reads}
use ormus.Tests.Service.{first_event, other_event, free_locker}

-- An empty message, and one that is repeated.
abbrev received : List Message
received = some first_event ∷ none ∷ some other_event ∷ some first_event ∷ []

abbrev task : ProcessedEvent → Message
task e = some (record e { tracer_carrier = carrier e })

-- The queue delivers one of the two equal tasks only, and the other one twice.
abbrev redelivered : List Message
redelivered = task other_event ∷ task first_event ∷ task other_event ∷ []

pub decodes : (body : Message) → decode body ≢ panic
decodes none h = cc
decodes (some e) h = cc

abbrev events : List (Table String × ProcessedEvent)
events =
    worker_events size decode encode carrier carrier takes takes store store_laws table-Saves
      table-Reads free_locker 5 7 5 redelivered 0

pub all_ended :
    (n : ℕ)
    → n < 3
    → ((run
          (fake_service store free_locker 5 7)
          7
          5
          three_calls
          (launched (start [] [] []) events)).worker
        n).phase
      ≡ finished
unfolding run step turn id events_of consume_all consume_task
    ormus.TaskService.get_task_status_by_id ormus.TaskStore.Redis.get_task_status_by_id
    ormus.Prelude.lookup ormus.Task.to_string ormus.Task.can_be_executed ormus.TaskService.get_task
    ormus.Task.is_broadcast ormus.TaskService.find_handler ormus.Delivery.register
    ormus.Prelude.insert ormus.Task.destination_slug ormus.Task.make_task_using_processed_event
    ormus.Delivery.fake_handle ormus.TaskStore.Memory.upsert_task_with_context
    ormus.TaskStore.Redis.save_task_status ormus.Task.to_numeric_string
    ormus.Task.numeric_string_to_integration_delivery_status
    ormus.TaskService.get_task_by_id_with_context ormus.TaskService.unsupported
all_ended zero h = refl
all_ended (suc zero) h = refl
all_ended (suc (suc zero)) h = refl
all_ended (suc (suc (suc n))) h = absurd (omega arith)
