-- ===== src/Tests/Service.antt =====
-- The task service on events of one message, over the stores in memory and the fake handler.
use ormus.Prelude.{
  String, ◌≡◌, refl, true, false, List, [], ◌∷◌, Table, lookup, insert, ok, err, plain, some, none,
  arith,
}
use ormus.Event.{ProcessedEvent, Integration, zero_event, zero_integration, id}
use ormus.Task.{
  Task, can_be_executed, is_broadcast, to_string, make_task_using_processed_event, destination_slug,
}
use ormus.TaskStore.Memory as Memory
use ormus.TaskStore.Memory.{
  IdempotencyDb, RepoDb, KeyedById, memory-IsIdempotencyStore, memory-IsTaskRepository,
}
use ormus.Delivery.{DeliveryTaskResponse, register, fake_handle}
use ormus.TaskService.{
  Locker, World, Service, handle_task, lock_task_by_id, locked_body, get_task_status_by_id,
  get_task, execute, deliver, deliver_by, find_handler, upsert_task_and_save_idempotency,
}
use ormus.TaskService.Once.{SameDeliveries, handle_task-Same}
use ormus.TaskService.Delivers.{HasDelivered, handle_task-HasDelivered}
use ormus.TaskService.Exactly.{fake_service, record_id}
use ormus.TaskService.Locks.{released, locks-handle_task}
use ormus.TaskService.Faults.{handle_task_unstored}

abbrev webhook_integration : Integration
webhook_integration = record zero_integration {
  id = "i1";
  metadata = record { id = "d1"; name = "hook"; slug = "webhook"; categories = [] };
}

abbrev pub first_event : ProcessedEvent
first_event = record zero_event { message_id = "m1"; integration = webhook_integration }

abbrev pub other_event : ProcessedEvent
other_event = record zero_event { message_id = "m2"; integration = webhook_integration }

abbrev pub free_locker : Locker (List String)
free_locker = record { lock = λ k ttl l. (ok (λ held. (ok tt, [])), k ∷ l) }

abbrev pub span : Table String
span = ("traceparent", "00-1") ∷ []

abbrev pub service : Service IdempotencyDb RepoDb (List String) (List String)
service = fake_service Memory.idempotency free_locker 5 7

abbrev pub new_world : World IdempotencyDb RepoDb (List String) (List String)
new_world = record { idem = []; repo = []; locks = []; third = [] }

no_tasks : KeyedById []
unfolding lookup
no_tasks k t h = cc

new_executable : can_be_executed (Memory.view new_world.idem (id first_event)) ≡ true
unfolding can_be_executed lookup
new_executable = refl

delivered_ok : (handle_task service 7 span first_event new_world).0 ≡ ok tt
unfolding handle_task lock_task_by_id locked_body get_task_status_by_id get_task execute deliver
    deliver_by find_handler upsert_task_and_save_idempotency id can_be_executed is_broadcast
    to_string make_task_using_processed_event destination_slug register fake_handle insert lookup
    Memory.get_task_status_by_id Memory.save_task_status Memory.upsert_task_with_context
delivered_ok = refl

handle_task-HasDelivered_example :
    HasDelivered service 7 memory-IsIdempotencyStore memory-IsTaskRepository
      (record first_event { tracer_carrier = span })
      new_world
      (handle_task service 7 span first_event new_world).1
handle_task-HasDelivered_example =
    handle_task-HasDelivered service 7 memory-IsIdempotencyStore memory-IsTaskRepository span
      first_event new_world no_tasks new_executable delivered_ok

-- A task that is done, and one whose last attempt failed retriably.
abbrev done_world : World IdempotencyDb RepoDb (List String) (List String)
done_world = record new_world { idem = ("m1-i1", 4) ∷ [] }

done_final : can_be_executed (Memory.view done_world.idem (id first_event)) ≡ false
unfolding can_be_executed lookup id
done_final = refl

handle_task-Same_example :
    SameDeliveries service 7 memory-IsIdempotencyStore done_world
      (handle_task service 7 span first_event done_world).1
handle_task-Same_example =
    handle_task-Same service 7 memory-IsIdempotencyStore span first_event done_world done_final

locks-handle_task_example :
    (handle_task service 7 span first_event new_world).1.locks
    ≡ released (free_locker.lock "task:m1-i1" 5 [])
unfolding id
locks-handle_task_example = locks-handle_task service 7 span first_event new_world

-- A repository that takes no task.
abbrev full_service : Service IdempotencyDb RepoDb (List String) (List String)
full_service = record service {
  repository = record service.repository {
    upsert_task_with_context = λ k q r. (err (plain "full"), r);
  };
}

abbrev fake_answer : DeliveryTaskResponse
fake_answer = record { failed_reason = none; attempts = 1; delivery_status = 4 }

new_read : (full_service.idempotency.get_task_status_by_id (id first_event) new_world.idem).0 ≡ ok 1
unfolding lookup Memory.get_task_status_by_id
new_read = refl

abbrev first_task : Task
first_task = make_task_using_processed_event (record first_event { tracer_carrier = span })

has_handler :
    lookup (destination_slug first_task) full_service.mapper ≡ some (fake_handle record_id)
unfolding lookup register insert destination_slug make_task_using_processed_event
has_handler = refl

answers : (fake_handle record_id first_task new_world.third).0 ≡ ok fake_answer
unfolding fake_handle
answers = refl

handle_task_unstored_example :
    let y = handle_task full_service 7 span first_event new_world in
    (y.0 ≡ err (plain "full"))
    × (y.1.third ≡ (fake_handle record_id first_task new_world.third).1)
    × ((j : String) → Memory.view y.1.idem j ≡ Memory.view new_world.idem j)
    × (can_be_executed (Memory.view y.1.idem (id first_event)) ≡ true)
handle_task_unstored_example =
    handle_task_unstored full_service 7 memory-IsIdempotencyStore span first_event new_world
      (λ held. (ok tt, [])) (plain "full") (fake_handle record_id) fake_answer refl new_read
      has_handler answers (omega arith) refl
