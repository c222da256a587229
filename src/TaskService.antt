-- ===== src/TaskService.antt =====
-- destination/taskservice: `Service` and its methods (service.go) and `HandleTask`
-- (handle_task.go). The service works on four states at once: those of the idempotency store, of
-- the task repository, of the locker and of the third parties. Spans, metrics and logs change none
-- of them; where the text of a span's attribute can panic, it is computed. The carrier that
-- OpenTelemetry writes into the event and the time are arguments.
pub mod Once
pub mod Sends
pub mod Etcd
pub mod Locks
pub mod Delivers
pub mod Faults
pub mod Exactly
pub mod Overlap
use ormus.Prelude.{
  ℕ, String, Option, none, some, Bool, true, false, List, Table, lookup, Exec, Outcome, ok, err,
  panic, Error, plain, return, fail, or_panic, ◌>>=◌, ◌>>◌, concat, if◌then◌else◌,
}
use ormus.Event.{ProcessedEvent, id, DestinationType}
use ormus.Task.{
  Task, IntegrationDeliveryStatus, to_string, can_be_executed, is_broadcast,
  make_task_using_processed_event, destination_slug,
}
use ormus.TaskStore.{Repository, Idempotency, UpsertTaskRequest}
use ormus.Delivery.{DeliveryTaskResponse, DeliveryHandler, Mapper}

-- `Lock` returns the closure that unlocks.
pub record Locker (L : Type 0) : Type 0 where
  pub lock : String → ℕ → Exec L (Exec L (Unit {0}))

pub record World (I R L D : Type 0) : Type 0 where
  pub idem : I
  pub repo : R
  pub locks : L
  pub third : D

pub record Service (I R L D : Type 0) : Type 0 where
  pub idempotency : Idempotency I
  pub repository : Repository R
  pub locker : Locker L
  pub task_lock_ttl_seconds : ℕ
  pub mapper : Mapper D

unfoldable pub unsupported : DestinationType → Error
unsupported destination_type =
    plain (concat (concat "destination type " destination_type) " is not supported")

abbrev pub upsert_request : Task → ℕ → UpsertTaskRequest
upsert_request t now = record {
  integration_delivery_status = t.delivery_status;
  attempts = t.attempts;
  failed_reason = t.failed_reason;
  created_at = 0;
  updated_at = now;
}

abbrev pub with_response : Task → DeliveryTaskResponse → Task
with_response task response = record task {
  delivery_status = response.delivery_status;
  attempts = response.attempts;
  failed_reason = response.failed_reason;
}

module _ {I R L D : Type 0} where
  abbrev pub on_idem : {A : Type 0} → Exec I A → Exec (World I R L D) A
  on_idem m w = let (o, i) = m w.idem in (o, record w { idem = i })

  abbrev pub on_repo : {A : Type 0} → Exec R A → Exec (World I R L D) A
  on_repo m w = let (o, r) = m w.repo in (o, record w { repo = r })

  abbrev pub on_locks : {A : Type 0} → Exec L A → Exec (World I R L D) A
  on_locks m w = let (o, l) = m w.locks in (o, record w { locks = l })

  abbrev pub on_third : {A : Type 0} → Exec D A → Exec (World I R L D) A
  on_third m w = let (o, d) = m w.third in (o, record w { third = d })

  -- `defer`: the clean-up runs whatever the body did, and its own error is logged.
  abbrev pub deferred :
      {A : Type 0} → Exec L (Unit {0}) → Exec (World I R L D) A → Exec (World I R L D) A
  deferred clean_up body w = let (o, w') = body w in (o, (on_locks clean_up w').1)

  unfoldable pub find_handler :
      DestinationType → Option (DeliveryHandler D) → Exec (World I R L D) (DeliveryHandler D)
  unfolding unsupported
  find_handler destination_type none = fail (unsupported destination_type)
  find_handler destination_type (some handler) = return handler

  module _ (s : Service I R L D) (now : ℕ) where
    unfoldable pub lock_task_by_id : String → Exec (World I R L D) (Exec L (Unit {0}))
    lock_task_by_id task_id =
        on_locks (s.locker.lock (concat "task:" task_id) s.task_lock_ttl_seconds)

    unfoldable pub get_task_status_by_id : String → Exec (World I R L D) IntegrationDeliveryStatus
    get_task_status_by_id task_id = do
      status ← on_idem (s.idempotency.get_task_status_by_id task_id)
      _ ← or_panic (to_string status)
      return status

    unfoldable pub get_task_by_id_with_context : String → Exec (World I R L D) Task
    get_task_by_id_with_context task_id = on_repo (s.repository.get_task_by_id_with_context task_id)

    unfoldable pub upsert_task_and_save_idempotency : Task → Exec (World I R L D) (Unit {0})
    upsert_task_and_save_idempotency t = do
      on_repo (s.repository.upsert_task_with_context t.id (upsert_request t now))
      on_idem (s.idempotency.save_task_status t.id t.delivery_status)

    -- The task to deliver: the one in the repository if there was an attempt before, with the event
    -- that came now; or a new one.
    unfoldable pub get_task : ProcessedEvent → IntegrationDeliveryStatus → Exec (World I R L D) Task
    get_task new_event task_status =
        if is_broadcast task_status
        then (do
          task ← get_task_by_id_with_context (id new_event)
          return (record task { processed_event = new_event }))
        else return (make_task_using_processed_event new_event)

    unfoldable pub deliver_by : Task → DeliveryHandler D → Exec (World I R L D) (Unit {0})
    deliver_by task handle = do
      response ← on_third (handle task)
      _ ← or_panic (to_string response.delivery_status)
      upsert_task_and_save_idempotency (with_response task response)

    unfoldable pub deliver : Task → Exec (World I R L D) (Unit {0})
    deliver task = do
      handle ← find_handler (destination_slug task) (lookup (destination_slug task) s.mapper)
      deliver_by task handle

    -- From the status on: find the task and its handler, deliver, and store what came of it.
    unfoldable pub execute :
        ProcessedEvent → IntegrationDeliveryStatus → Exec (World I R L D) (Unit {0})
    execute new_event task_status = do task ← get_task new_event task_status; deliver task

    -- What runs under the lock.
    unfoldable pub locked_body : ProcessedEvent → Exec (World I R L D) (Unit {0})
    locked_body new_event = do
      task_status ← get_task_status_by_id (id new_event)
      if can_be_executed task_status then execute new_event task_status else return tt

    unfoldable pub handle_task : Table String → ProcessedEvent → Exec (World I R L D) (Unit {0})
    handle_task carrier event = do
      let new_event = record event { tracer_carrier = carrier }
      unlock ← lock_task_by_id (id new_event)
      deferred unlock (locked_body new_event)
