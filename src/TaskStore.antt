-- ===== src/TaskStore.antt =====
-- What the task service keeps of its tasks: the interfaces `Idempotency` and `Repository` of
-- destination/taskservice/service.go and the request of
-- destination/taskservice/param/upsert_task.go. The children are the implementations:
-- `Memory` for adapter/idempotency/inmemorytaskidempotency and
-- adapter/repository/inmemorytaskrepo, `Redis` for adapter/idempotency/redistaskidempotency.
pub mod Memory
pub mod Redis
pub mod Refinement
use ormus.Prelude.{ℕ, String, Option, ◌≡◌, ok, Exec, str_eq, if◌then◌else◌}
use ormus.Task.{IntegrationDeliveryStatus, Task, not_executed_task_status}

pub record UpsertTaskRequest : Type 0 where
  pub integration_delivery_status : IntegrationDeliveryStatus
  pub attempts : ℕ
  pub failed_reason : Option String
  pub created_at : ℕ
  pub updated_at : ℕ

-- The operations, on a state of the implementation's own.
pub record Repository (R : Type 0) : Type 0 where
  pub get_task_by_id_with_context : String → Exec R Task
  pub upsert_task_with_context : String → UpsertTaskRequest → Exec R (Unit {0})

pub record Idempotency (I : Type 0) : Type 0 where
  pub get_task_status_by_id : String → Exec I IntegrationDeliveryStatus
  pub save_task_status : String → IntegrationDeliveryStatus → Exec I (Unit {0})

-- What the service relies on: there is a view of the status of each task; a read that succeeds
-- returns it and no read changes it; a save that succeeds sets it for its own task alone.
pub record IsIdempotencyStore {I : Type 0} (d : Idempotency I) : Type 0 where
  pub view : I → String → IntegrationDeliveryStatus
  pub get_value :
      (k : String) (s : I) (t : IntegrationDeliveryStatus)
      → (d.get_task_status_by_id k s).0 ≡ ok t
      → t ≡ view s k
  pub get_view : (k j : String) (s : I) → view (d.get_task_status_by_id k s).1 j ≡ view s j
  pub save_view :
      (k j : String) (t : IntegrationDeliveryStatus) (s : I)
      → (d.save_task_status k t s).0 ≡ ok tt
      → view (d.save_task_status k t s).1 j ≡ (if str_eq k j then t else view s j)

-- Every save of a task that is done succeeds.
abbrev pub Saves : {I : Type 0} → Idempotency I → Type 0
Saves {I} store = (k : String) (i : I) → (store.save_task_status k 4 i).0 ≡ ok tt

-- Every read succeeds.
abbrev pub Reads : {I : Type 0} → Idempotency I → Type 0
Reads {I} store =
    (k : String) (i : I)
    → (t : IntegrationDeliveryStatus) × ((store.get_task_status_by_id k i).0 ≡ ok t)

-- What the service relies on in the repository: it returns a task under the ID that was asked for.
-- `Inv` is what the implementation keeps between its calls.
pub record IsTaskRepository {R : Type 0} (d : Repository R) : Type 1 where
  pub Inv : R → Type 0
  pub get_id :
      (k : String) (r : R) (t : Task)
      → Inv r
      → (d.get_task_by_id_with_context k r).0 ≡ ok t
      → t.id ≡ k
  pub get_keeps : (k : String) (r : R) → Inv r → Inv (d.get_task_by_id_with_context k r).1
  pub upsert_keeps :
      (k : String) (q : UpsertTaskRequest) (r : R)
      → Inv r
      → Inv (d.upsert_task_with_context k q r).1
