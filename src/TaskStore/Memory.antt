-- ===== src/TaskStore/Memory.antt =====
-- destination/taskservice/adapter: inmemorytaskidempotency and inmemorytaskrepo. The maps are the
-- state; a method holds the mutex for its whole body, so it is one step. `*Task` is kept in the
-- map alone, and so is its value.
use ormus.Prelude.{
  String, Option, none, some, false, ◌≡◌, refl, Exec, ok, return, fail, plain, Table, lookup,
  insert, lookup-insert, arith, eq_refl, eq_iff, Option-cases, inl, inr, str_eq, if◌then◌else◌,
}
use ormus.Task.{IntegrationDeliveryStatus, Task, not_executed_task_status, zero_task}
use ormus.TaskStore.{
  UpsertTaskRequest, Repository, Idempotency, IsIdempotencyStore, IsTaskRepository,
}

abbrev pub IdempotencyDb : Type 0
IdempotencyDb = Table IntegrationDeliveryStatus

abbrev pub RepoDb : Type 0
RepoDb = Table Task

-- inmemorytaskidempotency
unfoldable pub save_task_status : String → IntegrationDeliveryStatus → Exec IdempotencyDb (Unit {0})
save_task_status task_id status db = (ok tt, insert task_id status db)

abbrev pub or_not_executed : Option IntegrationDeliveryStatus → IntegrationDeliveryStatus
or_not_executed none = not_executed_task_status
or_not_executed (some status) = status

unfoldable pub get_task_status_by_id : String → Exec IdempotencyDb IntegrationDeliveryStatus
get_task_status_by_id task_id db = (ok (or_not_executed (lookup task_id db)), db)

abbrev pub idempotency : Idempotency IdempotencyDb
idempotency = record {
  get_task_status_by_id = get_task_status_by_id;
  save_task_status = save_task_status;
}

-- inmemorytaskrepo
abbrev pub found_task : Option Task → Exec RepoDb Task
found_task none = fail (plain "task not found")
found_task (some task) = return task

unfoldable pub get_task_by_id_with_context : String → Exec RepoDb Task
get_task_by_id_with_context task_id db = found_task (lookup task_id db) db

-- The entry to write: the one that is there, or a new one with nothing but the ID.
abbrev pub or_new_task : String → Option Task → Task
or_new_task task_id none = record zero_task { id = task_id }
or_new_task task_id (some task) = task

abbrev pub updated : Task → UpsertTaskRequest → Task
updated task request = record task {
  delivery_status = request.integration_delivery_status;
  attempts = request.attempts;
  failed_reason = request.failed_reason;
}

unfoldable pub upsert_task_with_context : String → UpsertTaskRequest → Exec RepoDb (Unit {0})
upsert_task_with_context task_id request db =
    (ok tt, insert task_id (updated (or_new_task task_id (lookup task_id db)) request) db)

abbrev pub repository : Repository RepoDb
repository = record {
  get_task_by_id_with_context = get_task_by_id_with_context;
  upsert_task_with_context = upsert_task_with_context;
}

abbrev pub view : IdempotencyDb → String → IntegrationDeliveryStatus
view db k = or_not_executed (lookup k db)

pub save_view :
    (k j : String) (t : IntegrationDeliveryStatus) (db : IdempotencyDb)
    → (save_task_status k t db).0 ≡ ok tt
    → view (save_task_status k t db).1 j ≡ (if str_eq k j then t else view db j)
unfolding save_task_status
save_view k j t db _ = ground (arith, lookup-insert k j t db)

pub get_value :
    (k : String) (db : IdempotencyDb) (t : IntegrationDeliveryStatus)
    → (get_task_status_by_id k db).0 ≡ ok t
    → t ≡ view db k
unfolding get_task_status_by_id
get_value k db t h = ground arith

pub get_view :
    (k j : String) (db : IdempotencyDb) → view (get_task_status_by_id k db).1 j ≡ view db j
unfolding get_task_status_by_id
get_view k j db = refl

-- The map keeps the contract that the task service relies on.
abbrev pub memory-IsIdempotencyStore : IsIdempotencyStore idempotency
memory-IsIdempotencyStore = record {
  view = view;
  get_value = get_value;
  get_view = get_view;
  save_view = save_view;
}

read-insert :
    (k j : String) (t : Task) (db : RepoDb)
    → (get_task_by_id_with_context j (insert k t db)).0
      ≡ (if str_eq k j then ok t else (get_task_by_id_with_context j db).0)
unfolding get_task_by_id_with_context
read-insert k j t db = ground (arith, lookup-insert k j t db)

-- What an upsert stores is what a read of the same task returns, under the ID of the task where
-- the entries are kept under their IDs; reads of other tasks are as before. The times of the
-- request are stored nowhere.
pub get-upsert :
    (k j : String) (r : UpsertTaskRequest) (db : RepoDb)
    → let stored = (upsert_task_with_context k r db).1 in
      ((t : Task) × ((get_task_by_id_with_context k stored).0 ≡ ok t)
        × (t.delivery_status ≡ r.integration_delivery_status)
        × (t.attempts ≡ r.attempts)
        × (t.failed_reason ≡ r.failed_reason)
        × (t.updated_at ≡ (or_new_task k (lookup k db)).updated_at)
        × (t.id ≡ (or_new_task k (lookup k db)).id))
      × (str_eq k j ≡ false
          → (get_task_by_id_with_context j stored).0 ≡ (get_task_by_id_with_context j db).0)
unfolding upsert_task_with_context
get-upsert k j r db = (
  (
    updated (or_new_task k (lookup k db)) r,
    rw (read-insert k k (updated (or_new_task k (lookup k db)) r) db) (rw eq_refl),
    refl,
    refl,
    refl,
    refl,
    refl,
  ),
  λ h. rw (read-insert k j (updated (or_new_task k (lookup k db)) r) db) (rw h),
)

-- Every task is kept under its own ID.
abbrev pub KeyedById : RepoDb → Type 0
KeyedById db = (k : String) (t : Task) → lookup k db ≡ some t → t.id ≡ k

pub get_id :
    (k : String) (db : RepoDb) (t : Task)
    → KeyedById db
    → (get_task_by_id_with_context k db).0 ≡ ok t
    → t.id ≡ k
unfolding get_task_by_id_with_context
get_id k db t v h = elim (Option-cases (lookup k db)) [
  | inl e ↦ ground (arith, h)
  | inr (u, e) ↦ v k t (ground (arith, h))
]

pub get-KeyedById :
    (k : String) (db : RepoDb) → KeyedById db → KeyedById (get_task_by_id_with_context k db).1
unfolding get_task_by_id_with_context
get-KeyedById k db v = elim (Option-cases (lookup k db)) [ inl e ↦ rw e v | inr (u, e) ↦ rw e v ]

new_id : (k : String) (db : RepoDb) → KeyedById db → (or_new_task k (lookup k db)).id ≡ k
new_id k db v = elim (Option-cases (lookup k db)) [ inl e ↦ rw e | inr (u, e) ↦ rw e (v k u e) ]

pub upsert-KeyedById :
    (k : String) (q : UpsertTaskRequest) (db : RepoDb)
    → KeyedById db
    → KeyedById (upsert_task_with_context k q db).1
unfolding upsert_task_with_context
upsert-KeyedById k q db v j t h = ground (
  arith,
  h,
  lookup-insert k j (updated (or_new_task k (lookup k db)) q) db,
  eq_iff k j,
  new_id k db v,
  v j t,
)

abbrev pub memory-IsTaskRepository : IsTaskRepository repository
memory-IsTaskRepository = record {
  Inv = KeyedById;
  get_id = get_id;
  get_keeps = get-KeyedById;
  upsert_keeps = upsert-KeyedById;
}
