-- ===== src/TaskService/Exactly.antt =====
-- The service over the repository in memory and the fake handler, event after event, with any store of the statuses that keeps its contract.
pub mod Tally
use ormus.Prelude.{
  ℕ, suc, String, ◌≡◌, ◌≤◌, refl, sym, ap, ◌∙◌, ◌⊎◌, inl, inr, Bool, true, false, ◌&&◌, ◌||◌, List,
  [], ◌∷◌, Table, Exec, ok, err, panic, arith, none, Bool-cases, Outcome-cases, and_then-value,
  concat, if◌then◌else◌, str_eq, lookup, insert, ◌==◌, eq_iff,
}
use ormus.Event.{ProcessedEvent, id, webhook_destination_type, destination_type}
use ormus.Task.{
  Task, IntegrationDeliveryStatus, can_be_executed, is_broadcast, to_string,
  make_task_using_processed_event, destination_slug,
}
use ormus.TaskStore.{Idempotency, IsIdempotencyStore, Saves, Reads}
use ormus.TaskStore.Memory
use ormus.TaskStore.Memory.{repository, RepoDb}
use ormus.TaskService.Once.{SameDeliveries, handle_task-Same, get_status-Same, get_status-value}
use ormus.Delivery.{DeliveryTaskResponse, fake_handle, register}
use ormus.TaskService.{
  World, Service, Locker, get_task_status_by_id, get_task, find_handler, execute,
  upsert_task_and_save_idempotency, deliver, deliver_by, deferred, upsert_request, with_response,
  locked_body, handle_task, lock_task_by_id,
}

-- The third party keeps the IDs of the tasks that reach it.
abbrev pub record_id : Task → List String → List String
record_id t d = t.id ∷ d

abbrev pub count : String → List String → ℕ
count k [] = 0
count k (x ∷ xs) = let rest = count k xs in if str_eq x k then suc rest else rest

abbrev pub fake_response : DeliveryTaskResponse
fake_response = record { attempts = 1; failed_reason = none; delivery_status = 4 }

abbrev pub matches : ProcessedEvent → Bool
matches e = str_eq webhook_destination_type (destination_type e)

abbrev pub sends_for : String → ProcessedEvent → Bool
sends_for k e = matches e && str_eq (id e) k

abbrev pub requested : String → List (Table String × ProcessedEvent) → Bool
requested k [] = false
requested k ((c, e) ∷ es) = sends_for k e || requested k es

-- Every lock is granted.
abbrev pub Locks : {L : Type 0} → Locker L → ℕ → Type 0
Locks {L} locker ttl =
    (k : String) (l : L) → (unlock : Exec L (Unit {0})) × ((locker.lock k ttl l).0 ≡ ok unlock)

-- The worker as it starts: nothing has reached the third party.
abbrev pub start : {I L : Type 0} → I → RepoDb → L → World I RepoDb L (List String)
start i r l = record { idem = i; repo = r; locks = l; third = [] }

module _ {I L : Type 0} (store : Idempotency I) (locker : Locker L) (ttl now : ℕ) where
  abbrev W : Type 0
  W = World I RepoDb L (List String)

  abbrev pub fake_service : Service I RepoDb L (List String)
  fake_service = record {
    idempotency = store;
    repository = repository;
    locker = locker;
    task_lock_ttl_seconds = ttl;
    mapper = register webhook_destination_type (fake_handle record_id) [];
  }

  -- Calls of `HandleTask` one after the other, each for an event with the carrier of its span. The
  -- worker's own calls overlap, as Overlap has them.
  unfoldable pub handle_all : List (Table String × ProcessedEvent) → W → W
  handle_all [] w = w
  handle_all ((c, e) ∷ es) w = handle_all es (handle_task fake_service now c e w).1

  module _ (laws : IsIdempotencyStore store) (saves : Saves store) where
    abbrev pub status : W → String → IntegrationDeliveryStatus
    status w k = laws.view w.idem k

    -- What a call does that delivers, or does not.
    pub record Effect (fired : Bool) (e : ProcessedEvent) (v w : W) : Type 0 where
      pub third : w.third ≡ (if fired then id e ∷ v.third else v.third)
      pub statuses :
          (k : String) → status w k ≡ (if fired && str_eq (id e) k then 4 else status v k)

    deliver-Effect :
        (e : ProcessedEvent) (w : W)
        → Effect (matches e) e w (deliver fake_service now (make_task_using_processed_event e) w).1
    unfolding deliver deliver_by find_handler upsert_task_and_save_idempotency to_string
        make_task_using_processed_event destination_slug destination_type fake_handle register
        insert lookup Memory.upsert_task_with_context
    deliver-Effect e w = elim (Bool-cases (matches e)) [
      | inl m ↦ rw m (record {
        third = refl;
        statuses = λ k. laws.save_view (id e) k 4 w.idem (saves (id e) w.idem);
      })
      | inr m ↦ rw m (record { third = refl; statuses = λ k. refl })
    ]

    unchanged :
        (e : ProcessedEvent) (v w : W)
        → SameDeliveries fake_service now laws v w
        → Effect false e v w
    unchanged e v w s = record { third = s.third; statuses = s.statuses }

    after_same :
        (fired : Bool) (e : ProcessedEvent) (u v w : W)
        → SameDeliveries fake_service now laws u v
        → Effect fired e v w
        → Effect fired e u w
    after_same fired e u v w s f = record {
      third = f.third ∙ ap (λ l. if fired then id e ∷ l else l) s.third;
      statuses =
          λ k. f.statuses k ∙ ap (λ t. if fired && str_eq (id e) k then 4 else t) (s.statuses k);
    }

    -- A call for a task that is not begun delivers it or does nothing.
    abbrev pub Begins : ProcessedEvent → W → W → Type 0
    Begins e v w = (fired : Bool) × Effect fired e v w × (fired ≡ true → matches e ≡ true)

    get_status-new :
        (e : ProcessedEvent) (w : W)
        → status w (id e) ≡ 1
        → Reads store
        → (get_task_status_by_id fake_service now (id e) w).0 ≡ ok 1
    unfolding get_task_status_by_id to_string
    get_status-new e w h reads =
        let (t, r) = reads (id e) w.idem in
        let new : t ≡ 1 = laws.get_value (id e) w.idem t r ∙ h in rw (r, new) refl

    locked_body-Begins :
        (e : ProcessedEvent) (w : W)
        → status w (id e) ≡ 1
        → (b : Begins e w (locked_body fake_service now e w).1) × (Reads store → b.0 ≡ matches e)
    unfolding locked_body execute get_task can_be_executed is_broadcast
    locked_body-Begins e w h =
        let read = get_task_status_by_id fake_service now (id e) w in
        let same = get_status-Same fake_service now laws (id e) w in
        elim (Outcome-cases read.0) [
          | inl (t, r) ↦
              let new : t ≡ 1 = get_status-value fake_service now laws (id e) w t r ∙ h in
              rw (r, new)
                (
                  (
                    matches e,
                    after_same (matches e) e w read.1 _ same (deliver-Effect e read.1),
                    λ m. m,
                  ),
                  λ reads. refl,
                )
          | inr (inl (x, r)) ↦ rw r (
            (false, unchanged e w read.1 same, λ m. cc),
            λ reads. cc (get_status-new e w h reads, r),
          )
          | inr (inr r) ↦ rw r (
            (false, unchanged e w read.1 same, λ m. cc),
            λ reads. cc (get_status-new e w h reads, r),
          )
        ]

    pub handle_task-Begins :
        (c : Table String) (e : ProcessedEvent) (w : W)
        → status w (id e) ≡ 1
        → (b : Begins e w (handle_task fake_service now c e w).1) × (Locks locker ttl
            → Reads store
            → b.0 ≡ matches e)
    unfolding handle_task lock_task_by_id id destination_type
    handle_task-Begins c e w h =
        let e' : ProcessedEvent = record e { tracer_carrier = c } in
        let lock = lock_task_by_id fake_service now (id e) w in
        let skipped : Effect false e w lock.1 = record { third = refl; statuses = λ k. refl } in
        elim (Outcome-cases lock.0) [
          | inl (unlock, r) ↦
              let ((fired, f, m), exact) = locked_body-Begins e' lock.1 h in
              rw r (
                (fired, record { third = f.third; statuses = f.statuses }, m),
                λ locks reads. exact reads,
              )
          | inr (inl (x, r)) ↦ rw r (
            (false, skipped, λ m. cc),
            λ locks reads. cc ((locks (concat "task:" (id e)) w.locks).1, r),
          )
          | inr (inr r) ↦ rw r (
            (false, skipped, λ m. cc),
            λ locks reads. cc ((locks (concat "task:" (id e)) w.locks).1, r),
          )
        ]
