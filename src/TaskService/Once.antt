-- ===== src/TaskService/Once.antt =====
-- What `HandleTask` does for a task whose status is final.
use ormus.Prelude.{ℕ, String, ◌≡◌, refl, ap, ◌∙◌, false, Table, ok, arith, and_then-state}
use ormus.Event.{ProcessedEvent, id}
use ormus.Task.{IntegrationDeliveryStatus, can_be_executed}
use ormus.TaskStore.{IsIdempotencyStore}
use ormus.TaskService.{
  World, Service, get_task_status_by_id, locked_body, handle_task, lock_task_by_id,
}

module _ {I R L D : Type 0} (s : Service I R L D) (now : ℕ)
    (store : IsIdempotencyStore s.idempotency) where
  abbrev pub status : World I R L D → String → IntegrationDeliveryStatus
  status w k = store.view w.idem k

  -- Two worlds in which nothing of a delivery differs.
  pub record SameDeliveries (v w : World I R L D) : Type 0 where
    pub repo : w.repo ≡ v.repo
    pub third : w.third ≡ v.third
    pub statuses : (k : String) → status w k ≡ status v k

  pub get_status-Same :
      (k : String) (w : World I R L D) → SameDeliveries w (get_task_status_by_id s now k w).1
  unfolding get_task_status_by_id
  get_status-Same k w = record {
    repo = ground arith;
    third = ground arith;
    statuses = λ j. ground (arith, store.get_view k j w.idem);
  }

  pub get_status-value :
      (k : String) (w : World I R L D) (t : IntegrationDeliveryStatus)
      → (get_task_status_by_id s now k w).0 ≡ ok t
      → t ≡ status w k
  unfolding get_task_status_by_id
  get_status-value k w t h = ground (arith, store.get_value k w.idem t)

  locked_body-Same :
      (e : ProcessedEvent) (w : World I R L D)
      → can_be_executed (status w (id e)) ≡ false
      → SameDeliveries w (locked_body s now e w).1
  unfolding locked_body
  locked_body-Same e w h =
      and_then-state (λ v. SameDeliveries w v) (get_task_status_by_id s now (id e) w) _
        (get_status-Same (id e) w)
        λ t read.
          rw (ap can_be_executed (get_status-value (id e) w t read) ∙ h) (get_status-Same (id e) w)

  -- Under whatever outcome of the lock and of the read of the status, an event whose task can not
  -- be executed reaches no third party and writes neither the repository nor a status.
  pub handle_task-Same :
      (c : Table String) (e : ProcessedEvent) (w : World I R L D)
      → can_be_executed (status w (id e)) ≡ false
      → SameDeliveries w (handle_task s now c e w).1
  unfolding handle_task lock_task_by_id id
  handle_task-Same c e w h =
      and_then-state (λ v. SameDeliveries w v) (lock_task_by_id s now (id e) w) _
        (record { repo = refl; third = refl; statuses = λ k. refl })
        λ unlock _.
          let locked = (lock_task_by_id s now (id e) w).1 in
          let e' = record e { tracer_carrier = c } in
          let body = locked_body-Same e' locked h in
          record { repo = body.repo; third = body.third; statuses = body.statuses }
