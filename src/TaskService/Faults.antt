-- ===== src/TaskService/Faults.antt =====
-- The error paths of `HandleTask` on which a task is lost or delivered again.
use ormus.Prelude.{
  ◌≤◌, zero, suc, ◌>>=◌, return, ℕ, String, ◌≡◌, refl, sym, ap, ◌∙◌, true, Table, Exec, Error, ok,
  err, arith, some, and_then-value, lookup, or_panic, concat,
}
use ormus.Event.{ProcessedEvent, id}
use ormus.Task.{
  Task, IntegrationDeliveryStatus, can_be_executed, is_broadcast, to_string,
  make_task_using_processed_event, destination_slug, retriable_failed_task_status,
  not_executed_task_status, success_task_status,
}
use ormus.Task.Status.{to_string_total}
use ormus.TaskStore.{IsIdempotencyStore}
use ormus.Delivery.{DeliveryTaskResponse, DeliveryHandler}
use ormus.TaskService.{
  World, Service, get_task_status_by_id, get_task_by_id_with_context, get_task, find_handler,
  execute, upsert_task_and_save_idempotency, deliver, deliver_by, locked_body, handle_task,
  lock_task_by_id, upsert_request, with_response, on_third, on_idem, deferred,
}

module _ {I R L D : Type 0} (s : Service I R L D) (now : ℕ) where
  abbrev W : Type 0
  W = World I R L D

  executable_named :
      (t : IntegrationDeliveryStatus) (w : W)
      → can_be_executed t ≡ true
      → (or_panic (to_string t) >>= λ _. return t) w ≡ (ok t, w)
  unfolding can_be_executed to_string
  executable_named zero w h = cc
  executable_named (suc zero) w h = refl
  executable_named (suc (suc zero)) w h = refl
  executable_named (suc (suc (suc t))) w h = absurd (ground arith)

  -- A call that gets its lock and reads a status that can be executed is its `execute`.
  module _ (c : Table String) (e : ProcessedEvent) (w : W) (t : IntegrationDeliveryStatus)
      (unlock : Exec L (Unit {0}))
      (granted : (s.locker.lock (concat "task:" (id e)) s.task_lock_ttl_seconds w.locks).0
        ≡ ok unlock)
      (read : (s.idempotency.get_task_status_by_id (id e) w.idem).0 ≡ ok t)
      (executable : can_be_executed t ≡ true) where
    abbrev own : ProcessedEvent
    own = record e { tracer_carrier = c }

    abbrev after_read : W
    after_read = record w {
      locks = (s.locker.lock (concat "task:" (id e)) s.task_lock_ttl_seconds w.locks).1;
      idem = (s.idempotency.get_task_status_by_id (id e) w.idem).1;
    }

    get_status-read :
        get_task_status_by_id s now (id own) (record w { locks = after_read.locks })
        ≡ (ok t, after_read)
    unfolding get_task_status_by_id id
    get_status-read =
        let get : Exec W IntegrationDeliveryStatus =
          on_idem (s.idempotency.get_task_status_by_id (id e)) in
        let name : IntegrationDeliveryStatus → Exec W IntegrationDeliveryStatus =
          λ u. or_panic (to_string u) >>= λ _. return u in
        rw (and_then-value (get (record w { locks = after_read.locks })) name t read)
          (executable_named t after_read executable)

    locked_body-execute :
        locked_body s now own (record w { locks = after_read.locks })
        ≡ execute s now own t after_read
    unfolding locked_body
    locked_body-execute = rw (get_status-read, executable)

    handle_task-execute :
        let r = handle_task s now c e w in
        let x = execute s now own t after_read in
        (r.0 ≡ x.0) × (r.1.third ≡ x.1.third) × (r.1.idem ≡ x.1.idem) × (r.1.repo ≡ x.1.repo)
    unfolding handle_task lock_task_by_id id
    handle_task-execute =
        let lock : Exec W (Exec L (Unit {0})) = lock_task_by_id s now (id e) in
        let body : Exec L (Unit {0}) → Exec W (Unit {0}) =
          λ u. deferred u (locked_body s now own) in
        rw (and_then-value (lock w) body unlock granted, locked_body-execute)
          (refl, refl, refl, refl)

  execute-missing :
      (e : ProcessedEvent) (w : W) (x : Error)
      → (s.repository.get_task_by_id_with_context (id e) w.repo).0 ≡ err x
      → let r = execute s now e retriable_failed_task_status w in
        (r.0 ≡ err x) × (r.1.third ≡ w.third) × (r.1.idem ≡ w.idem)
  unfolding execute get_task get_task_by_id_with_context is_broadcast
  execute-missing e w x h = ground (arith, h)

  deliver_by-unstored :
      (task : Task) (handle : DeliveryHandler D) (w : W) (x : Error) (r : DeliveryTaskResponse)
      → (handle task w.third).0 ≡ ok r
      → r.delivery_status ≤ success_task_status
      → (s.repository.upsert_task_with_context task.id
          (upsert_request (with_response task r) now)
          w.repo).0
        ≡ err x
      → let y = deliver_by s now task handle w in
        (y.0 ≡ err x) × (y.1.third ≡ (handle task w.third).1) × (y.1.idem ≡ w.idem)
  unfolding deliver_by upsert_task_and_save_idempotency
  deliver_by-unstored task handle w x r sent valid failed =
      let (name, named) = to_string_total r.delivery_status valid in
      let send : Exec W DeliveryTaskResponse = on_third (handle task) in
      let store : DeliveryTaskResponse → Exec W (Unit {0}) = λ q.
        or_panic (to_string q.delivery_status) >>= λ _.
        upsert_task_and_save_idempotency s now (with_response task q) in
      rw (and_then-value (send w) store r sent, named) (ground (arith, failed))

  execute-unstored :
      (e : ProcessedEvent) (w : W) (x : Error) (handle : DeliveryHandler D)
      (r : DeliveryTaskResponse)
      → let task = make_task_using_processed_event e in
        lookup (destination_slug task) s.mapper ≡ some handle
        → (handle task w.third).0 ≡ ok r
        → r.delivery_status ≤ success_task_status
        → (s.repository.upsert_task_with_context task.id
            (upsert_request (with_response task r) now)
            w.repo).0
          ≡ err x
        → let y = execute s now e not_executed_task_status w in
          (y.0 ≡ err x) × (y.1.third ≡ (handle task w.third).1) × (y.1.idem ≡ w.idem)
  unfolding execute get_task is_broadcast deliver find_handler
  execute-unstored e w x handle r found sent valid failed =
      rw found
        (deliver_by-unstored (make_task_using_processed_event e) handle w x r sent valid failed)

  module _ (store : IsIdempotencyStore s.idempotency) where
    -- A task that failed retriably and that the repository does not return is not delivered: each
    -- call returns the repository's error, reaches no third party and leaves the statuses, so that
    -- the next call fares no better. (The repository in memory is empty after a restart.)
    pub handle_task_lost :
        (c : Table String) (e : ProcessedEvent) (w : W) (unlock : Exec L (Unit {0})) (x : Error)
        → (s.locker.lock (concat "task:" (id e)) s.task_lock_ttl_seconds w.locks).0 ≡ ok unlock
        → (s.idempotency.get_task_status_by_id (id e) w.idem).0 ≡ ok retriable_failed_task_status
        → (s.repository.get_task_by_id_with_context (id e) w.repo).0 ≡ err x
        → let r = handle_task s now c e w in
          (r.0 ≡ err x)
          × (r.1.third ≡ w.third)
          × ((j : String) → store.view r.1.idem j ≡ store.view w.idem j)
    unfolding can_be_executed id
    handle_task_lost c e w unlock x granted read missing =
        let e' : ProcessedEvent = record e { tracer_carrier = c } in
        let same =
          handle_task-execute c e w retriable_failed_task_status unlock granted read refl in
        let v = after_read c e w retriable_failed_task_status unlock granted read refl in
        let lost = execute-missing e' v x missing in
        (
          same.0 ∙ lost.0,
          same.1 ∙ lost.1,
          λ j. ap (λ i. store.view i j) (same.2 ∙ lost.2) ∙ store.get_view (id e) j w.idem,
        )

    -- A first delivery whose result the repository does not take: the call returns the repository's
    -- error, the third party has been reached, and the statuses are as before, so that the task can
    -- still be executed and the next event of this ID delivers it again.
    pub handle_task_unstored :
        (c : Table String) (e : ProcessedEvent) (w : W) (unlock : Exec L (Unit {0})) (x : Error)
        (handle : DeliveryHandler D) (r : DeliveryTaskResponse)
        → let task = make_task_using_processed_event (record e { tracer_carrier = c }) in
          (s.locker.lock (concat "task:" (id e)) s.task_lock_ttl_seconds w.locks).0 ≡ ok unlock
          → (s.idempotency.get_task_status_by_id (id e) w.idem).0 ≡ ok not_executed_task_status
          → lookup (destination_slug task) s.mapper ≡ some handle
          → (handle task w.third).0 ≡ ok r
          → r.delivery_status ≤ success_task_status
          → (s.repository.upsert_task_with_context task.id
              (upsert_request (with_response task r) now)
              w.repo).0
            ≡ err x
          → let y = handle_task s now c e w in
            (y.0 ≡ err x)
            × (y.1.third ≡ (handle task w.third).1)
            × ((j : String) → store.view y.1.idem j ≡ store.view w.idem j)
            × (can_be_executed (store.view y.1.idem (id e)) ≡ true)
    unfolding can_be_executed id
    handle_task_unstored c e w unlock x handle r granted read found sent valid failed =
        let e' : ProcessedEvent = record e { tracer_carrier = c } in
        let same = handle_task-execute c e w not_executed_task_status unlock granted read refl in
        let v = after_read c e w not_executed_task_status unlock granted read refl in
        let went = execute-unstored e' v x handle r found sent valid failed in
        let kept : (j : String)
            → store.view (handle_task s now c e w).1.idem j ≡ store.view w.idem j =
          λ j. ap (λ i. store.view i j) (same.2 ∙ went.2) ∙ store.get_view (id e) j w.idem in
        (
          same.0 ∙ went.0,
          same.1 ∙ went.1,
          kept,
          ap can_be_executed
              (kept (id e) ∙ sym (store.get_value (id e) w.idem not_executed_task_status read)),
        )
