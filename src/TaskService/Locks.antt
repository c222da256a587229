-- ===== src/TaskService/Locks.antt =====
-- The lock that `HandleTask` takes and gives back.
use ormus.Prelude.{
  return, ℕ, String, ◌≡◌, refl, ap, ◌∙◌, Bool, true, false, Table, Exec, Outcome, ok, err, panic,
  arith, Option, some, none, if◌then◌else◌, and_then, and_then-state, lookup, or_panic, concat,
}
use ormus.Event.{ProcessedEvent, id}
use ormus.Task.{Task, IntegrationDeliveryStatus, can_be_executed, to_string, destination_slug}
use ormus.Delivery.{DeliveryTaskResponse, DeliveryHandler}
use ormus.TaskService.{
  World, Service, get_task_status_by_id, get_task_by_id_with_context, get_task, find_handler,
  execute, upsert_task_and_save_idempotency, deliver, deliver_by, locked_body, handle_task,
  lock_task_by_id, with_response, on_third, deferred,
}

-- The state of a locker after `lock` and, where it was granted, the unlock.
abbrev pub released : {L : Type 0} → Outcome (Exec L (Unit {0})) × L → L
released (ok unlock, l) = (unlock l).1
released (err e, l) = l
released (panic, l) = l

module _ {I R L D : Type 0} (s : Service I R L D) (now : ℕ) where
  abbrev W : Type 0
  W = World I R L D

  -- A sequence leaves the locks alone if its parts do.
  then-locks :
      {A B : Type 0} (w : W) (r : Outcome A × W) (f : A → Exec W B)
      → r.1.locks ≡ w.locks
      → ((a : A) (v : W) → (f a v).1.locks ≡ v.locks)
      → (and_then r f).1.locks ≡ w.locks
  then-locks w r f h k = and_then-state (λ v. v.locks ≡ w.locks) r f h (λ a _. k a r.1 ∙ h)

  or_panic-locks : {A : Type 0} (o : Option A) (w : W) → (or_panic o w).1.locks ≡ w.locks
  or_panic-locks none w = refl
  or_panic-locks (some a) w = refl

  locks-upsert : (t : Task) (w : W) → (upsert_task_and_save_idempotency s now t w).1.locks ≡ w.locks
  unfolding upsert_task_and_save_idempotency
  locks-upsert t w = ground arith

  locks-find_handler :
      (k : String) (o : Option (DeliveryHandler D)) (w : W) → (find_handler k o w).1.locks ≡ w.locks
  unfolding find_handler
  locks-find_handler k none w = refl
  locks-find_handler k (some h) w = refl

  locks-deliver_by :
      (t : Task) (h : DeliveryHandler D) (w : W) → (deliver_by s now t h w).1.locks ≡ w.locks
  unfolding deliver_by
  locks-deliver_by t h w =
      let send : Exec W DeliveryTaskResponse = on_third (h t) in
      then-locks w (send w) _ refl λ r v.
        then-locks v (or_panic (to_string r.delivery_status) v) _
          (or_panic-locks (to_string r.delivery_status) v)
          (λ _ u. locks-upsert (with_response t r) u)

  locks-deliver : (t : Task) (w : W) → (deliver s now t w).1.locks ≡ w.locks
  unfolding deliver
  locks-deliver t w =
      let handler = lookup (destination_slug t) s.mapper in
      then-locks w (find_handler (destination_slug t) handler w) _
        (locks-find_handler (destination_slug t) handler w) (locks-deliver_by t)

  locks-get_task :
      (e : ProcessedEvent) (t : IntegrationDeliveryStatus) (w : W)
      → (get_task s now e t w).1.locks ≡ w.locks
  unfolding get_task get_task_by_id_with_context
  locks-get_task e t w = ground arith

  locks-execute :
      (b : Bool) (e : ProcessedEvent) (t : IntegrationDeliveryStatus) (w : W)
      → ((if b then execute s now e t else return tt) w).1.locks ≡ w.locks
  unfolding execute
  locks-execute true e t w =
      then-locks w (get_task s now e t w) _ (locks-get_task e t w) locks-deliver
  locks-execute false e t w = refl

  locks-get_status : (k : String) (w : W) → (get_task_status_by_id s now k w).1.locks ≡ w.locks
  unfolding get_task_status_by_id
  locks-get_status k w = ground arith

  locks-locked_body : (e : ProcessedEvent) (w : W) → (locked_body s now e w).1.locks ≡ w.locks
  unfolding locked_body
  locks-locked_body e w =
      then-locks w (get_task_status_by_id s now (id e) w) _ (locks-get_status (id e) w)
        λ t. locks-execute (can_be_executed t) e t

  locks_by_lock :
      (e : ProcessedEvent) (w : W) (r : Outcome (Exec L (Unit {0})) × L)
      → (and_then (r.0, record w { locks = r.1 }) (λ u. deferred u (locked_body s now e))).1.locks
        ≡ released r
  locks_by_lock e w (ok unlock, l) =
      ap (λ x. (unlock x).1) (locks-locked_body e (record w { locks = l }))
  locks_by_lock e w (err x, l) = refl
  locks_by_lock e w (panic, l) = refl

  -- Whatever happens between, an error or a panic included, the state of the locker after a call is
  -- that of locking the task's key and then, if the lock was granted, of one call of its unlock.
  pub locks-handle_task :
      (c : Table String) (e : ProcessedEvent) (w : World I R L D)
      → (handle_task s now c e w).1.locks
        ≡ released (s.locker.lock (concat "task:" (id e)) s.task_lock_ttl_seconds w.locks)
  unfolding handle_task lock_task_by_id id
  locks-handle_task c e w =
      locks_by_lock (record e { tracer_carrier = c }) w
        (s.locker.lock (concat "task:" (id e)) s.task_lock_ttl_seconds w.locks)
