-- ===== src/TaskService/Delivers.antt =====
-- What a call of `HandleTask` that returns no error has done for a task that can be executed.
use mathlib.Core.Path.{subst}
use ormus.Prelude.{
  ℕ, String, ◌≡◌, refl, sym, ap, ◌∙◌, true, Table, Exec, ok, some, if◌then◌else◌, and_then-eq-ok,
  str_eq, lookup,
}
use ormus.Event.{ProcessedEvent, id}
use ormus.Task.{Task, IntegrationDeliveryStatus, can_be_executed, destination_slug}
use ormus.TaskStore.{IsIdempotencyStore, IsTaskRepository}
use ormus.Delivery.{DeliveryTaskResponse, DeliveryHandler}
use ormus.TaskService.{
  World, Service, get_task_status_by_id, get_task, execute, locked_body, handle_task,
  lock_task_by_id,
}
use ormus.TaskService.Once.{status, SameDeliveries, get_status-Same, get_status-value}
use ormus.TaskService.Sends.{get_task-Found, deliver-ok}

module _ {I R L D : Type 0} (s : Service I R L D) (now : ℕ)
    (store : IsIdempotencyStore s.idempotency) (tasks : IsTaskRepository s.repository) where
  -- A call that has delivered: the handler that it called and with which task, and what it stored.
  pub record HasDelivered (e : ProcessedEvent) (w w' : World I R L D) : Type 0 where
    pub task : Task
    pub own_id : task.id ≡ id e
    pub own_event : task.processed_event ≡ e
    pub handle : DeliveryHandler D
    pub registered : lookup (destination_slug task) s.mapper ≡ some handle
    pub response : DeliveryTaskResponse
    pub sent : (handle task w.third).0 ≡ ok response
    pub third : w'.third ≡ (handle task w.third).1
    pub stored :
        (j : String)
        → status s now store w' j
          ≡ (if str_eq (id e) j then response.delivery_status else status s now store w j)
    pub inv : tasks.Inv w'.repo

  execute-HasDelivered :
      (e : ProcessedEvent) (t : IntegrationDeliveryStatus) (w : World I R L D)
      → tasks.Inv w.repo
      → (execute s now e t w).0 ≡ ok tt
      → HasDelivered e w (execute s now e t w).1
  unfolding execute
  execute-HasDelivered e t w v h =
      let (task, got, h1, ran) = and_then-eq-ok (get_task s now e t w) _ tt h in
      let f = get_task-Found s now store tasks e t w task v got in
      let w1 = (get_task s now e t w).1 in
      let (handle, registered, x) = deliver-ok s now store tasks task w1 h1 in
      rw ran (record {
        task = task;
        own_id = f.own_id;
        own_event = f.own_event;
        handle = handle;
        registered = registered;
        response = x.response;
        sent = subst (λ d. (handle task d).0 ≡ ok x.response) f.same_third x.sent;
        third = x.third ∙ ap (λ d. (handle task d).1) f.same_third;
        stored = λ j.
            x.stored j
            ∙ ap (λ k. if str_eq k j then x.response.delivery_status else status s now store w1 j)
                f.own_id
            ∙ ap (λ i. if str_eq (id e) j then x.response.delivery_status else store.view i j)
                f.same_idem;
        inv = x.inv f.inv;
      })

  -- Steps before and after that touch no delivery.
  HasDelivered-from :
      (e : ProcessedEvent) {u v w : World I R L D}
      → SameDeliveries s now store u v
      → HasDelivered e v w
      → HasDelivered e u w
  HasDelivered-from e q x = record {
    task = x.task;
    own_id = x.own_id;
    own_event = x.own_event;
    handle = x.handle;
    registered = x.registered;
    response = x.response;
    sent = subst (λ d. (x.handle x.task d).0 ≡ ok x.response) q.third x.sent;
    third = x.third ∙ ap (λ d. (x.handle x.task d).1) q.third;
    stored = λ j.
        x.stored j
        ∙ ap (λ t. if str_eq (id e) j then x.response.delivery_status else t) (q.statuses j);
    inv = x.inv;
  }

  HasDelivered-relock :
      (e : ProcessedEvent) {w w' : World I R L D} (l : L)
      → HasDelivered e w w'
      → HasDelivered e w (record w' { locks = l })
  HasDelivered-relock e l x = record {
    task = x.task;
    own_id = x.own_id;
    own_event = x.own_event;
    handle = x.handle;
    registered = x.registered;
    response = x.response;
    sent = x.sent;
    third = x.third;
    stored = x.stored;
    inv = x.inv;
  }

  locked_body-HasDelivered :
      (e : ProcessedEvent) (w : World I R L D)
      → tasks.Inv w.repo
      → can_be_executed (status s now store w (id e)) ≡ true
      → (locked_body s now e w).0 ≡ ok tt
      → HasDelivered e w (locked_body s now e w).1
  unfolding locked_body
  locked_body-HasDelivered e w v x h =
      let (t, read, h1, ran) = and_then-eq-ok (get_task_status_by_id s now (id e) w) _ tt h in
      let same = get_status-Same s now store (id e) w in
      let w1 = (get_task_status_by_id s now (id e) w).1 in
      let p = ap can_be_executed (get_status-value s now store (id e) w t read) ∙ x in
      rw (ran, p)
        (HasDelivered-from e same
          (execute-HasDelivered e t w1 (subst tasks.Inv (sym same.repo) v) (rw p at h1)))

  -- A call for an event whose task can be executed and that returns no error has called the handler
  -- that is registered for the event's destination, once, with a task that has the event's ID and
  -- the event with the new carrier; its answer is the only change at the third parties, and its
  -- status is stored for this task and for no other.
  pub handle_task-HasDelivered :
      (c : Table String) (e : ProcessedEvent) (w : World I R L D)
      → tasks.Inv w.repo
      → can_be_executed (status s now store w (id e)) ≡ true
      → (handle_task s now c e w).0 ≡ ok tt
      → HasDelivered (record e { tracer_carrier = c }) w (handle_task s now c e w).1
  unfolding handle_task lock_task_by_id id
  handle_task-HasDelivered c e w v x h =
      let e' : ProcessedEvent = record e { tracer_carrier = c } in
      let lock : Exec (World I R L D) (Exec L (Unit {0})) = lock_task_by_id s now (id e) in
      let (unlock, locked, h1, ran) = and_then-eq-ok (lock w) _ tt h in
      let w1 = (lock w).1 in
      let before : SameDeliveries s now store w w1 = record {
        repo = refl;
        third = refl;
        statuses = λ k. refl;
      } in
      rw ran (
        HasDelivered-relock e' _
          (HasDelivered-from e' before (locked_body-HasDelivered e' w1 v x h1)))
