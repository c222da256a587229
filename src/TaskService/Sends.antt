-- ===== src/TaskService/Sends.antt =====
-- What the parts of `HandleTask` that find a task and deliver it have done when they succeed.
use mathlib.Core.Path.{subst}
use ormus.Prelude.{
  ok-injective, or_panic-state, ℕ, String, ◌≡◌, refl, ap, ◌∙◌, Exec, ok, Option, some, none,
  Bool-cases, if◌then◌else◌, and_then-eq-ok, str_eq, lookup, inl, inr, or_panic,
}
use ormus.Event.{ProcessedEvent, id}
use ormus.Task.{
  Task, IntegrationDeliveryStatus, is_broadcast, to_string, make_task_using_processed_event,
  destination_slug,
}
use ormus.TaskStore.{IsIdempotencyStore, IsTaskRepository}
use ormus.Delivery.{DeliveryTaskResponse, DeliveryHandler}
use ormus.TaskService.{
  World, Service, get_task_by_id_with_context, get_task, find_handler,
  upsert_task_and_save_idempotency, on_third, deliver_by, deliver, upsert_request, with_response,
  on_repo,
}
use ormus.TaskService.Once.{status}

module _ {I R L D : Type 0} (s : Service I R L D) (now : ℕ)
    (store : IsIdempotencyStore s.idempotency) (tasks : IsTaskRepository s.repository) where
  -- What `get_task` has found when it returns a task.
  pub record Found (e : ProcessedEvent) (w w' : World I R L D) (task : Task) : Type 0 where
    pub own_id : task.id ≡ id e
    pub own_event : task.processed_event ≡ e
    pub same_third : w'.third ≡ w.third
    pub same_idem : w'.idem ≡ w.idem
    pub inv : tasks.Inv w'.repo

  read_task-Found :
      (e : ProcessedEvent) (w : World I R L D) (stored : Task)
      → tasks.Inv w.repo
      → (get_task_by_id_with_context s now (id e) w).0 ≡ ok stored
      → Found e w
          (get_task_by_id_with_context s now (id e) w).1
          (record stored { processed_event = e })
  unfolding get_task_by_id_with_context
  read_task-Found e w stored v h = record {
    own_id = tasks.get_id (id e) w.repo stored v h;
    own_event = refl;
    same_third = refl;
    same_idem = refl;
    inv = tasks.get_keeps (id e) w.repo v;
  }

  pub get_task-Found :
      (e : ProcessedEvent) (t : IntegrationDeliveryStatus) (w : World I R L D) (task : Task)
      → tasks.Inv w.repo
      → (get_task s now e t w).0 ≡ ok task
      → Found e w (get_task s now e t w).1 task
  unfolding get_task
  get_task-Found e t w task v h = elim (Bool-cases (is_broadcast t)) [
    | inl b ↦ rw b (
        let (stored, read, found, ran) =
          and_then-eq-ok (get_task_by_id_with_context s now (id e) w) _ task (rw b at h) in
        rw ran (
          subst (Found e w (get_task_by_id_with_context s now (id e) w).1) (ok-injective found)
            (read_task-Found e w stored v read)))
    | inr b ↦ rw b (
        subst (Found e w w) (ok-injective (rw b at h)) (
          unfold make_task_using_processed_event in
          record { own_id = refl; own_event = refl; same_third = refl; same_idem = refl; inv = v }))
  ]

  find_handler-ok :
      (k : String) (o : Option (DeliveryHandler D)) (w : World I R L D) (handle : DeliveryHandler D)
      → (find_handler k o w).0 ≡ ok handle
      → (o ≡ some handle) × ((find_handler k o w).1 ≡ w)
  unfolding find_handler
  find_handler-ok k none w handle h = cc
  find_handler-ok k (some x) w handle h = (ap some (ok-injective h), refl)

  upsert_task_and_save_idempotency-ok :
      (t : Task) (w : World I R L D)
      → (upsert_task_and_save_idempotency s now t w).0 ≡ ok tt
      → let w' = (upsert_task_and_save_idempotency s now t w).1 in
        (w'.third ≡ w.third)
        × ((j : String)
            → status s now store w' j
              ≡ (if str_eq t.id j then t.delivery_status else status s now store w j))
        × (tasks.Inv w.repo → tasks.Inv w'.repo)
  unfolding upsert_task_and_save_idempotency
  upsert_task_and_save_idempotency-ok t w h =
      let upsert : Exec (World I R L D) (Unit {0}) =
        on_repo (s.repository.upsert_task_with_context t.id (upsert_request t now)) in
      let (_, _, saved, ran) = and_then-eq-ok (upsert w) _ tt h in
      rw ran (
        refl,
        λ j. store.save_view t.id j t.delivery_status w.idem saved,
        λ v. tasks.upsert_keeps t.id (upsert_request t now) w.repo v,
      )

  -- What `deliver_by` has done when it returns no error.
  pub record HasSent (task : Task) (handle : DeliveryHandler D) (w w' : World I R L D)
      : Type 0 where
    pub response : DeliveryTaskResponse
    pub sent : (handle task w.third).0 ≡ ok response
    pub third : w'.third ≡ (handle task w.third).1
    pub stored :
        (j : String)
        → status s now store w' j
          ≡ (if str_eq task.id j then response.delivery_status else status s now store w j)
    pub inv : tasks.Inv w.repo → tasks.Inv w'.repo

  deliver_by-HasSent :
      (task : Task) (handle : DeliveryHandler D) (w : World I R L D)
      → (deliver_by s now task handle w).0 ≡ ok tt
      → HasSent task handle w (deliver_by s now task handle w).1
  unfolding deliver_by
  deliver_by-HasSent task handle w h =
      let send : Exec (World I R L D) DeliveryTaskResponse = on_third (handle task) in
      let (response, sent, h1, ran1) = and_then-eq-ok (send w) _ tt h in
      let w1 : World I R L D = record w { third = (handle task w.third).1 } in
      let named : Exec (World I R L D) String = or_panic (to_string response.delivery_status) in
      let (name, is_named, h2, ran2) = and_then-eq-ok (named w1) _ tt h1 in
      let done =
        upsert_task_and_save_idempotency-ok (with_response task response) (named w1).1 h2 in
      let same = or_panic-state (to_string response.delivery_status) w1 in
      rw (ran1, ran2)
        (record {
          response = response;
          sent = sent;
          third = done.0 ∙ ap (λ (v : World I R L D). v.third) same;
          stored = λ j.
              done.1 j
              ∙ ap
                  (λ v.
                    if str_eq task.id j then response.delivery_status else status s now store v j)
                  same;
          inv = λ v. done.2 (rw same v);
        })

  pub deliver-ok :
      (task : Task) (w : World I R L D)
      → (deliver s now task w).0 ≡ ok tt
      → (handle : DeliveryHandler D) × (lookup (destination_slug task) s.mapper ≡ some handle)
        × HasSent task handle w (deliver s now task w).1
  unfolding deliver
  deliver-ok task w h =
      let slug = destination_slug task in
      let (handle, p, h1, ran) =
        and_then-eq-ok (find_handler slug (lookup slug s.mapper) w) _ tt h in
      let (registered, same) = find_handler-ok slug (lookup slug s.mapper) w handle p in
      (handle, registered, rw (ran, same) (deliver_by-HasSent task handle w (rw same at h1)))
