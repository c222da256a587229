-- ===== src/TaskService/Exactly/Tally.antt =====
-- The worker's service over the repository in memory and the fake handler: the deliveries that a
-- sequence of events makes, counted.
use ormus.Prelude.{
  ℕ, String, ◌≡◌, ◌≤◌, refl, ap, ◌∙◌, ◌⊎◌, inl, inr, true, ◌&&◌, ◌||◌, List, [], ◌∷◌, Table, Exec,
  arith, if◌then◌else◌, str_eq, ◌==◌, eq_iff,
}
use ormus.Event.{ProcessedEvent, id}
use ormus.Task.{IntegrationDeliveryStatus, can_be_executed}
use ormus.TaskStore.{Idempotency, IsIdempotencyStore, Saves, Reads}
use ormus.TaskStore.Memory.{RepoDb}
use ormus.TaskService.Once.{SameDeliveries, handle_task-Same}
use ormus.TaskService.{World, Locker, handle_task}
use ormus.TaskService.Exactly.{
  count, requested, sends_for, fake_service, handle_all, start, status, Locks, handle_task-Begins,
}

module _ {I L : Type 0} (store : Idempotency I) (locker : Locker L) (ttl now : ℕ)
    (laws : IsIdempotencyStore store) (saves : Saves store) where
  abbrev Worker : Type 0
  Worker = World I RepoDb L (List String)

  abbrev state : Worker → String → IntegrationDeliveryStatus
  state = status store locker ttl now laws saves

  abbrev handle : Table String → ProcessedEvent → Exec Worker (Unit {0})
  handle = handle_task (fake_service store locker ttl now) now

  abbrev all : List (Table String × ProcessedEvent) → Worker → Worker
  all = handle_all store locker ttl now

  -- Under the tally each status is that of a task not begun or done, and a task that is done was
  -- sent once, any other not at all.
  record Tally (w : Worker) : Type 0 where
    begun : (k : String) → (state w k ≡ 1) ⊎ (state w k ≡ 4)
    sent : (k : String) → count k w.third ≡ (if state w k == 4 then 1 else 0)

  done-Same :
      (c : Table String) (e : ProcessedEvent) (w : Worker)
      → state w (id e) ≡ 4
      → SameDeliveries (fake_service store locker ttl now) now laws w (handle c e w).1
  unfolding can_be_executed
  done-Same c e w h = handle_task-Same (fake_service store locker ttl now) now laws c e w (rw h)

  handle_task-Tally :
      (c : Table String) (e : ProcessedEvent) (w : Worker) → Tally w → Tally (handle c e w).1
  handle_task-Tally c e w t = elim (t.begun (id e)) [
    | inl new ↦
        let ((fired, f, m), exact) = handle_task-Begins store locker ttl now laws saves c e w new in
        record {
          begun = λ k. rw (f.statuses k) (ground (arith, t.begun k));
          sent = λ k.
              rw (f.third, f.statuses k) (ground (arith, t.sent k, t.begun k, eq_iff (id e) k));
        }
    | inr old ↦
        let same = done-Same c e w old in
        record {
          begun = λ k. rw (same.statuses k) (t.begun k);
          sent = λ k. rw (same.third, same.statuses k) (t.sent k);
        }
  ]

  handle_task-done :
      (c : Table String) (e : ProcessedEvent) (w : Worker) (k : String)
      → Tally w
      → state (handle c e w).1 k ≡ 4
      → (sends_for k e || state w k == 4) ≡ true
  handle_task-done c e w k t h = elim (t.begun (id e)) [
    | inl new ↦
        let ((fired, f, m), exact) = handle_task-Begins store locker ttl now laws saves c e w new in
        ground (arith, f.statuses k, m)
    | inr old ↦ ground (arith, (done-Same c e w old).statuses k)
  ]

  handle_task-statuses :
      (c : Table String) (e : ProcessedEvent) (w : Worker)
      → Locks locker ttl
      → Reads store
      → Tally w
      → (k : String) → state (handle c e w).1 k ≡ (if sends_for k e then 4 else state w k)
  handle_task-statuses c e w locks reads t k = elim (t.begun (id e)) [
    | inl new ↦
        let ((fired, f, m), exact) = handle_task-Begins store locker ttl now laws saves c e w new in
        f.statuses k ∙ ap (λ b. if b && str_eq (id e) k then 4 else state w k) (exact locks reads)
    | inr old ↦ ground (arith, (done-Same c e w old).statuses k, eq_iff (id e) k)
  ]

  handle_all-Tally :
      (es : List (Table String × ProcessedEvent)) (w : Worker) → Tally w → Tally (all es w)
  unfolding handle_all
  handle_all-Tally [] w t = t
  handle_all-Tally ((c, e) ∷ es) w t = handle_all-Tally es _ (handle_task-Tally c e w t)

  handle_all-done :
      (es : List (Table String × ProcessedEvent)) (w : Worker) (k : String)
      → Tally w
      → state (all es w) k ≡ 4
      → (requested k es || state w k == 4) ≡ true
  unfolding handle_all
  handle_all-done [] w k t h = ground arith
  handle_all-done ((c, e) ∷ es) w k t h =
      let w' = (handle c e w).1 in
      ground
        (arith, handle_all-done es w' k (handle_task-Tally c e w t) h, handle_task-done c e w k t)

  handle_all-statuses :
      (es : List (Table String × ProcessedEvent)) (w : Worker)
      → Locks locker ttl
      → Reads store
      → Tally w
      → (k : String) → state (all es w) k ≡ (if requested k es then 4 else state w k)
  unfolding handle_all
  handle_all-statuses [] w locks reads t k = refl
  handle_all-statuses ((c, e) ∷ es) w locks reads t k =
      let w' = (handle c e w).1 in
      ground (
        arith,
        handle_all-statuses es w' locks reads (handle_task-Tally c e w t) k,
        handle_task-statuses c e w locks reads t k,
      )

  begin : (i : I) (r : RepoDb) (l : L) → ((k : String) → laws.view i k ≡ 1) → Tally (start i r l)
  begin i r l fresh = record { begun = λ k. inl (fresh k); sent = λ k. rw (fresh k) refl }

  -- For any store of the statuses that keeps its contract and saves what is done, and whatever the
  -- locks and the reads come to: from a store in which no task is begun, after any events in any
  -- order and with any repetition, one call after the other, a task has reached the third party at
  -- most once, and not at all if none of the events has its ID and is for a webhook.
  pub handle_all_at_most_once :
      (es : List (Table String × ProcessedEvent)) (i : I) (r : RepoDb) (l : L) (k : String)
      → ((j : String) → laws.view i j ≡ 1)
      → count k (handle_all store locker ttl now es (start i r l)).third
        ≤ (if requested k es then 1 else 0)
  handle_all_at_most_once es i r l k fresh =
      let t = begin i r l fresh in
      ground (
        arith,
        (handle_all-Tally es (start i r l) t).sent k,
        handle_all-done es (start i r l) k t,
        fresh k,
      )

  -- Of the events one after the other, where moreover every lock is granted and every read succeeds, a task has reached the third party
  -- exactly once if one of the events has its ID and is for a webhook, and not at all if none is.
  handle_all_exactly_once :
      (es : List (Table String × ProcessedEvent)) (i : I) (r : RepoDb) (l : L) (k : String)
      → ((j : String) → laws.view i j ≡ 1)
      → Locks locker ttl
      → Reads store
      → count k (handle_all store locker ttl now es (start i r l)).third
        ≡ (if requested k es then 1 else 0)
  handle_all_exactly_once es i r l k fresh locks reads =
      let t = begin i r l fresh in
      ground (
        arith,
        (handle_all-Tally es (start i r l) t).sent k,
        handle_all-statuses es (start i r l) locks reads t k,
        fresh k,
      )
