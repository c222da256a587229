-- ===== src/TaskService/Overlap/Turns.antt =====
-- What each turn of a call does, over any store of the statuses that keeps its contract, the
-- repository in memory and the fake handler.
use ormus.Prelude.{
  ℕ, String, ◌≡◌, refl, ◌⊎◌, inl, inr, Option, none, some, Bool, true, false, ◌&&◌, List, ◌∷◌,
  str_eq, ltb, Bool-cases, Option-cases, Outcome-cases, ◌∙◌, if◌then◌else◌, lookup, insert, ok, err,
}
use ormus.Event.{ProcessedEvent, webhook_destination_type}
use ormus.Task.{
  Task, can_be_executed, is_broadcast, to_string, make_task_using_processed_event, destination_slug,
}
use ormus.TaskStore.Memory as Memory
use ormus.TaskStore.{Idempotency, IsIdempotencyStore, Saves}
use ormus.TaskStore.Memory.{RepoDb}
use ormus.Delivery.{fake_handle, register}
use ormus.TaskService.{
  World, Service, Locker, get_task_status_by_id, get_task, find_handler, with_response, unsupported,
}
use ormus.TaskService.Once.{get_status-Same, get_status-value}
use ormus.TaskService.Exactly.{fake_service, fake_response}
use ormus.TaskService.Overlap.{
  Phase, idle, calling, reading, finding, sending, storing, saving, leaving, finished, Worker,
  System, Turn, key, is_owner, send, turn,
}
use ormus.TaskService.Overlap.Cases.{is_critical}

-- Delivered, and not yet in the idempotency store.
abbrev pub in_flight : Phase → Bool
in_flight (storing t) = true
in_flight (saving t) = true
in_flight _ = false

abbrev pub counted : (ℕ → Worker) → String → Option ℕ → ℕ
counted workers k none = 0
counted workers k (some i) =
    if in_flight (workers i).phase && str_eq (key (workers i)) k then 1 else 0

module _ {I L : Type 0} (store : Idempotency I) (laws : IsIdempotencyStore store)
    (saves : Saves store) (locker : Locker L) (ttl now lease : ℕ) where
  abbrev pub W : Type 0
  W = World I RepoDb L (List String)

  abbrev pub Sys : Type 0
  Sys = System I RepoDb L (List String)

  abbrev pub service : Service I RepoDb L (List String)
  service = fake_service store locker ttl now

  abbrev pub status_of : W → String → ℕ
  status_of w k = laws.view w.idem k

  abbrev pub flight : Sys → String → ℕ
  flight sys k = counted sys.worker k (sys.owner k)

  -- What a phase knows of its task.
  abbrev pub Sound : W → Worker → Phase → Type 0
  Sound v w (finding t) = (t ≡ 1) × (status_of v (key w) ≡ 1)
  Sound v w (sending t) = (t.id ≡ key w) × (status_of v (key w) ≡ 1)
  Sound v w (storing t) = (t.id ≡ key w) × (t.delivery_status ≡ 4) × (status_of v (key w) ≡ 1)
  Sound v w (saving t) = (t.id ≡ key w) × (t.delivery_status ≡ 4) × (status_of v (key w) ≡ 1)
  Sound v w _ = Unit

  abbrev pub Quiet : Worker → Sys → Turn I RepoDb L (List String) → Type 0
  Quiet w sys t =
      (t.world.third ≡ sys.world.third)
      × ((k : String) → status_of t.world k ≡ status_of sys.world k)
      × (in_flight t.worker.phase ≡ in_flight w.phase)

  abbrev pub Sends : Worker → Sys → Turn I RepoDb L (List String) → Type 0
  Sends w sys t =
      (t.world.third ≡ key w ∷ sys.world.third)
      × ((k : String) → status_of t.world k ≡ status_of sys.world k)
      × (t.owner ≡ sys.owner)
      × (is_critical w.phase ≡ true)
      × (status_of sys.world (key w) ≡ 1)
      × (in_flight w.phase ≡ false)
      × (in_flight t.worker.phase ≡ true)

  abbrev pub Marks : Worker → Sys → Turn I RepoDb L (List String) → Type 0
  Marks w sys t =
      (t.world.third ≡ sys.world.third)
      × ((k : String)
          → status_of t.world k ≡ (if str_eq (key w) k then 4 else status_of sys.world k))
      × (t.owner ≡ sys.owner)
      × (is_critical w.phase ≡ true)
      × (status_of sys.world (key w) ≡ 1)
      × (in_flight w.phase ≡ true)
      × (in_flight t.worker.phase ≡ false)

  abbrev pub Effect : Worker → Sys → Turn I RepoDb L (List String) → Type 0
  Effect w sys t = Quiet w sys t ⊎ Sends w sys t ⊎ Marks w sys t

  pub get_task-new :
      (e : ProcessedEvent) (v : W)
      → get_task service now e 1 v ≡ (ok (make_task_using_processed_event e), v)
  unfolding get_task is_broadcast
  get_task-new e v = refl

  pub send-fake :
      (t : Task) (v : W)
      → send service now lease t v ≡ (
          if str_eq webhook_destination_type (destination_slug t)
          then (ok (with_response t fake_response), record v { third = t.id ∷ v.third })
          else (err (unsupported (destination_slug t)), v))
  unfolding find_handler fake_handle register insert lookup to_string
  send-fake t v = elim (Bool-cases (str_eq webhook_destination_type (destination_slug t))) [
    | inl m ↦ rw m refl
    | inr m ↦ rw m refl
  ]

  pub turn-Effect :
      (i : ℕ) (w : Worker) (p : Phase) (sys : Sys)
      → w.phase ≡ p
      → Sound sys.world w p
      → ((k : String) → (status_of sys.world k ≡ 1) ⊎ (status_of sys.world k ≡ 4))
      → let t = turn service now lease i w p sys in
        Effect w sys t × Sound t.world t.worker t.worker.phase
  unfolding turn
  turn-Effect i w idle sys e h b = (inl (refl, (λ k. refl), rw e refl), tt)
  turn-Effect i w calling sys e h b = elim (Bool-cases (ltb sys.clock w.deadline)) [
    | inl c ↦ elim (Option-cases (sys.owner (key w))) [
      | inl o ↦ rw (c, o) (inl (refl, (λ k. refl), rw e refl), tt)
      | inr (j, o) ↦ rw (c, o) (inl (refl, (λ k. refl), refl), rw e tt)
    ]
    | inr c ↦ rw c (inl (refl, (λ k. refl), rw e refl), tt)
  ]
  turn-Effect i w reading sys e h b =
      let read = get_task_status_by_id service now (key w) sys.world in
      let same = get_status-Same service now laws (key w) sys.world in
      elim (Outcome-cases read.0) [
        | inl (t, r) ↦
            let value = get_status-value service now laws (key w) sys.world t r in
            elim (b (key w)) [
              | inl one ↦
                  unfold can_be_executed in
                  rw (r, value ∙ one)
                    (
                      inl (same.third, same.statuses, rw e refl),
                      (refl, same.statuses (key w) ∙ one),
                    )
              | inr four ↦
                  unfold can_be_executed in
                  rw (r, value ∙ four) (inl (same.third, same.statuses, rw e refl), tt)
            ]
        | inr (inl (x, r)) ↦ rw r (inl (same.third, same.statuses, rw e refl), tt)
        | inr (inr r) ↦ rw r (inl (same.third, same.statuses, rw e refl), tt)
      ]
  turn-Effect i w (finding t) sys e h b =
      rw (h.0, get_task-new w.event sys.world)
        (inl (refl, (λ k. refl), rw e refl), (unfold make_task_using_processed_event in refl, h.1))
  turn-Effect i w (sending t) sys e h b =
      elim (Bool-cases (str_eq webhook_destination_type (destination_slug t))) [
        | inl m ↦
            rw (send-fake t sys.world, m)
              (
                inr (inl (rw h.0 refl, (λ k. refl), refl, rw e refl, h.1, rw e refl, refl)),
                (h.0, refl, h.1),
              )
        | inr m ↦ rw (send-fake t sys.world, m) (inl (refl, (λ k. refl), rw e refl), tt)
      ]
  turn-Effect i w (storing t) sys e h b =
      unfold Memory.upsert_task_with_context in (inl (refl, (λ k. refl), rw e refl), h)
  turn-Effect i w (saving t) sys e h b =
      let saved = saves (key w) sys.world.idem in
      rw (h.0, h.1, saved)
        (
          inr (
              inr (
                refl,
                λ k. laws.save_view (key w) k 4 sys.world.idem saved,
                refl,
                rw e refl,
                h.2,
                rw e refl,
                refl,
              )),
          tt,
        )
  turn-Effect i w leaving sys e h b = elim (Bool-cases (ltb sys.clock w.deadline)) [
    | inl c ↦ elim (Bool-cases (is_owner i (sys.owner (key w)))) [
      | inl o ↦ rw (c, o) (inl (refl, (λ k. refl), rw e refl), tt)
      | inr o ↦ rw (c, o) (inl (refl, (λ k. refl), rw e refl), tt)
    ]
    | inr c ↦ rw c (inl (refl, (λ k. refl), rw e refl), tt)
  ]
  turn-Effect i w finished sys e h b = (inl (refl, (λ k. refl), refl), rw e tt)
