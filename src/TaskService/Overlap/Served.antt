-- ===== src/TaskService/Overlap/Served.antt =====
-- What the calls of the worker have done when they are finished, over a store that answers and within
-- the time of a lock.
use ormus.Prelude.{
  ℕ, ◌+◌, ◌≤◌, ◌<◌, String, ◌≡◌, refl, sym, ap, ◌∙◌, ◌⊎◌, inl, inr, Bool, true, List, ◌∷◌, arith,
  str_eq, ltb, Bool-cases, Option-cases, if◌then◌else◌, ◌==◌, ok, eq_refl,
}
use ormus.Prelude.TakeAt.{All, All-map}
use ormus.Event.{id, webhook_destination_type, destination_type}
use ormus.Task.{can_be_executed, to_string, make_task_using_processed_event, destination_slug}
use ormus.TaskStore.{Idempotency, IsIdempotencyStore, Saves, Reads}
use ormus.TaskStore.Memory as Memory
use ormus.TaskStore.Memory.{RepoDb}
use ormus.TaskService.{Locker, get_task_status_by_id}
use ormus.TaskService.Once.{get_status-Same, get_status-value}
use ormus.TaskService.Exactly.{matches}
use ormus.TaskService.Overlap.{
  Phase, idle, calling, reading, finding, sending, storing, saving, leaving, finished, Worker, Turn,
  key, is_owner, turn, put, advance, step,
}
use ormus.TaskService.Overlap.Cases.{eq_of, turn-cases}
use ormus.TaskService.Overlap.Turns.{
  W, Sys, service, status_of, Sound, Effect, turn-Effect, get_task-new, send-fake,
}
use ormus.TaskService.Overlap.Flight.{Safe}
use ormus.TaskService.Overlap.Once.{advance-Safe}

module _ {I L : Type 0} (store : Idempotency I) (laws : IsIdempotencyStore store)
    (saves : Saves store) (reads : Reads store) (locker : Locker L) (ttl now lease : ℕ) where
  abbrev World' : Type 0
  World' = W store laws saves locker ttl now lease

  abbrev Sys' : Type 0
  Sys' = Sys store laws saves locker ttl now lease

  abbrev pub status : World' → String → ℕ
  status = status_of store laws saves locker ttl now lease

  -- A task that a call is past, for a webhook, is stored as done.
  abbrev pub Served : World' → Worker → Phase → Type 0
  Served v w (sending t) = destination_slug t ≡ destination_type w.event
  Served v w leaving = matches w.event ≡ true → status v (key w) ≡ 4
  Served v w finished = matches w.event ≡ true → status v (key w) ≡ 4
  Served v w _ = Unit

  -- What reaches the third party is the worker's own task, for a webhook.
  abbrev pub Delivers : Worker → Sys' → Turn I RepoDb L (List String) → Type 0
  Delivers w sys t =
      (t.world.third ≡ sys.world.third)
      ⊎ ((t.world.third ≡ key w ∷ sys.world.third) × (matches w.event ≡ true))

  -- The service reads a status that the store answers.
  answered :
      (k : String) (v : World')
      → ((j : String) → (status v j ≡ 1) ⊎ (status v j ≡ 4))
      → (t : ℕ) × ((get_task_status_by_id (service store laws saves locker ttl now lease) now k v).0
          ≡ ok t)
  unfolding get_task_status_by_id to_string
  answered k v b =
      let (t, r) = reads k v.idem in
      let value : t ≡ status v k = laws.get_value k v.idem t r in
      elim (b k) [
        | inl one ↦ (1, rw (r, value ∙ one) refl)
        | inr four ↦ (4, rw (r, value ∙ four) refl)
      ]

  turn-Served :
      (i : ℕ) (w : Worker) (p : Phase) (sys : Sys')
      → w.phase ≡ p
      → Sound store laws saves locker ttl now lease sys.world w p
      → ((k : String) → (status sys.world k ≡ 1) ⊎ (status sys.world k ≡ 4))
      → (p ≡ idle) ⊎ (ltb sys.clock w.deadline ≡ true)
      → Served sys.world w p
      → let t = turn (service store laws saves locker ttl now lease) now lease i w p sys in
        Served t.world t.worker t.worker.phase × Delivers w sys t
  unfolding turn
  turn-Served i w idle sys e h b c s = (tt, inl refl)
  turn-Served i w calling sys e h b (inl c) s = cc
  turn-Served i w calling sys e h b (inr c) s = elim (Option-cases (sys.owner (key w))) [
    | inl o ↦ rw (c, o) (tt, inl refl)
    | inr (j, o) ↦ rw (c, o) (rw e tt, inl refl)
  ]
  turn-Served i w reading sys e h b c s =
      let serve = service store laws saves locker ttl now lease in
      let read = get_task_status_by_id serve now (key w) sys.world in
      let same = get_status-Same serve now laws (key w) sys.world in
      let (t, r) = answered (key w) sys.world b in
      let value = get_status-value serve now laws (key w) sys.world t r in
      elim (b (key w)) [
        | inl one ↦ unfold can_be_executed in rw (r, value ∙ one) (tt, inl same.third)
        | inr four ↦
            unfold can_be_executed in
            rw (r, value ∙ four) (λ q. same.statuses (key w) ∙ four, inl same.third)
      ]
  turn-Served i w (finding t) sys e h b c s =
      rw (h.0, get_task-new store laws saves locker ttl now lease w.event sys.world)
        (unfold make_task_using_processed_event destination_slug destination_type in refl, inl refl)
  turn-Served i w (sending t) sys e h b c s =
      elim (Bool-cases (str_eq webhook_destination_type (destination_slug t))) [
        | inl m ↦
            rw (send-fake store laws saves locker ttl now lease t sys.world, m)
              (
                tt,
                inr (
                  ap (λ k. k ∷ sys.world.third) h.0,
                  ap (str_eq webhook_destination_type) (sym s) ∙ m,
                ),
              )
        | inr m ↦
            rw (send-fake store laws saves locker ttl now lease t sys.world, m)
              (λ q. cc (ap (str_eq webhook_destination_type) s, m, q), inl refl)
      ]
  turn-Served i w (storing t) sys e h b c s =
      unfold Memory.upsert_task_with_context in (tt, inl refl)
  turn-Served i w (saving t) sys e h b c s =
      let saved = saves (key w) sys.world.idem in
      rw (h.0, h.1, saved)
        (
          λ q.
              laws.save_view (key w) (key w) 4 sys.world.idem saved
              ∙ ap (λ (x : Bool). if x then 4 else status sys.world (key w)) (eq_refl (key w)),
          inl refl,
        )
  turn-Served i w leaving sys e h b c s = elim (Bool-cases (ltb sys.clock w.deadline)) [
    | inl d ↦ elim (Bool-cases (is_owner i (sys.owner (key w)))) [
      | inl o ↦ rw (d, o) (s, inl refl)
      | inr o ↦ rw (d, o) (s, inl refl)
    ]
    | inr d ↦ rw d (s, inl refl)
  ]
  turn-Served i w finished sys e h b c s = (rw e s, inl refl)

  status-stays :
      (w : Worker) (sys : Sys') (t : Turn I RepoDb L (List String)) (k : String)
      → Effect store laws saves locker ttl now lease w sys t
      → status sys.world k ≡ 4
      → status t.world k ≡ 4
  status-stays w sys t k (inl (d, m, f)) h = m k ∙ h
  status-stays w sys t k (inr (inl f)) h = f.1 k ∙ h
  status-stays w sys t k (inr (inr f)) h = rw (f.1 k, h) (ground arith)

  Served-stays :
      (v v' : World') (w : Worker) (p : Phase)
      → (status v (key w) ≡ 4 → status v' (key w) ≡ 4)
      → Served v w p
      → Served v' w p
  Served-stays v v' w idle f s = tt
  Served-stays v v' w calling f s = tt
  Served-stays v v' w reading f s = tt
  Served-stays v v' w (finding t) f s = tt
  Served-stays v v' w (sending t) f s = s
  Served-stays v v' w (storing t) f s = tt
  Served-stays v v' w (saving t) f s = tt
  Served-stays v v' w leaving f s = λ m. f (s m)
  Served-stays v v' w finished f s = λ m. f (s m)

  -- What holds until the time `until`, before which no lock's time is over.
  pub record Serving (until : ℕ) (sys : Sys') : Type 0 where
    pub safe : Safe store laws saves locker ttl now lease sys
    pub soon : until ≤ sys.clock + lease
    pub times : (i : ℕ) → ((sys.worker i).phase ≡ idle) ⊎ (until ≤ (sys.worker i).deadline)
    pub served : (i : ℕ) → Served sys.world (sys.worker i) (sys.worker i).phase
    pub asked :
        All
          (λ x. (i : ℕ) × (key (sys.worker i) ≡ x) × (matches (sys.worker i).event ≡ true))
          sys.world.third

  idle-deadline :
      (i : ℕ) (w : Worker) (p : Phase) (sys : Sys') (until : ℕ)
      → p ≡ idle
      → until ≤ sys.clock + lease
      → until
        ≤ (turn (service store laws saves locker ttl now lease) now lease i w p sys).worker.deadline
  unfolding turn
  idle-deadline i w p sys until e soon = rw e soon

  turn-times :
      (i : ℕ) (w : Worker) (sys : Sys') (until : ℕ)
      → until ≤ sys.clock + lease
      → (w.phase ≡ idle) ⊎ (until ≤ w.deadline)
      → until
        ≤ (turn
            (service store laws saves locker ttl now lease)
            now
            lease
            i
            w
            w.phase
            sys).worker.deadline
  turn-times i w sys until soon (inl e) = idle-deadline i w w.phase sys until e soon
  turn-times i w sys until soon (inr d) =
      let (e, o) =
        turn-cases (service store laws saves locker ttl now lease) now lease i w w.phase sys refl in
      elim o [
        | inl (q, c, inl (l, same)) ↦ rw same d
        | inl (q, c, inr (e', l)) ↦ idle-deadline i w w.phase sys until e' soon
        | inr (inl (f, q, l, same)) ↦ rw same d
        | inr (inr (f, q, g, l, same)) ↦ rw same d
      ]

  pub event-put :
      (i : ℕ) (w : Worker) (workers : ℕ → Worker) (j : ℕ)
      → w.event ≡ (workers i).event
      → (put i w workers j).event ≡ (workers j).event
  event-put i w workers j e = elim (Bool-cases (i == j)) [
    | inl b ↦ rw (b, e, eq_of i j b) refl
    | inr b ↦ rw b refl
  ]

  abbrev pub Asks : (ℕ → Worker) → String → Type 0
  Asks workers x = (i : ℕ) × (key (workers i) ≡ x) × (matches (workers i).event ≡ true)

  Asks-event :
      (v w : ℕ → Worker) (x : String) → ((j : ℕ) → (w j).event ≡ (v j).event) → Asks v x → Asks w x
  Asks-event v w x same (i, k, m) = (i, ap id (same i) ∙ k, ap matches (same i) ∙ m)

  pub advance-Serving :
      (i until : ℕ) (sys : Sys')
      → sys.clock < until
      → Serving until sys
      → Serving until
          (step (service store laws saves locker ttl now lease) now lease (advance i) sys)
  unfolding step
  advance-Serving i until sys early v =
      let serve = service store laws saves locker ttl now lease in
      let w = sys.worker i in
      let t = turn serve now lease i w w.phase sys in
      let (e, o) = turn-cases serve now lease i w w.phase sys refl in
      let (f, h) =
        turn-Effect store laws saves locker ttl now lease i w w.phase sys refl (v.safe.sound i)
          v.safe.begun in
      let timely : (w.phase ≡ idle) ⊎ (ltb sys.clock w.deadline ≡ true) = elim (v.times i) [
        | inl d ↦ inl d
        | inr d ↦ inr (ground arith)
      ] in
      let (s, d) =
        turn-Served i w w.phase sys refl (v.safe.sound i) v.safe.begun timely (v.served i) in
      let before =
        All-map (Asks sys.worker) (Asks (put i t.worker sys.worker))
          (λ x.
            Asks-event sys.worker (put i t.worker sys.worker) x
              (λ j. event-put i t.worker sys.worker j e))
          sys.world.third v.asked in
      let own = event-put i t.worker sys.worker i e in
      record {
        safe = unfold step in advance-Safe store laws saves locker ttl now lease i sys v.safe;
        soon = v.soon;
        times = λ j. elim (Bool-cases (i == j)) [
          | inl b ↦ rw b (inr (turn-times i w sys until v.soon (v.times i)))
          | inr b ↦ rw b (v.times j)
        ];
        served = λ j. elim (Bool-cases (i == j)) [
          | inl b ↦ rw b s
          | inr b ↦ rw b (
              Served-stays sys.world t.world (sys.worker j) (sys.worker j).phase
                (status-stays w sys t (key (sys.worker j)) f) (v.served j))
        ];
        asked = elim d [
          | inl q ↦ rw q before
          | inr (q, m) ↦ rw q ((i, ap id own, ap matches own ∙ m), before)
        ];
      }
