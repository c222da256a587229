-- ===== src/TaskService/Overlap/Finished.antt =====
-- What the worker's calls that have come to their end have done.
use ormus.Prelude.{
  ℕ, ◌+◌, ◌≤◌, ◌<◌, String, ◌≡◌, refl, sym, ap, ◌∙◌, inl, none, Bool, true, false, ◌&&◌, List, [],
  ◌∷◌, arith, str_eq, eq_iff,
}
use ormus.Prelude.TakeAt.{All}
use ormus.TaskStore.{Idempotency, IsIdempotencyStore, Saves, Reads}
use ormus.TaskService.{Locker}
use ormus.TaskService.Exactly.{count, matches, sends_for}
use ormus.TaskService.Overlap.{
  Phase, idle, calling, reading, finding, sending, storing, saving, leaving, finished, Worker, key,
  Event, advance, lapse, tick, step, run,
}
use ormus.TaskService.Overlap.Cases.{turn-cases}
use ormus.TaskService.Overlap.Exclusion.{IsIdle}
use ormus.TaskService.Overlap.Turns.{W, Sys, service}
use ormus.TaskService.Overlap.Once.{NoLapse, run-Safe, idle-Safe, overlap_exactly_once}
use ormus.TaskService.Overlap.Served.{Served, Serving, status, Asks, event-put, advance-Serving}

module _ {I L : Type 0} (store : Idempotency I) (laws : IsIdempotencyStore store)
    (saves : Saves store) (reads : Reads store) (locker : Locker L) (ttl now lease : ℕ) where
  -- The time that passes.
  abbrev pub elapsed : List Event → ℕ
  elapsed [] = 0
  elapsed (advance i ∷ es) = elapsed es
  elapsed (lapse i ∷ es) = elapsed es
  elapsed (tick n ∷ es) = n + elapsed es

  run-Serving :
      (es : List Event) (until : ℕ) (sys : (Sys store laws saves locker ttl now lease))
      → NoLapse store laws saves locker ttl now lease es
      → sys.clock + elapsed es < until
      → Serving store laws saves reads locker ttl now lease until sys
      → Serving store laws saves reads locker ttl now lease until
          (run (service store laws saves locker ttl now lease) now lease es sys)
  unfolding run
  run-Serving [] until sys n early v = v
  run-Serving (advance i ∷ es) until sys n early v =
      run-Serving es until _ n (unfold step in early)
        (advance-Serving store laws saves reads locker ttl now lease i until sys (omega arith) v)
  run-Serving (lapse i ∷ es) until sys n early v = absurd n
  run-Serving (tick m ∷ es) until sys n early v =
      run-Serving es until _ n (unfold step in omega arith) (
        unfold step in
        record {
          safe =
              unfold step in
              run-Safe store laws saves locker ttl now lease (tick m ∷ []) sys tt v.safe;
          soon = let before = v.soon in omega arith;
          times = v.times;
          served = v.served;
          asked = v.asked;
        })

  run-event :
      (es : List Event) (sys : (Sys store laws saves locker ttl now lease)) (j : ℕ)
      → NoLapse store laws saves locker ttl now lease es
      → ((run (service store laws saves locker ttl now lease) now lease es sys).worker j).event
        ≡ (sys.worker j).event
  unfolding run step
  run-event [] sys j n = refl
  run-event (advance i ∷ es) sys j n =
      let w = sys.worker i in
      let (e, o) =
        turn-cases (service store laws saves locker ttl now lease) now lease i w w.phase sys refl in
      run-event es _ j n ∙ event-put store laws saves reads locker ttl now lease i _ sys.worker j e
  run-event (lapse i ∷ es) sys j n = absurd n
  run-event (tick m ∷ es) sys j n = run-event es _ j n

  Served-finished :
      (v : (W store laws saves locker ttl now lease)) (w : Worker) (p : Phase)
      → p ≡ finished
      → Served store laws saves reads locker ttl now lease v w p
      → matches w.event ≡ true
      → status store laws saves reads locker ttl now lease v (key w) ≡ 4
  Served-finished v w finished e s m = s m
  Served-finished v w leaving e s m = s m
  Served-finished v w idle e s m = cc
  Served-finished v w calling e s m = cc
  Served-finished v w reading e s m = cc
  Served-finished v w (finding t) e s m = cc
  Served-finished v w (sending t) e s m = cc
  Served-finished v w (storing t) e s m = cc
  Served-finished v w (saving t) e s m = cc

  count-none :
      (workers : ℕ → Worker) (k : String) (xs : List String)
      → ((i : ℕ) → sends_for k (workers i).event ≡ false)
      → All (Asks store laws saves reads locker ttl now lease workers) xs
      → count k xs ≡ 0
  count-none workers k [] h a = refl
  count-none workers k (x ∷ xs) h ((i, e, m), rest) =
      let no : str_eq x k ≡ false =
        sym (ap (λ y. str_eq y k) e)
        ∙ sym (ap (λ (b : Bool). b && str_eq (key (workers i)) k) m)
        ∙ h i in
      rw no (count-none workers k xs h rest)

  -- Over a store of the statuses that keeps its contract, answers its reads and saves what is done,
  -- however many calls overlap and in whatever order their turns interleave, while no lease runs out
  -- and less time passes in all than a lock is held for, from workers that are idle, no task begun,
  -- no deliveries and free keys on: no task reaches the third party twice; one that a call asked for
  -- which has come to its end, for a webhook, has reached it exactly once; and one that no call asks
  -- for has not.
  pub overlap_served :
      (sys : (Sys store laws saves locker ttl now lease)) (es : List Event) (k : String)
      → IsIdle (service store laws saves locker ttl now lease) now lease sys
      → ((j : String) → laws.view sys.world.idem j ≡ 1)
      → sys.world.third ≡ []
      → ((j : String) → sys.owner j ≡ none)
      → NoLapse store laws saves locker ttl now lease es
      → elapsed es < lease
      → let t = run (service store laws saves locker ttl now lease) now lease es sys in
        (count k t.world.third ≤ 1)
        × ((i : ℕ)
            → (t.worker i).phase ≡ finished
            → sends_for k (sys.worker i).event ≡ true
            → count k t.world.third ≡ 1)
        × (((i : ℕ) → sends_for k (sys.worker i).event ≡ false) → count k t.world.third ≡ 0)
  overlap_served sys es k h fresh unsent free n early =
      let start : Serving store laws saves reads locker ttl now lease (sys.clock + lease) sys =
        record {
          safe = idle-Safe store laws saves locker ttl now lease sys h fresh unsent free;
          soon = omega arith;
          times = λ i. inl (h i).0;
          served = λ i. rw ((h i).0) tt;
          asked = rw unsent tt;
        } in
      let v = run-Serving es (sys.clock + lease) sys n (omega arith) start in
      let t = run (service store laws saves locker ttl now lease) now lease es sys in
      let (most, stored, others) =
        overlap_exactly_once store laws saves locker ttl now lease sys es k h fresh unsent free n in
      (
        most,
        λ i done asks.
            let same = run-event es sys i n in
            let asks' : sends_for k (t.worker i).event ≡ true = ap (sends_for k) same ∙ asks in
            let own : key (t.worker i) ≡ k = ground (arith, asks', eq_iff (key (t.worker i)) k) in
            let is_webhook : matches (t.worker i).event ≡ true = ground (arith, asks') in
            stored (
              sym (ap (status store laws saves reads locker ttl now lease t.world) own)
              ∙ Served-finished t.world (t.worker i) (t.worker i).phase done (v.served i)
                  is_webhook),
        λ none_asks.
            count-none t.worker k t.world.third
              (λ i. ap (sends_for k) (run-event es sys i n) ∙ none_asks i) v.asked,
      )
