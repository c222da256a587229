-- ===== src/TaskService/Overlap/Once.antt =====
-- Overlapping calls over any store of the statuses that keeps its contract, the repository in memory
-- and the fake handler, while no lease runs out.
use ormus.Prelude.{
  ℕ, ◌≤◌, String, ◌≡◌, refl, sym, ◌∙◌, inl, inr, none, List, [], ◌∷◌, arith, ◌==◌, Bool-cases,
  lookup,
}
use ormus.TaskStore.{Idempotency, IsIdempotencyStore, Saves}
use ormus.TaskService.{Locker}
use ormus.TaskService.Exactly.{count}
use ormus.Prelude.TakeAt.{All, All-map}
use ormus.TaskService.Overlap.{key, Event, advance, lapse, tick, turn, step, run}
use ormus.TaskService.Overlap.Exclusion as Exclusion
use ormus.TaskService.Overlap.Cases.{turn-cases}
use ormus.TaskService.Overlap.Exclusion.{IsIdle, IsIdle-Inv}
use ormus.TaskService.Overlap.Turns.{Sys, service, status_of, turn-Effect}
use ormus.TaskService.Overlap.Flight.{Safe, Sound-change, counted-status}
use ormus.TaskService.Overlap.Applied.{
  apply-begun, other-status, apply-sent, own-alive, put-key, apply-asked,
}

module _ {I L : Type 0} (store : Idempotency I) (laws : IsIdempotencyStore store)
    (saves : Saves store) (locker : Locker L) (ttl now lease : ℕ) where
  pub advance-Safe :
      (i : ℕ) (sys : Sys store laws saves locker ttl now lease)
      → Safe store laws saves locker ttl now lease sys
      → Safe store laws saves locker ttl now lease
          (step (service store laws saves locker ttl now lease) now lease (advance i) sys)
  unfolding step
  advance-Safe i sys v =
      let w = sys.worker i in
      let t = turn (service store laws saves locker ttl now lease) now lease i w w.phase sys in
      let (e, o) =
        turn-cases (service store laws saves locker ttl now lease) now lease i w w.phase sys refl in
      let (f, h) =
        turn-Effect store laws saves locker ttl now lease i w w.phase sys refl (v.sound i)
          v.begun in
      record {
        excl =
            unfold step in
            Exclusion.step-Inv (service store laws saves locker ttl now lease) now lease (advance i)
              sys v.excl;
        alive = λ j. elim (Bool-cases (i == j)) [
          | inl b ↦ rw b (own-alive store laws saves locker ttl now lease i sys t o (v.alive i))
          | inr b ↦ rw b (v.alive j)
        ];
        begun = apply-begun store laws saves locker ttl now lease i sys t f v;
        sound = λ j. elim (Bool-cases (i == j)) [
          | inl b ↦ rw b h
          | inr b ↦ rw b (
              Sound-change store laws saves locker ttl now lease sys.world t.world (sys.worker j)
                (sys.worker j).phase
                (other-status store laws saves locker ttl now lease i j sys t f v b) (v.sound j))
        ];
        sent = λ k. apply-sent store laws saves locker ttl now lease i sys t k e o f (v.sound i) v;
        asked = apply-asked store laws saves locker ttl now lease i sys t e f v;
      }

  abbrev pub NoLapse : List Event → Type 0
  NoLapse [] = Unit
  NoLapse (advance i ∷ es) = NoLapse es
  NoLapse (lapse i ∷ es) = ⊥
  NoLapse (tick n ∷ es) = NoLapse es

  pub run-Safe :
      (es : List Event) (sys : Sys store laws saves locker ttl now lease)
      → NoLapse es
      → Safe store laws saves locker ttl now lease sys
      → Safe store laws saves locker ttl now lease
          (run (service store laws saves locker ttl now lease) now lease es sys)
  unfolding run
  run-Safe [] sys n v = v
  run-Safe (advance i ∷ es) sys n v = run-Safe es _ n (advance-Safe i sys v)
  run-Safe (lapse i ∷ es) sys n v = absurd n
  run-Safe (tick m ∷ es) sys n v = run-Safe es _ n (
      unfold step in
      record {
        excl =
            unfold step in
            Exclusion.step-Inv (service store laws saves locker ttl now lease) now lease (tick m)
              sys v.excl;
        alive = v.alive;
        begun = v.begun;
        sound = v.sound;
        sent = v.sent;
        asked = v.asked;
      })

  run-key :
      (es : List Event) (sys : Sys store laws saves locker ttl now lease) (j : ℕ)
      → NoLapse es
      → key ((run (service store laws saves locker ttl now lease) now lease es sys).worker j)
        ≡ key (sys.worker j)
  unfolding run step
  run-key [] sys j n = refl
  run-key (advance i ∷ es) sys j n =
      let w = sys.worker i in
      let (e, o) =
        turn-cases (service store laws saves locker ttl now lease) now lease i w w.phase sys refl in
      run-key es _ j n ∙ put-key store laws saves locker ttl now lease i _ sys.worker j e
  run-key (lapse i ∷ es) sys j n = absurd n
  run-key (tick m ∷ es) sys j n = run-key es _ j n

  pub idle-Safe :
      (sys : Sys store laws saves locker ttl now lease)
      → IsIdle (service store laws saves locker ttl now lease) now lease sys
      → ((j : String) → laws.view sys.world.idem j ≡ 1)
      → sys.world.third ≡ []
      → ((j : String) → sys.owner j ≡ none)
      → Safe store laws saves locker ttl now lease sys
  idle-Safe sys h fresh unsent free = record {
    excl = IsIdle-Inv (service store laws saves locker ttl now lease) now lease sys h;
    alive = λ i. (h i).1;
    begun = λ j. inl (fresh j);
    sound = λ i. rw ((h i).0) tt;
    sent = λ j. rw (fresh j, unsent, free j) refl;
    asked = rw unsent tt;
  }

  -- Over any store of the statuses that keeps its contract and saves what is done, whatever its
  -- reads come to: however many calls overlap, in whatever order their turns interleave and time
  -- passes, while no lease runs out, from workers that are idle, no task begun, no deliveries and
  -- free keys on, no task reaches the third party twice, and each task that is stored as done has
  -- reached it; and what has reached the third party is the task of one of the workers.
  pub overlap_exactly_once :
      (sys : Sys store laws saves locker ttl now lease) (es : List Event) (k : String)
      → IsIdle (service store laws saves locker ttl now lease) now lease sys
      → ((j : String) → laws.view sys.world.idem j ≡ 1)
      → sys.world.third ≡ []
      → ((j : String) → sys.owner j ≡ none)
      → NoLapse es
      → let t = run (service store laws saves locker ttl now lease) now lease es sys in
        (count k t.world.third ≤ 1)
        × (status_of store laws saves locker ttl now lease t.world k ≡ 4
            → count k t.world.third ≡ 1)
        × All (λ x. (i : ℕ) × (key (sys.worker i) ≡ x)) t.world.third
  unfolding lookup
  overlap_exactly_once sys es k h fresh unsent free n =
      let start = idle-Safe sys h fresh unsent free in
      let v = run-Safe es sys n start in
      let t = run (service store laws saves locker ttl now lease) now lease es sys in
      let counts : (count k t.world.third ≤ 1)
          × (status_of store laws saves locker ttl now lease t.world k ≡ 4
              → count k t.world.third ≡ 1) =
        ground (
          arith,
          v.sent k,
          v.begun k,
          counted-status store laws saves locker ttl now lease t k (t.owner k) v,
        ) in
      (
        counts.0,
        counts.1,
        All-map _ _ (λ x p. (p.0, sym (run-key es sys p.0 n) ∙ p.1)) t.world.third v.asked,
      )
