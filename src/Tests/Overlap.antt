-- ===== src/Tests/Overlap.antt =====
-- Two workers of the task service that have the same event.
use ormus.Prelude.{ℕ, String, none, false, ◌≡◌, refl, ◌≤◌, arith, List, [], ◌∷◌, Table}
use ormus.Event.{id}
use ormus.TaskStore.Memory.{IdempotencyDb, RepoDb}
use ormus.TaskService.Exactly.{count, fake_service, start}
use ormus.Prelude.TakeAt.{All}
use ormus.TaskService.Overlap.{key, System, idle, Event, advance, tick, turn, step, run}
use ormus.TaskService.Overlap.Exclusion.{mutual_exclusion}
use ormus.TaskService.Overlap.Once.{overlap_exactly_once}
use ormus.Tests.Values.{Rows}
use ormus.Tests.Deliveries.{store, store_laws, table-Saves, unbegun}
use ormus.Tests.Service.{first_event, free_locker, service, new_world}

abbrev idle_workers : System IdempotencyDb RepoDb (List String) (List String)
idle_workers = record {
  clock = 0;
  owner = λ k. none;
  world = new_world;
  worker = λ i. record { event = first_event; deadline = 0; lapsed = false; phase = idle };
}

-- Both call `Lock`, the second one waits, and three seconds pass.
abbrev both_call : List Event
both_call = advance 0 ∷ advance 1 ∷ advance 0 ∷ advance 1 ∷ tick 3 ∷ []

abbrev first_worker : ℕ
first_worker = 0

mutual_exclusion_example : first_worker ≡ first_worker
unfolding run step turn id
mutual_exclusion_example =
    mutual_exclusion service 7 5 idle_workers both_call first_worker first_worker
      (λ i. (refl, refl)) refl refl refl (omega arith) (omega arith)

-- The same over a Redis that is a table.
abbrev redis_workers : System Rows RepoDb (List String) (List String)
redis_workers = record {
  clock = 0;
  owner = λ k. none;
  world = start [] [] [];
  worker = λ i. record { event = first_event; deadline = 0; lapsed = false; phase = idle };
}

overlap_exactly_once_example :
    let t = run (fake_service store free_locker 5 7) 7 5 both_call redis_workers in
    (count "m1-i1" t.world.third ≤ 1)
    × (store_laws.view t.world.idem "m1-i1" ≡ 4 → count "m1-i1" t.world.third ≡ 1)
    × All (λ x. (i : ℕ) × (key (redis_workers.worker i) ≡ x)) t.world.third
overlap_exactly_once_example =
    overlap_exactly_once store store_laws table-Saves free_locker 5 7 5 redis_workers both_call
      "m1-i1" (λ i. (refl, refl)) unbegun refl (λ j. refl) tt

-- The three calls of a worker to the end: the one that repeats an event asks for its lock at once and
-- has it when the first has unlocked.
abbrev pub three_calls : List Event
three_calls =
    advance 0
    ∷ advance 2
    ∷ advance 1
    ∷ advance 0
    ∷ advance 2
    ∷ advance 1
    ∷ advance 0
    ∷ advance 0
    ∷ advance 2
    ∷ advance 0
    ∷ advance 0
    ∷ advance 0
    ∷ advance 0
    ∷ tick 3
    ∷ advance 0
    ∷ advance 2
    ∷ advance 1
    ∷ advance 2
    ∷ advance 1
    ∷ advance 1
    ∷ advance 1
    ∷ advance 1
    ∷ advance 1
    ∷ advance 1
    ∷ advance 2
    ∷ []
