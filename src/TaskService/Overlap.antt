-- ===== src/TaskService/Overlap.antt =====
-- Calls of `HandleTask` that overlap, under the lock of adapter/etcd/adapter.go. A call is cut at the
-- points where it touches what it shares with other calls: a turn of a worker is one lock, read,
-- delivery, write or unlock. `Lock` gives the call a context of `ttl` seconds from its start: until
-- then it may get the key, and only until then it can give it back; past it the session is no
-- longer kept alive, so that the key may lapse at any time. Of etcd's mutex the model has that a
-- key has one owner, and that `Unlock` removes a key of its own session alone.
pub mod Cases
pub mod Exclusion
pub mod Turns
pub mod Flight
pub mod Applied
pub mod Once
pub mod Served
pub mod Finished
pub mod Launched
use ormus.Prelude.{
  ℕ, zero, suc, ◌+◌, Table, String, Option, none, some, Bool, true, false, List, [], ◌∷◌, Exec,
  Outcome, ok, err, panic, return, or_panic, ◌>>=◌, ◌>>◌, str_eq, ltb, leb, ◌==◌, lookup,
  if◌then◌else◌,
}
use ormus.Event.{ProcessedEvent, id, zero_event}
use ormus.Task.{Task, IntegrationDeliveryStatus, to_string, can_be_executed, destination_slug}
use ormus.TaskService.{
  World, Service, on_third, on_repo, on_idem, upsert_request, with_response, find_handler,
  get_task_status_by_id, get_task,
}

pub data Phase : Type 0 where
  idle calling reading : Phase
  finding : IntegrationDeliveryStatus → Phase
  sending storing saving : Task → Phase
  leaving finished : Phase

pub record Worker : Type 0 where
  pub event : ProcessedEvent
  pub deadline : ℕ
  pub lapsed : Bool
  pub phase : Phase

pub record System (I R L D : Type 0) : Type 0 where
  pub clock : ℕ
  pub owner : String → Option ℕ
  pub world : World I R L D
  pub worker : ℕ → Worker

-- What a turn leaves to the worker, of the owners and of the world.
pub record Turn (I R L D : Type 0) : Type 0 where
  pub worker : Worker
  pub owner : String → Option ℕ
  pub world : World I R L D

-- The ID of the worker's task; the key that is locked is this one after a prefix of its own.
abbrev pub key : Worker → String
key w = id w.event

abbrev pub is_owner : ℕ → Option ℕ → Bool
is_owner i none = false
is_owner i (some j) = i == j

abbrev pub grant : String → Option ℕ → (String → Option ℕ) → String → Option ℕ
grant k o owner j = if str_eq k j then o else owner j

abbrev pub enter : Phase → Worker → Worker
enter p w = record w { phase = p }

abbrev pub put : ℕ → Worker → (ℕ → Worker) → ℕ → Worker
put i w workers j = if i == j then w else workers j

pub data Event : Type 0 where
  advance : ℕ → Event
  lapse : ℕ → Event
  tick : ℕ → Event

-- The event of the call at a position, with the carrier that the call writes into it; the positions
-- past the end have calls that are never made, for an event of no kind.
abbrev pub event_at : ℕ → List (Table String × ProcessedEvent) → ProcessedEvent
event_at i [] = zero_event
event_at zero ((c, e) ∷ es) = record e { tracer_carrier = c }
event_at (suc i) (e ∷ es) = event_at i es

-- `Run` of the worker: a goroutine for each event that it receives, none of which has begun its call.
abbrev pub launched :
    {I R L D : Type 0} → World I R L D → List (Table String × ProcessedEvent) → System I R L D
launched world events = record {
  clock = 0;
  owner = λ k. none;
  world = world;
  worker = λ i. record { event = event_at i events; deadline = 0; lapsed = false; phase = idle };
}

module _ {I R L D : Type 0} (s : Service I R L D) where
  module _ (now ttl : ℕ) where
    -- An error or a panic goes on with the deferred unlock.
    abbrev pub next_phase : {A : Type 0} → (A → Phase) → Outcome A → Phase
    next_phase f (ok a) = f a
    next_phase f (err e) = leaving
    next_phase f panic = leaving

    abbrev pub does :
        {A : Type 0} → Exec (World I R L D) A → (A → Phase) → Worker → System I R L D → Turn I R L D
    does m f w sys =
        let (o, world) = m sys.world in
        record { worker = enter (next_phase f o) w; owner = sys.owner; world = world }

    abbrev pub becomes : Worker → System I R L D → Turn I R L D
    becomes w sys = record { worker = w; owner = sys.owner; world = sys.world }

    -- `mutex.Lock` of a key that is free; of one that is not, it waits.
    abbrev pub acquire : ℕ → Worker → Option ℕ → System I R L D → Turn I R L D
    acquire i w none sys = record {
      worker = enter reading w;
      owner = grant (key w) (some i) sys.owner;
      world = sys.world;
    }
    acquire i w (some j) sys = becomes w sys

    abbrev pub release : ℕ → Worker → System I R L D → Turn I R L D
    release i w sys =
        if ltb sys.clock w.deadline
        then (if is_owner i (sys.owner (key w))
            then record {
              worker = enter finished w;
              owner = grant (key w) none sys.owner;
              world = sys.world;
            }
            else becomes (enter finished w) sys)
        else becomes (enter finished w) sys

    abbrev pub send : Task → Exec (World I R L D) Task
    send task = do
      handle ← find_handler (destination_slug task) (lookup (destination_slug task) s.mapper)
      response ← on_third (handle task)
      _ ← or_panic (to_string response.delivery_status)
      return (with_response task response)

    unfoldable pub turn : ℕ → Worker → Phase → System I R L D → Turn I R L D
    turn i w idle sys =
        becomes (record w { deadline = sys.clock + ttl; lapsed = false; phase = calling }) sys
    turn i w calling sys =
        if ltb sys.clock w.deadline
        then acquire i w (sys.owner (key w)) sys
        else becomes (enter finished w) sys
    turn i w reading sys =
        does (get_task_status_by_id s now (key w))
          (λ t. if can_be_executed t then finding t else leaving) w sys
    turn i w (finding t) sys = does (get_task s now w.event t) sending w sys
    turn i w (sending task) sys = does (send task) storing w sys
    turn i w (storing t) sys =
        does (on_repo (s.repository.upsert_task_with_context t.id (upsert_request t now)))
          (λ _. saving t) w sys
    turn i w (saving t) sys =
        does (on_idem (s.idempotency.save_task_status t.id t.delivery_status)) (λ _. leaving) w sys
    turn i w leaving sys = release i w sys
    turn i w finished sys = becomes w sys

    abbrev pub apply : ℕ → Turn I R L D → System I R L D → System I R L D
    apply i t sys = record sys {
      owner = t.owner;
      world = t.world;
      worker = put i t.worker sys.worker;
    }

    -- The lease of a worker past its deadline runs out: its key is free.
    abbrev pub lose : ℕ → Worker → System I R L D → System I R L D
    lose i w sys = record sys {
      owner = if is_owner i (sys.owner (key w)) then grant (key w) none sys.owner else sys.owner;
      worker = put i (record w { lapsed = true }) sys.worker;
    }

    unfoldable pub step : Event → System I R L D → System I R L D
    step (advance i) sys = apply i (turn i (sys.worker i) (sys.worker i).phase sys) sys
    step (lapse i) sys =
        if leb (sys.worker i).deadline sys.clock then lose i (sys.worker i) sys else sys
    step (tick n) sys = record sys { clock = sys.clock + n }

    unfoldable pub run : List Event → System I R L D → System I R L D
    run [] sys = sys
    run (e ∷ es) sys = run es (step e sys)
