-- ===== src/Pipeline/Whole/Once.antt =====
-- The two programs, one after the other, with the worker's overlapping calls over any store of the
-- statuses and the repository in memory.
use ormus.Prelude.{ℕ, String, ◌≡◌, Bool, ◌&&◌, List, [], ◌∷◌, Table, Outcome, str_eq}
use ormus.Event.{ProcessedEvent, id}
use ormus.Pipeline.{Ack, consume_task}
use ormus.Pipeline.Whole.{events_of}
use ormus.Pipeline.Whole.Delivered.{any, is_webhook}
use ormus.TaskStore.Memory.{RepoDb}
use ormus.TaskStore.{Idempotency, IsIdempotencyStore, Saves, Reads}
use ormus.TaskService.{Locker, World}
use ormus.TaskService.Exactly.{fake_service}
use ormus.TaskService.Overlap.{Event, System, launched, run}

-- The events of a worker, each with the carrier of its span.
abbrev pub with_carriers :
    (ProcessedEvent → Table String) → List ProcessedEvent → List (Table String × ProcessedEvent)
with_carriers carrier [] = []
with_carriers carrier (e ∷ es) = (carrier e, e) ∷ with_carriers carrier es

-- A webhook event of the task with the ID.
abbrev pub is_task : String → ProcessedEvent → Bool
is_task k e = is_webhook e && str_eq (id e) k

-- What the queue's broker delivers: each message of the queue at least once, in any order, and no
-- other.
abbrev pub SameMessages : {Body : Type 0} → List Body → List Body → Type 0
SameMessages {Body} queue delivered = (a : Body → Bool) → any a delivered ≡ any a queue

module _ {B C Body I L : Type 0} (size : Body → ℕ) (decode : Body → Outcome ProcessedEvent)
    (encode : ProcessedEvent → Outcome Body) (carrier carrier' : ProcessedEvent → Table String)
    (ack : Ack B) (ack' : Ack C) (store : Idempotency I) (laws : IsIdempotencyStore store)
    (saves : Saves store) (reads : Reads store) (locker : Locker L) (ttl now lease : ℕ) where
  -- The events that the worker gets from the queue's messages.
  abbrev pub worker_events : List Body → C → List (Table String × ProcessedEvent)
  worker_events delivered c =
      with_carriers carrier
        (events_of (λ body. consume_task size decode carrier' body ack') delivered c)

  -- The worker's calls after a schedule.
  abbrev pub ran :
      List Event
      → World I RepoDb L (List String)
      → List (Table String × ProcessedEvent)
      → System I RepoDb L (List String)
  ran schedule world events =
      run (fake_service store locker ttl now) now lease schedule (launched world events)
