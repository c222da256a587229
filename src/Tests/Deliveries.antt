-- ===== src/Tests/Deliveries.antt =====
-- Deliveries counted, over a Redis that is a table and the fake handler.
use ormus.Prelude.{
  String, ◌≡◌, ◌≤◌, refl, Bool, true, not, List, [], ◌∷◌, Table, ok, err, plain, lookup,
  if◌then◌else◌,
}
use ormus.Event.{ProcessedEvent, id, destination_type}
use ormus.TaskStore.{Idempotency, IsIdempotencyStore, Saves, Reads}
use ormus.TaskStore.Redis as Redis
use ormus.TaskStore.Redis.{redis-Saves, redis-Reads, redis-IsIdempotencyStore}
use ormus.TaskService.{Locker}
use ormus.TaskService.Exactly.{handle_all, count, start}
use ormus.TaskService.Exactly.Tally.{handle_all_at_most_once}
use ormus.Tests.Values.{
  Rows, text_of, table_client, table_client-IsRedis, table_client-Lasts, db, reply-answers,
}
use ormus.Tests.Service.{first_event, other_event, span}

abbrev pub store : Idempotency Rows
store = Redis.idempotency table_client db

abbrev pub store_laws : IsIdempotencyStore store
store_laws = redis-IsIdempotencyStore table_client db table_client-IsRedis table_client-Lasts

pub table-Saves : Saves store
table-Saves = redis-Saves table_client db (λ k v e s. refl)

pub table-Reads : Reads store
table-Reads = redis-Reads table_client db (λ k s e. reply-answers (text_of (lookup k s)) e)

abbrev pub redelivered : List (Table String × ProcessedEvent)
redelivered = ([], first_event) ∷ (span, other_event) ∷ (span, first_event) ∷ []

pub unbegun : (j : String) → store_laws.view [] j ≡ 1
unfolding lookup
unbegun j = refl

-- Every second call finds the lock taken.
abbrev fickle_locker : Locker Bool
fickle_locker = record {
  lock = λ k ttl l. (if l then ok (λ held. (ok tt, held)) else err (plain "held"), not l);
}

handle_all_at_most_once_example :
    count "m1-i1" (handle_all store fickle_locker 5 7 redelivered (start [] [] true)).third ≤ 1
unfolding id destination_type
handle_all_at_most_once_example =
    handle_all_at_most_once store fickle_locker 5 7 store_laws table-Saves redelivered [] [] true
      "m1-i1" unbegun
