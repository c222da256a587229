-- ===== src/Tests/Values.antt =====
-- IDs, statuses, stores and errors.
use ormus.Prelude.{
  ◌∷◌, concat, ℕ, zero, suc, ◌<◌, ◌∙◌, arith, str_eq, if◌then◌else◌, String, ◌≡◌, refl, ◌≢◌, ◌↔◌,
  ◌⊎◌, [], ok, Error, plain, rich, Option, some, none, lookup, lookup-insert, Table, insert,
}
use ormus.Task.{to_string, to_numeric_string, numeric_string_to_integration_delivery_status}
use ormus.TaskStore.{UpsertTaskRequest}
use ormus.TaskStore.Memory as Memory
use ormus.TaskStore.Memory.{get-upsert, or_new_task}
use ormus.TaskStore.Redis as Redis
use ormus.TaskStore.Redis.{
  Client, IsRedis, Lasts, Entry, deadline, live, Db, Reply, found, redis_nil, failed, get-save,
}
use ormus.TaskStore.Refinement.{save_all, redis_refines_memory}
use ormus.RichError.{message, http_error, map_kind_to_http_status_code, err_some_thing_went_wrong}
use ormus.RichError.Chain.{http_error_lem, IsSilent}

abbrev request : UpsertTaskRequest
request = record {
  integration_delivery_status = 2;
  attempts = 1;
  failed_reason = some "timeout";
  created_at = 0;
  updated_at = 9;
}

-- A Redis that is a table of texts, and never fails.
abbrev pub reply : Option String → Reply
reply none = redis_nil
reply (some v) = found v

-- Its entries are texts with the expiration that they were set with; its clock does not move.
abbrev pub Rows : Type 0
Rows = Table (String × ℕ)

abbrev pub text_of : Option (String × ℕ) → Option String
text_of none = none
text_of (some (v, e)) = some v

abbrev pub entry_of : Option (String × ℕ) → Entry
entry_of none = none
entry_of (some (v, e)) = some (v, deadline e 0)

abbrev pub table_client : Client Rows
table_client = record {
  get = λ k s. (reply (text_of (lookup k s)), s);
  set = λ k v e s. (none, insert k (v, e) s);
}

pub live-entry_of : (o : Option (String × ℕ)) → live 0 (entry_of o) ≡ text_of o
live-entry_of none = refl
live-entry_of (some (v, zero)) = refl
live-entry_of (some (v, suc e)) = ground arith

pub reply-found : (o : Option String) (v : String) → reply o ≡ found v → o ≡ some v
reply-found none v h = cc
reply-found (some w) v h = cc

pub reply-answers : (o : Option String) (e : Error) → reply o ≢ failed e
reply-answers none e h = cc
reply-answers (some w) e h = cc

pub reply-nil : (o : Option String) → reply o ≡ redis_nil → o ≡ none
reply-nil none h = refl
reply-nil (some w) h = cc

pub entry_of-insert :
    (k j v : String) (e : ℕ) (s : Rows)
    → entry_of (lookup j (insert k (v, e) s))
      ≡ (if str_eq k j then some (v, deadline e 0) else entry_of (lookup j s))
entry_of-insert k j v e s = ground (arith, lookup-insert k j (v, e) s)

abbrev pub table_client-IsRedis : IsRedis table_client
table_client-IsRedis = record {
  stored = λ s k. entry_of (lookup k s);
  clock = λ s. 0;
  get_found = λ k s v h. live-entry_of (lookup k s) ∙ reply-found (text_of (lookup k s)) v h;
  get_nil = λ k s h. live-entry_of (lookup k s) ∙ reply-nil (text_of (lookup k s)) h;
  get_keeps = λ k j s. refl;
  set_stores = λ k j v e s h. entry_of-insert k j v e s;
}

entry_of-lasts :
    (o : Option (String × ℕ)) (v : String) (d : ℕ) → entry_of o ≡ some (v, some d) → 0 < d
entry_of-lasts none v d h = cc
entry_of-lasts (some (w, zero)) v d h = cc
entry_of-lasts (some (w, suc e)) v d h = ground (arith, h)

pub table_client-Lasts : Lasts table_client-IsRedis
table_client-Lasts s k v d h = entry_of-lasts (lookup k s) v d h

abbrev pub db : Db
db = record { prefix = "task_idempotency:"; expiration = 60 }

two_saved :
    (save_all (Redis.idempotency table_client db) (("m1-i1", 2) ∷ ("m1-i1", 4) ∷ []) []).0 ≡ ok tt
unfolding save_all Redis.save_task_status to_string to_numeric_string
two_saved = refl

two_read :
    (Redis.get_task_status_by_id table_client db "m1-i1"
      (save_all (Redis.idempotency table_client db) (("m1-i1", 2) ∷ ("m1-i1", 4) ∷ []) []).1).0
    ≡ ok 4
unfolding save_all Redis.get_task_status_by_id Redis.save_task_status to_string to_numeric_string
    numeric_string_to_integration_delivery_status lookup insert
two_read = refl

nothing_stored : (j : String) → entry_of (lookup (concat db.prefix j) []) ≡ none
unfolding lookup
nothing_stored j = refl

redis_refines_memory_example :
    (Memory.get_task_status_by_id "m1-i1"
      (save_all Memory.idempotency (("m1-i1", 2) ∷ ("m1-i1", 4) ∷ []) []).1).0
    ≡ ok 4
redis_refines_memory_example =
    redis_refines_memory table_client db table_client-IsRedis table_client-Lasts
      (("m1-i1", 2) ∷ ("m1-i1", 4) ∷ []) [] "m1-i1" 4 nothing_stored two_saved two_read

-- An error of kind 3 around one without kind around a plain text.
abbrev chain : Error
chain = rich "inner" (plain "no row") "" 0

http_error_lem_example :
    ((http_error (rich "outer" chain "" 3) ≡ none) ↔ IsSilent (rich "outer" chain "" 3))
    × ((s : String) (code : ℕ)
        → http_error (rich "outer" chain "" 3) ≡ some (s, code)
        → (code ≡ map_kind_to_http_status_code 3)
          × ((code ≡ 400) ⊎ (code ≡ 403) ⊎ (code ≡ 404) ⊎ (code ≡ 422) ⊎ (code ≡ 500))
          × (code ≡ 500 → s ≡ err_some_thing_went_wrong)
          × (code ≢ 500 → message (rich "outer" chain "" 3) ≡ some s))
http_error_lem_example = http_error_lem "outer" "" chain 3
