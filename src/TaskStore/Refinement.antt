-- ===== src/TaskStore/Refinement.antt =====
-- The two idempotency stores next to each other: the adapter over Redis and the map in memory.
use ormus.Prelude.{
  String, ◌≡◌, refl, sym, none, List, [], ◌∷◌, Exec, ok, return, ◌>>◌, arith, and_then-eq-ok,
  concat, lookup,
}
use ormus.Task.{IntegrationDeliveryStatus}
use ormus.TaskStore.{Idempotency, IsIdempotencyStore}
use ormus.TaskStore.Memory as Memory
use ormus.TaskStore.Redis as Redis
use ormus.TaskStore.Redis.{Client, IsRedis, Lasts, Db}

-- Saves one after another, up to the first that fails.
unfoldable pub save_all :
    {I : Type 0} → Idempotency I → List (String × IntegrationDeliveryStatus) → Exec I (Unit {0})
save_all d [] = return tt
save_all d ((k, t) ∷ saves) = d.save_task_status k t >> save_all d saves

save_all-view :
    {A B : Type 0} (a : Idempotency A) (b : Idempotency B) (x : IsIdempotencyStore a)
    (y : IsIdempotencyStore b) (saves : List (String × IntegrationDeliveryStatus)) (s : A) (t : B)
    → ((k : String) → x.view s k ≡ y.view t k)
    → (save_all a saves s).0 ≡ ok tt
    → (save_all b saves t).0 ≡ ok tt
    → (k : String) → x.view (save_all a saves s).1 k ≡ y.view (save_all b saves t).1 k
unfolding save_all
save_all-view a b x y [] s t same h g k = same k
save_all-view a b x y ((j, u) ∷ saves) s t same h g k =
    let (_, saved, h1, ran) =
      and_then-eq-ok (a.save_task_status j u s) (λ _. save_all a saves) tt h in
    let (_, saved', g1, ran') =
      and_then-eq-ok (b.save_task_status j u t) (λ _. save_all b saves) tt g in
    let both : (i : String)
        → x.view (a.save_task_status j u s).1 i ≡ y.view (b.save_task_status j u t).1 i =
      λ i. ground (arith, x.save_view j i u s saved, y.save_view j i u t saved', same i) in
    rw (ran, ran')
      (save_all-view a b x y saves (a.save_task_status j u s).1 (b.save_task_status j u t).1 both h1
        g1 k)

memory_saves :
    (saves : List (String × IntegrationDeliveryStatus)) (m : Memory.IdempotencyDb)
    → (save_all Memory.idempotency saves m).0 ≡ ok tt
unfolding save_all Memory.save_task_status
memory_saves [] m = refl
memory_saves ((k, t) ∷ saves) m = memory_saves saves _

-- From a Redis that keeps its word, in which no entry comes to its expiration and that has nothing
-- under the prefix, saves that all succeed make it answer as the map in memory does after the same
-- saves: a read that succeeds returns the same status for each task,
-- saved or not, whatever else the Redis holds.
pub redis_refines_memory :
    {S : Type 0} (c : Client S) (db : Db) (r : IsRedis c) (lasts : Lasts r)
    (saves : List (String × IntegrationDeliveryStatus)) (s : S) (k : String)
    (t : IntegrationDeliveryStatus)
    → ((j : String) → r.stored s (concat db.prefix j) ≡ none)
    → (save_all (Redis.idempotency c db) saves s).0 ≡ ok tt
    → (Redis.get_task_status_by_id c db k (save_all (Redis.idempotency c db) saves s).1).0 ≡ ok t
    → (Memory.get_task_status_by_id k (save_all Memory.idempotency saves []).1).0 ≡ ok t
unfolding Memory.get_task_status_by_id lookup
redis_refines_memory c db r lasts saves s k t empty saved read =
    let x = Redis.redis-IsIdempotencyStore c db r lasts in
    let y = Memory.memory-IsIdempotencyStore in
    let begin : (j : String) → x.view s j ≡ y.view [] j = λ j. rw (empty j) refl in
    let same =
      save_all-view (Redis.idempotency c db) Memory.idempotency x y saves s [] begin saved
        (memory_saves saves []) k in
    let value = x.get_value k (save_all (Redis.idempotency c db) saves s).1 t read in
    rw (sym same, sym value) refl
