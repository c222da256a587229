-- ===== src/TaskStore/Redis.antt =====
-- destination/taskservice/adapter/idempotency/redistaskidempotency. The client of go-redis is a
-- parameter: `Get` and `Set` on a state of its own, where `redis.Nil` is a reply of its own. An entry
-- has a deadline, from the expiration that `Set` gets, and past it no read finds it.
use text.Mathlib.TextLemmas.{append_cancel_left}
use ormus.Prelude.{
  ℕ, zero, suc, ◌+◌, ◌<◌, ltb, String, Option, none, some, ◌≡◌, ◌≢◌, refl, ap, sym, ◌∙◌, inl, inr,
  Exec, Error, Outcome, ok, return, fail, or_panic, ◌>>=◌, arith, str_eq, String-cases,
  str_eq-of_ne, eq_refl, concat, if◌then◌else◌,
}
use ormus.Task.{
  IntegrationDeliveryStatus, not_executed_task_status, to_string, to_numeric_string,
  numeric_string_to_integration_delivery_status,
}
use ormus.Task.Status.{numeric_string-le, to_string_total}
use ormus.TaskStore.{Idempotency, IsIdempotencyStore, Saves, Reads}

pub data Reply : Type 0 where
  found : String → Reply
  redis_nil : Reply
  failed : Error → Reply

pub record Client (S : Type 0) : Type 0 where
  pub get : String → S → Reply × S
  pub set : String → String → ℕ → S → Option Error × S

-- A text and the time at which it expires, if it does.
abbrev pub Entry : Type 0
Entry = Option (String × Option ℕ)

-- The deadline of an entry that is set at a time; an expiration of zero is none.
abbrev pub deadline : ℕ → ℕ → Option ℕ
deadline zero now = none
deadline (suc e) now = some (now + suc e)

abbrev pub live : ℕ → Entry → Option String
live now none = none
live now (some (v, none)) = some v
live now (some (v, some d)) = if ltb now d then some v else none

abbrev pub entry_text : Entry → Option String
entry_text none = none
entry_text (some (v, d)) = some v

-- What Redis documents of the two commands, with the entries that were set and its clock: a read
-- finds the entry that is not past its deadline, and changes none; `SET` replaces that of its key.
pub record IsRedis {S : Type 0} (c : Client S) : Type 0 where
  pub stored : S → String → Entry
  pub clock : S → ℕ
  pub get_found :
      (k : String) (s : S) (v : String)
      → (c.get k s).0 ≡ found v
      → live (clock s) (stored s k) ≡ some v
  pub get_nil :
      (k : String) (s : S) → (c.get k s).0 ≡ redis_nil → live (clock s) (stored s k) ≡ none
  pub get_keeps : (k j : String) (s : S) → stored (c.get k s).1 j ≡ stored s j
  pub set_stores :
      (k j v : String) (e : ℕ) (s : S)
      → (c.set k v e s).0 ≡ none
      → stored (c.set k v e s).1 j
        ≡ (if str_eq k j then some (v, deadline e (clock s)) else stored s j)

-- No entry is past its deadline, in any state that the Redis comes to.
abbrev pub Lasts : {S : Type 0} {c : Client S} → IsRedis c → Type 0
Lasts {S} {c} r = (s : S) (k v : String) (d : ℕ) → r.stored s k ≡ some (v, some d) → r.clock s < d

live-lasts :
    (now : ℕ) (entry : Entry)
    → ((v : String) (d : ℕ) → entry ≡ some (v, some d) → now < d)
    → live now entry ≡ entry_text entry
live-lasts now none lasts = refl
live-lasts now (some (v, none)) lasts = refl
live-lasts now (some (v, some d)) lasts = let before = lasts v d refl in ground arith

-- `DB`, without the adapter that leads to the client.
pub record Db : Type 0 where
  pub prefix : String
  pub expiration : ℕ

abbrev pub check : {S : Type 0} → Option Error → Exec S (Unit {0})
check none = return tt
check (some e) = fail e

module _ {S : Type 0} (c : Client S) (db : Db) where
  abbrev write : String → String → Exec S (Unit {0})
  write key value s = let (e, s') = c.set key value db.expiration s in check e s'

  unfoldable pub save_task_status : String → IntegrationDeliveryStatus → Exec S (Unit {0})
  save_task_status task_id status = do
    _ ← or_panic (to_string status)
    value ← or_panic (to_numeric_string status)
    write (concat db.prefix task_id) value

  abbrev read_reply : Reply → Exec S IntegrationDeliveryStatus
  read_reply (found value) = do
    let result = numeric_string_to_integration_delivery_status value
    _ ← or_panic (to_string result)
    return result
  read_reply redis_nil = return not_executed_task_status
  read_reply (failed e) = fail e

  unfoldable pub get_task_status_by_id : String → Exec S IntegrationDeliveryStatus
  get_task_status_by_id task_id s =
      let (reply, s') = c.get (concat db.prefix task_id) s in read_reply reply s'

  abbrev pub idempotency : Idempotency S
  idempotency = record {
    get_task_status_by_id = get_task_status_by_id;
    save_task_status = save_task_status;
  }

  -- A client that writes makes a store that saves what is done.
  pub redis-Saves : ((k v : String) (e : ℕ) (s : S) → (c.set k v e s).0 ≡ none) → Saves idempotency
  unfolding save_task_status to_string to_numeric_string
  redis-Saves sets k s = rw (sets (concat db.prefix k) "4" db.expiration s)

  read_reply-found :
      (value : String) (s : S)
      → read_reply (found value) s ≡ (ok (numeric_string_to_integration_delivery_status value), s)
  read_reply-found value s = ground (
    arith,
    to_string_total (numeric_string_to_integration_delivery_status value) (numeric_string-le value),
  )

  read_reply-total :
      (reply : Reply) (s : S)
      → ((e : Error) → reply ≢ failed e)
      → (t : IntegrationDeliveryStatus) × ((read_reply reply s).0 ≡ ok t)
  read_reply-total (found value) s answers = (
    numeric_string_to_integration_delivery_status value,
    ap (λ (p : Outcome IntegrationDeliveryStatus × S). p.0) (read_reply-found value s),
  )
  read_reply-total redis_nil s answers = (not_executed_task_status, refl)
  read_reply-total (failed e) s answers = absurd (answers e refl)

  -- A client that answers makes a store that does.
  pub redis-Reads :
      ((k : String) (s : S) (e : Error) → (c.get k s).0 ≢ failed e) → Reads idempotency
  unfolding get_task_status_by_id
  redis-Reads answers k s =
      let got = c.get (concat db.prefix k) s in
      read_reply-total got.0 got.1 (answers (concat db.prefix k) s)

  module _ (r : IsRedis c) (lasts : Lasts r) where
    abbrev pub read_text : Option String → IntegrationDeliveryStatus
    read_text none = not_executed_task_status
    read_text (some value) = numeric_string_to_integration_delivery_status value

    abbrev pub view : S → String → IntegrationDeliveryStatus
    view s k = read_text (entry_text (r.stored s (concat db.prefix k)))

    read_reply-text :
        (reply : Reply) (o : Option String) (s : S) (t : IntegrationDeliveryStatus)
        → ((v : String) → reply ≡ found v → o ≡ some v)
        → (reply ≡ redis_nil → o ≡ none)
        → (read_reply reply s).0 ≡ ok t
        → t ≡ read_text o
    read_reply-text (found value) o s t f n h =
        rw (f value refl) (ground (arith, read_reply-found value s))
    read_reply-text redis_nil o s t f n h = rw (n refl) (ground arith)
    read_reply-text (failed e) o s t f n h = cc

    pub get_value :
        (k : String) (s : S) (t : IntegrationDeliveryStatus)
        → (get_task_status_by_id k s).0 ≡ ok t
        → t ≡ view s k
    unfolding get_task_status_by_id
    get_value k s t h =
        let key = concat db.prefix k in
        let same = live-lasts (r.clock s) (r.stored s key) (lasts s key) in
        read_reply-text (c.get key s).0 (entry_text (r.stored s key)) (c.get key s).1 t
          (λ v e. sym same ∙ r.get_found key s v e) (λ e. sym same ∙ r.get_nil key s e) h

    read_reply-state : (reply : Reply) (s : S) → (read_reply reply s).1 ≡ s
    read_reply-state (found value) s =
        ap (λ (p : Outcome IntegrationDeliveryStatus × S). p.1) (read_reply-found value s)
    read_reply-state redis_nil s = refl
    read_reply-state (failed e) s = refl

    pub get_view : (k j : String) (s : S) → view (get_task_status_by_id k s).1 j ≡ view s j
    unfolding get_task_status_by_id
    get_view k j s =
        let key = concat db.prefix k in
        rw (read_reply-state (c.get key s).0 (c.get key s).1)
          (ap (λ e. read_text (entry_text e)) (r.get_keeps key (concat db.prefix j) s))

    prefix-eq : (k j : String) → str_eq (concat db.prefix k) (concat db.prefix j) ≡ str_eq k j
    prefix-eq k j = elim (String-cases k j) [
      | inl (p, e) ↦ rw p (eq_refl _ ∙ sym (eq_refl j))
      | inr (n, e) ↦ rw e (str_eq-of_ne _ _ (λ q. n (append_cancel_left db.prefix k j q)))
    ]

    write-view :
        (k j value : String) (s : S)
        → (write (concat db.prefix k) value s).0 ≡ ok tt
        → view (write (concat db.prefix k) value s).1 j
          ≡ (if str_eq k j then numeric_string_to_integration_delivery_status value else view s j)
    write-view k j value s h = ground (
      arith,
      r.set_stores (concat db.prefix k) (concat db.prefix j) value db.expiration s,
      prefix-eq k j,
    )

    pub save_view :
        (k j : String) (t : IntegrationDeliveryStatus) (s : S)
        → (save_task_status k t s).0 ≡ ok tt
        → view (save_task_status k t s).1 j ≡ (if str_eq k j then t else view s j)
    unfolding save_task_status to_string to_numeric_string
        numeric_string_to_integration_delivery_status
    save_view k j zero s h = write-view k j "0" s h
    save_view k j (suc zero) s h = write-view k j "1" s h
    save_view k j (suc (suc zero)) s h = write-view k j "2" s h
    save_view k j (suc (suc (suc zero))) s h = write-view k j "3" s h
    save_view k j (suc (suc (suc (suc zero)))) s h = write-view k j "4" s h
    save_view k j (suc (suc (suc (suc (suc t))))) s h = cc

    -- Over a Redis that keeps its word and in which no entry expires, the adapter keeps the contract of an idempotency store.
    abbrev pub redis-IsIdempotencyStore : IsIdempotencyStore idempotency
    redis-IsIdempotencyStore = record {
      view = view;
      get_value = get_value;
      get_view = get_view;
      save_view = save_view;
    }

    -- Over a Redis that keeps its word and in which no entry expires, a status that was saved is what a
    -- later read of the task returns, if that read succeeds.
    pub get-save :
        (k : String) (t u : IntegrationDeliveryStatus) (s : S)
        → (save_task_status k t s).0 ≡ ok tt
        → (get_task_status_by_id k (save_task_status k t s).1).0 ≡ ok u
        → u ≡ t
    get-save k t u s h g =
        get_value k (save_task_status k t s).1 u g
        ∙ save_view k k t s h
        ∙ ap (λ b. if b then t else view s k) (eq_refl k)
