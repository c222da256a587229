-- ===== src/TaskService/Etcd.antt =====
-- The locker over etcd: `Lock` of adapter/etcd/adapter.go. The clients' library is a parameter, over
-- a state that holds it and the store, and so are the contexts of Go.
pub mod Cancelled
use ormus.Prelude.{ℕ, String, Option, none, some, ◌⊎◌, inl, inr, Exec, Outcome, ok, err, Error}
use ormus.TaskService.{Locker}

pub record Etcd (L Ctx Session Mutex : Type 0) : Type 0 where
  -- `context.WithTimeout`, by the seconds, and the `cancel` that it returns
  pub with_timeout : ℕ → L → Ctx × L
  pub cancel : Ctx → L → L
  pub new_session : Ctx → ℕ → L → (Error ⊎ Session) × L
  pub new_mutex : Session → String → Mutex
  pub lock_mutex : Mutex → Ctx → L → Option Error × L
  pub unlock_mutex : Mutex → Ctx → L → Option Error × L

module _ {L Ctx Session Mutex : Type 0} (etcd : Etcd L Ctx Session Mutex) where
  abbrev pub answered : Option Error → Outcome (Unit {0})
  answered none = ok tt
  answered (some e) = err e

  -- The function that `Lock` returns; it waits with the context of `Lock`.
  abbrev pub unlock : Mutex → Ctx → Exec L (Unit {0})
  unlock mutex ctx l = let (e, l) = etcd.unlock_mutex mutex ctx l in (answered e, etcd.cancel ctx l)

  abbrev pub locked : Mutex → Ctx → Option Error × L → Outcome (Exec L (Unit {0})) × L
  locked mutex ctx (none, l) = (ok (unlock mutex ctx), l)
  locked mutex ctx (some e, l) = (err e, etcd.cancel ctx l)

  abbrev pub with_session : String → Ctx → (Error ⊎ Session) × L → Outcome (Exec L (Unit {0})) × L
  with_session key ctx (inl e, l) = (err e, etcd.cancel ctx l)
  with_session key ctx (inr session, l) =
      let mutex = etcd.new_mutex session key in locked mutex ctx (etcd.lock_mutex mutex ctx l)

  unfoldable pub lock : String → ℕ → Exec L (Exec L (Unit {0}))
  lock key ttl_seconds l =
      let (ctx, l) = etcd.with_timeout ttl_seconds l in
      with_session key ctx (etcd.new_session ctx ttl_seconds l)

  abbrev pub adapter : Locker L
  adapter = record { lock = lock }
