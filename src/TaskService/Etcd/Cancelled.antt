-- ===== src/TaskService/Etcd/Cancelled.antt =====
-- The contexts that a call of `HandleTask` over etcd makes.
use ormus.Prelude.{
  ℕ, suc, ◌≡◌, ap, ◌∙◌, String, Option, none, some, ◌⊎◌, inl, inr, Table, Error, concat,
}
use ormus.Event.{ProcessedEvent, id}
use ormus.TaskService.{World, Service, handle_task}
use ormus.TaskService.Locks.{released, locks-handle_task}
use ormus.TaskService.Etcd.{Etcd, locked, with_session, lock, adapter}

module _ {L Ctx Session Mutex : Type 0} (etcd : Etcd L Ctx Session Mutex)
    (uncancelled : L → ℕ) where
  -- How many contexts were made and not cancelled: what each call does to their number.
  pub record Contexts : Type 0 where
    pub made : (n : ℕ) (l : L) → uncancelled (etcd.with_timeout n l).1 ≡ suc (uncancelled l)
    pub cancelled :
        (ctx : Ctx) (l : L) (n : ℕ) → uncancelled l ≡ suc n → uncancelled (etcd.cancel ctx l) ≡ n
    pub session :
        (ctx : Ctx) (n : ℕ) (l : L) → uncancelled (etcd.new_session ctx n l).1 ≡ uncancelled l
    pub locking :
        (m : Mutex) (ctx : Ctx) (l : L) → uncancelled (etcd.lock_mutex m ctx l).1 ≡ uncancelled l
    pub unlocking :
        (m : Mutex) (ctx : Ctx) (l : L) → uncancelled (etcd.unlock_mutex m ctx l).1 ≡ uncancelled l

  released-locked :
      (m : Mutex) (ctx : Ctx) (r : Option Error × L) (n : ℕ)
      → Contexts
      → uncancelled r.1 ≡ suc n
      → uncancelled (released (locked etcd m ctx r)) ≡ n
  released-locked m ctx (none, l) n k h = k.cancelled ctx _ n (k.unlocking m ctx l ∙ h)
  released-locked m ctx (some e, l) n k h = k.cancelled ctx l n h

  released-with_session :
      (key : String) (ctx : Ctx) (r : (Error ⊎ Session) × L) (n : ℕ)
      → Contexts
      → uncancelled r.1 ≡ suc n
      → uncancelled (released (with_session etcd key ctx r)) ≡ n
  released-with_session key ctx (inl e, l) n k h = k.cancelled ctx l n h
  released-with_session key ctx (inr s, l) n k h =
      let m = etcd.new_mutex s key in
      released-locked m ctx (etcd.lock_mutex m ctx l) n k (k.locking m ctx l ∙ h)

  released-lock :
      (key : String) (ttl : ℕ) (l : L)
      → Contexts
      → uncancelled (released (lock etcd key ttl l)) ≡ uncancelled l
  unfolding lock
  released-lock key ttl l k =
      let (ctx, t) = etcd.with_timeout ttl l in
      released-with_session key ctx (etcd.new_session ctx ttl t) (uncancelled l) k
        (k.session ctx ttl t ∙ k.made ttl l)

  -- Whatever happens in a call of HandleTask over etcd, be it that the session, the lock or the
  -- unlock fails or that the delivery panics, as many contexts wait to be cancelled after it as did
  -- before.
  pub handle_task-uncancelled :
      {I R D : Type 0} (s : Service I R L D) (now : ℕ) (c : Table String) (e : ProcessedEvent)
      (w : World I R L D)
      → Contexts
      → s.locker ≡ adapter etcd
      → uncancelled (handle_task s now c e w).1.locks ≡ uncancelled w.locks
  handle_task-uncancelled s now c e w k same =
      ap uncancelled (locks-handle_task s now c e w)
      ∙ ap
          (λ l.
            uncancelled (released (l.lock (concat "task:" (id e)) s.task_lock_ttl_seconds w.locks)))
          same
      ∙ released-lock (concat "task:" (id e)) s.task_lock_ttl_seconds w.locks k
