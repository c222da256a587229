-- ===== src/Tests/Etcd.antt =====
-- HandleTask over an etcd whose unlock fails, as it does when the context's time is over. The state
-- is the number of contexts that are not cancelled.
use ormus.Prelude.{ℕ, suc, ◌-◌, ◌≡◌, refl, arith, none, some, plain, inr, []}
use ormus.TaskService.{handle_task}
use ormus.TaskStore.Memory as Memory
use ormus.TaskService.Exactly.{fake_service}
use ormus.TaskService.Etcd.{Etcd, adapter}
use ormus.TaskService.Etcd.Cancelled.{Contexts, handle_task-uncancelled}
use ormus.Tests.Service.{first_event}

abbrev etcd : Etcd ℕ (Unit {0}) (Unit {0}) (Unit {0})
etcd = record {
  with_timeout = λ seconds n. (tt, suc n);
  cancel = λ ctx n. n - 1;
  new_session = λ ctx ttl n. (inr tt, n);
  new_mutex = λ session key. tt;
  lock_mutex = λ mutex ctx n. (none, n);
  unlock_mutex = λ mutex ctx n. (some (plain "context deadline exceeded"), n);
}

etcd-Contexts : Contexts etcd (λ n. n)
etcd-Contexts = record {
  made = λ seconds n. refl;
  cancelled = λ ctx l n e. omega arith;
  session = λ ctx ttl n. refl;
  locking = λ m ctx n. refl;
  unlocking = λ m ctx n. refl;
}

handle_task-uncancelled_example :
    (handle_task
      (fake_service Memory.idempotency (adapter etcd) 5 7)
      7
      []
      first_event
      (record { idem = []; repo = []; locks = 3; third = [] })).1.locks
    ≡ 3
handle_task-uncancelled_example =
    handle_task-uncancelled etcd (λ n. n) (fake_service Memory.idempotency (adapter etcd) 5 7) 7 []
      first_event (record { idem = []; repo = []; locks = 3; third = [] }) etcd-Contexts refl
