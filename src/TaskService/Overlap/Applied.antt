-- ===== src/TaskService/Overlap/Applied.antt =====
-- What a turn leaves of the counts and of the statuses, while no lease runs out.
use ormus.Prelude.{
  ℕ, ◌+◌, String, ◌≡◌, refl, sym, ap, ◌∙◌, ◌⊎◌, inl, inr, true, false, List, arith, eq_iff,
  String-cases, ◌==◌, Bool-cases, if◌then◌else◌,
}
use ormus.TaskStore.{Idempotency, IsIdempotencyStore, Saves}
use ormus.TaskStore.Memory.{RepoDb}
use ormus.TaskService.{Locker}
use ormus.TaskService.Exactly.{count}
use ormus.Prelude.TakeAt.{All, All-map}
use ormus.TaskService.Overlap.{put, Worker, Turn, key, apply}
use ormus.TaskService.Overlap.Cases.{is_critical, eq_of}
use ormus.TaskService.Overlap.Turns.{Sys, service, status_of, flight, Sound, Effect}
use ormus.TaskService.Overlap.Flight.{Safe, OwnerCase, flight-quiet, flight-turned, flight-own}

module _ {I L : Type 0} (store : Idempotency I) (laws : IsIdempotencyStore store)
    (saves : Saves store) (locker : Locker L) (ttl now lease : ℕ) where
  pub apply-begun :
      (i : ℕ) (sys : Sys store laws saves locker ttl now lease) (t : Turn I RepoDb L (List String))
      → Effect store laws saves locker ttl now lease (sys.worker i) sys t
      → Safe store laws saves locker ttl now lease sys
      → (k : String)
      → (status_of store laws saves locker ttl now lease t.world k ≡ 1)
        ⊎ (status_of store laws saves locker ttl now lease t.world k ≡ 4)
  apply-begun i sys t (inl (d, m, f)) v k = rw (m k) (v.begun k)
  apply-begun i sys t (inr (inl (d, m, q, c, one, f, f'))) v k = rw (m k) (v.begun k)
  apply-begun i sys t (inr (inr (d, m, q, c, one, f, f'))) v k =
      rw (m k) (ground (arith, v.begun k))

  -- The status of another worker's task is as before, while that worker is critical.
  pub other-status :
      (i j : ℕ) (sys : Sys store laws saves locker ttl now lease)
      (t : Turn I RepoDb L (List String))
      → Effect store laws saves locker ttl now lease (sys.worker i) sys t
      → Safe store laws saves locker ttl now lease sys
      → (i == j) ≡ false
      → is_critical (sys.worker j).phase ≡ true
      → status_of store laws saves locker ttl now lease t.world (key (sys.worker j))
        ≡ status_of store laws saves locker ttl now lease sys.world (key (sys.worker j))
  other-status i j sys t (inl (d, m, f)) v n c = m (key (sys.worker j))
  other-status i j sys t (inr (inl (d, m, q, ci, one, f, f'))) v n c = m (key (sys.worker j))
  other-status i j sys t (inr (inr (d, m, o, ci, one, f, f'))) v n c =
      let own = v.excl.holds i ci (v.alive i) in
      let own' = v.excl.holds j c (v.alive j) in
      rw (m (key (sys.worker j)))
        (ground (arith, n, own, own', eq_iff (key (sys.worker i)) (key (sys.worker j))))

  pub apply-sent :
      (i : ℕ) (sys : Sys store laws saves locker ttl now lease) (t : Turn I RepoDb L (List String))
      (k : String)
      → t.worker.event ≡ (sys.worker i).event
      → OwnerCase store laws saves locker ttl now lease i sys t
      → Effect store laws saves locker ttl now lease (sys.worker i) sys t
      → Sound store laws saves locker ttl now lease sys.world (sys.worker i) (sys.worker i).phase
      → Safe store laws saves locker ttl now lease sys
      → count k t.world.third
        ≡ (if status_of store laws saves locker ttl now lease t.world k == 4 then 1 else 0)
          + flight store laws saves locker ttl now lease
              (apply (service store laws saves locker ttl now lease) now lease i t sys)
              k
  apply-sent i sys t k e o (inl (d, m, f)) h v =
      rw (d, m k, flight-quiet store laws saves locker ttl now lease i sys t k e o f v) (v.sent k)
  apply-sent i sys t k e o (inr (inl (d, m, q, c, one, f, f'))) h v =
      let turned = flight-turned store laws saves locker ttl now lease i sys t k e q c v in
      let before = flight-own store laws saves locker ttl now lease i sys c v in
      elim (String-cases (key (sys.worker i)) k) [
        | inl (p, b) ↦
            let at_k = ap (flight store laws saves locker ttl now lease sys) (sym p) ∙ before in
            let one_k =
              ap (status_of store laws saves locker ttl now lease sys.world) (sym p) ∙ one in
            let sent = v.sent k in
            rw (d, m k, turned, b, f', one_k) (omega (arith, rw (one_k, at_k, f) at sent))
        | inr (n, b) ↦ rw (d, m k, turned, b) (v.sent k)
      ]
  apply-sent i sys t k e o (inr (inr (d, m, q, c, one, f, f'))) h v =
      let turned = flight-turned store laws saves locker ttl now lease i sys t k e q c v in
      let before = flight-own store laws saves locker ttl now lease i sys c v in
      elim (String-cases (key (sys.worker i)) k) [
        | inl (p, b) ↦
            let at_k = ap (flight store laws saves locker ttl now lease sys) (sym p) ∙ before in
            let one_k =
              ap (status_of store laws saves locker ttl now lease sys.world) (sym p) ∙ one in
            let sent = v.sent k in
            rw (d, m k, turned, b, f') (omega (arith, rw (one_k, at_k, f) at sent))
        | inr (n, b) ↦ rw (d, m k, turned, b) (v.sent k)
      ]

  pub own-alive :
      (i : ℕ) (sys : Sys store laws saves locker ttl now lease) (t : Turn I RepoDb L (List String))
      → OwnerCase store laws saves locker ttl now lease i sys t
      → (sys.worker i).lapsed ≡ false
      → t.worker.lapsed ≡ false
  own-alive i sys t (inl (o, c, inl (l, d))) h = l ∙ h
  own-alive i sys t (inl (o, c, inr (p, l))) h = l
  own-alive i sys t (inr (inl (f, o, l, d))) h = l ∙ h
  own-alive i sys t (inr (inr (f, o, p, l, d))) h = l ∙ h

  pub put-key :
      (i : ℕ) (w : Worker) (workers : ℕ → Worker) (j : ℕ)
      → w.event ≡ (workers i).event
      → key (put i w workers j) ≡ key (workers j)
  put-key i w workers j e = elim (Bool-cases (i == j)) [
    | inl b ↦ rw (b, e, eq_of i j b) refl
    | inr b ↦ rw b refl
  ]

  pub apply-asked :
      (i : ℕ) (sys : Sys store laws saves locker ttl now lease) (t : Turn I RepoDb L (List String))
      → t.worker.event ≡ (sys.worker i).event
      → Effect store laws saves locker ttl now lease (sys.worker i) sys t
      → Safe store laws saves locker ttl now lease sys
      → All (λ x. (j : ℕ) × (key (put i t.worker sys.worker j) ≡ x)) t.world.third
  apply-asked i sys t e f v =
      let before =
        All-map (λ x. (j : ℕ) × (key (sys.worker j) ≡ x))
          (λ x. (j : ℕ) × (key (put i t.worker sys.worker j) ≡ x))
          (λ x (p : (j : ℕ) × (key (sys.worker j) ≡ x)).
            (p.0, put-key i t.worker sys.worker p.0 e ∙ p.1))
          sys.world.third v.asked in
      elim f [
        | inl (d, m, g) ↦ rw d before
        | inr (inl (d, m, q, c, one, g, g')) ↦ rw d ((i, put-key i t.worker sys.worker i e), before)
        | inr (inr (d, m, q, c, one, g, g')) ↦ rw d before
      ]
