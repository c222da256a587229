-- ===== src/TaskService/Overlap/Flight.antt =====
-- The tasks that are delivered and not yet stored, while no lease runs out.
use ormus.Prelude.{
  ℕ, ◌+◌, String, ◌≡◌, refl, sym, ap, ◌∙◌, ◌⊎◌, inl, inr, Option, none, some, true, false, List,
  arith, str_eq, eq_refl, eq_iff, String-cases, ◌==◌, Bool-cases, Option-cases, if◌then◌else◌,
}
use ormus.TaskStore.{Idempotency, IsIdempotencyStore, Saves}
use ormus.TaskStore.Memory.{RepoDb}
use ormus.TaskService.{Locker}
use ormus.TaskService.Exactly.{count}
use ormus.Prelude.TakeAt.{All}
use ormus.TaskService.Overlap.{
  Phase, idle, calling, reading, finding, sending, storing, saving, leaving, finished, Worker, Turn,
  key, grant, put, apply,
}
use ormus.TaskService.Overlap.Exclusion as Exclusion
use ormus.TaskService.Overlap.Cases.{is_critical, Keeps, Takes, Frees, eq_of}
use ormus.TaskService.Overlap.Exclusion.{IsIdle, IsIdle-Inv}
use ormus.TaskService.Overlap.Turns.{W, Sys, service, status_of, flight, Sound, in_flight, counted}

module _ {I L : Type 0} (store : Idempotency I) (laws : IsIdempotencyStore store)
    (saves : Saves store) (locker : Locker L) (ttl now lease : ℕ) where
  pub record Safe (sys : Sys store laws saves locker ttl now lease) : Type 0 where
    pub excl : Exclusion.Inv (service store laws saves locker ttl now lease) now lease sys
    pub alive : (i : ℕ) → (sys.worker i).lapsed ≡ false
    pub begun :
        (k : String)
        → (status_of store laws saves locker ttl now lease sys.world k ≡ 1)
          ⊎ (status_of store laws saves locker ttl now lease sys.world k ≡ 4)
    pub sound :
        (i : ℕ)
        → Sound store laws saves locker ttl now lease sys.world (sys.worker i) (sys.worker i).phase
    pub sent :
        (k : String)
        → count k sys.world.third
          ≡ (if status_of store laws saves locker ttl now lease sys.world k == 4 then 1 else 0)
            + flight store laws saves locker ttl now lease sys k
    pub asked : All (λ x. (i : ℕ) × (key (sys.worker i) ≡ x)) sys.world.third

  pub Sound-change :
      (v v' : W store laws saves locker ttl now lease) (w : Worker) (p : Phase)
      → (is_critical p ≡ true
          → status_of store laws saves locker ttl now lease v' (key w)
            ≡ status_of store laws saves locker ttl now lease v (key w))
      → Sound store laws saves locker ttl now lease v w p
      → Sound store laws saves locker ttl now lease v' w p
  Sound-change v v' w idle c h = tt
  Sound-change v v' w calling c h = tt
  Sound-change v v' w reading c h = tt
  Sound-change v v' w (finding t) c h = (h.0, c refl ∙ h.1)
  Sound-change v v' w (sending t) c h = (h.0, c refl ∙ h.1)
  Sound-change v v' w (storing t) c h = (h.0, h.1, c refl ∙ h.2)
  Sound-change v v' w (saving t) c h = (h.0, h.1, c refl ∙ h.2)
  Sound-change v v' w leaving c h = tt
  Sound-change v v' w finished c h = tt

  pub in_flight-critical : (p : Phase) → in_flight p ≡ true → is_critical p ≡ true
  in_flight-critical idle h = cc
  in_flight-critical calling h = cc
  in_flight-critical reading h = cc
  in_flight-critical (finding t) h = cc
  in_flight-critical (sending t) h = cc
  in_flight-critical (storing t) h = refl
  in_flight-critical (saving t) h = refl
  in_flight-critical leaving h = cc
  in_flight-critical finished h = cc

  abbrev pub OwnerCase :
      ℕ → Sys store laws saves locker ttl now lease → Turn I RepoDb L (List String) → Type 0
  OwnerCase i sys t =
      Keeps i (sys.worker i) sys t ⊎ Takes i (sys.worker i) sys t ⊎ Frees i (sys.worker i) sys t

  -- Of the counts for one owner, a worker that is as before, in flight or not, counts as before.
  pub counted-put :
      (i : ℕ) (w : Worker) (workers : ℕ → Worker) (k : String) (o : Option ℕ)
      → w.event ≡ (workers i).event
      → in_flight w.phase ≡ in_flight (workers i).phase
      → counted (put i w workers) k o ≡ counted workers k o
  counted-put i w workers k none e f = refl
  counted-put i w workers k (some j) e f = elim (Bool-cases (i == j)) [
    | inl b ↦ rw (b, e, f, eq_of i j b) refl
    | inr b ↦ rw b refl
  ]

  pub not_in_flight :
      (i : ℕ) (sys : Sys store laws saves locker ttl now lease)
      → Safe sys
      → sys.owner (key (sys.worker i)) ≡ none
      → in_flight (sys.worker i).phase ≡ false
  not_in_flight i sys v o = elim (Bool-cases (in_flight (sys.worker i).phase)) [
    | inl f ↦
        let own = v.excl.holds i (in_flight-critical (sys.worker i).phase f) (v.alive i) in
        absurd (ground (arith, own, o))
    | inr f ↦ f
  ]

  pub flight-quiet :
      (i : ℕ) (sys : Sys store laws saves locker ttl now lease) (t : Turn I RepoDb L (List String))
      (k : String)
      → t.worker.event ≡ (sys.worker i).event
      → OwnerCase i sys t
      → in_flight t.worker.phase ≡ in_flight (sys.worker i).phase
      → Safe sys
      → flight store laws saves locker ttl now lease
          (apply (service store laws saves locker ttl now lease) now lease i t sys)
          k
        ≡ flight store laws saves locker ttl now lease sys k
  flight-quiet i sys t k e (inl (o, c, r)) f v =
      rw o (counted-put i t.worker sys.worker k (sys.owner k) e f)
  flight-quiet i sys t k e (inr (inl (free, o, l, d))) f v = rw o (
      counted-put i t.worker sys.worker k (grant (key (sys.worker i)) (some i) sys.owner k) e f
      ∙ ground (arith, free, not_in_flight i sys v free, eq_iff (key (sys.worker i)) k))
  flight-quiet i sys t k e (inr (inr (own, o, p, l, d))) f v = rw o (
      counted-put i t.worker sys.worker k (grant (key (sys.worker i)) none sys.owner k) e f
      ∙ ground (arith, own, sym f ∙ ap in_flight p, eq_iff (key (sys.worker i)) k))

  pub self : (i : ℕ) → (i == i) ≡ true
  self i = ground arith

  -- A turn that only changes whether its worker is in flight store laws saves locker ttl now lease, with the owners as they were.
  pub flight-turned :
      (i : ℕ) (sys : Sys store laws saves locker ttl now lease) (t : Turn I RepoDb L (List String))
      (k : String)
      → t.worker.event ≡ (sys.worker i).event
      → t.owner ≡ sys.owner
      → is_critical (sys.worker i).phase ≡ true
      → Safe sys
      → flight store laws saves locker ttl now lease
          (apply (service store laws saves locker ttl now lease) now lease i t sys)
          k
        ≡ (if str_eq (key (sys.worker i)) k
            then (if in_flight t.worker.phase then 1 else 0)
            else flight store laws saves locker ttl now lease sys k)
  flight-turned i sys t k e o c v =
      let own = v.excl.holds i c (v.alive i) in
      elim (String-cases (key (sys.worker i)) k) [
        | inl (p, b) ↦ rw (b, o, ← p, own, self i, e, eq_refl (key (sys.worker i))) (ground arith)
        | inr (n, b) ↦ elim (Option-cases (sys.owner k)) [
          | inl f ↦ rw (b, o, f) refl
          | inr (j, f) ↦ elim (Bool-cases (i == j)) [
            | inl g ↦ rw (o, f, g, e, ← eq_of i j g, b) (ground arith)
            | inr g ↦ rw (b, o, f, g) refl
          ]
        ]
      ]

  pub flight-own :
      (i : ℕ) (sys : Sys store laws saves locker ttl now lease)
      → is_critical (sys.worker i).phase ≡ true
      → Safe sys
      → flight store laws saves locker ttl now lease sys (key (sys.worker i))
        ≡ (if in_flight (sys.worker i).phase then 1 else 0)
  flight-own i sys c v =
      rw (v.excl.holds i c (v.alive i), eq_refl (key (sys.worker i))) (ground arith)

  Sound-status :
      (v : W store laws saves locker ttl now lease) (w : Worker) (p : Phase)
      → Sound store laws saves locker ttl now lease v w p
      → in_flight p ≡ true
      → status_of store laws saves locker ttl now lease v (key w) ≡ 1
  Sound-status v w (storing t) h f = h.2
  Sound-status v w (saving t) h f = h.2
  Sound-status v w idle h f = cc
  Sound-status v w calling h f = cc
  Sound-status v w reading h f = cc
  Sound-status v w (finding t) h f = cc
  Sound-status v w (sending t) h f = cc
  Sound-status v w leaving h f = cc
  Sound-status v w finished h f = cc

  -- A task in flight is not stored as done.
  pub counted-status :
      (sys : Sys store laws saves locker ttl now lease) (k : String) (o : Option ℕ)
      → Safe sys
      → (counted sys.worker k o ≡ 0)
        ⊎ ((counted sys.worker k o ≡ 1)
            × (status_of store laws saves locker ttl now lease sys.world k ≡ 1))
  counted-status sys k none v = inl refl
  counted-status sys k (some i) v = elim (Bool-cases (in_flight (sys.worker i).phase)) [
    | inl f ↦ elim (String-cases (key (sys.worker i)) k) [
      | inl (p, b) ↦
          rw (f, b)
            (inr (
              refl,
              ap (status_of store laws saves locker ttl now lease sys.world) (sym p)
                  ∙ Sound-status sys.world (sys.worker i) (sys.worker i).phase (v.sound i) f,
            ))
      | inr (n, b) ↦ rw (f, b) (inl refl)
    ]
    | inr f ↦ rw f (inl refl)
  ]
