-- ===== src/TaskService/Overlap/Exclusion.antt =====
-- Who is between the lock and the unlock of a task.
use mathlib.Core.Option.{some-injective}
use ormus.Prelude.{
  ℕ, ◌≤◌, ◌<◌, ◌≡◌, refl, sym, ap, ◌∙◌, ◌⊎◌, inl, inr, some, true, false, List, [], ◌∷◌, arith,
  eq_refl, eq_iff, leb, ◌==◌, Bool-cases, if◌then◌else◌,
}
use ormus.Event.{id}
use ormus.TaskService.{Service}
use ormus.TaskService.Overlap.{
  idle, System, Turn, key, is_owner, Event, advance, lapse, tick, apply, lose, step, run,
}
use ormus.TaskService.Overlap.Cases.{
  is_critical, Keeps, Takes, Frees, turn-cases, eq_of, is_owner-eq,
}

module _ {I R L D : Type 0} (s : Service I R L D) (now ttl : ℕ) where
  -- A worker between lock and unlock whose lease has not run out owns its key; a lease that has run
  -- out is past its deadline.
  pub record Inv (sys : System I R L D) : Type 0 where
    pub holds :
        (i : ℕ)
        → is_critical (sys.worker i).phase ≡ true
        → (sys.worker i).lapsed ≡ false
        → sys.owner (key (sys.worker i)) ≡ some i
    pub late : (i : ℕ) → (sys.worker i).lapsed ≡ true → (sys.worker i).deadline ≤ sys.clock

  own-holds :
      (i : ℕ) (sys : System I R L D) (t : Turn I R L D)
      → t.worker.event ≡ (sys.worker i).event
      → Keeps i (sys.worker i) sys t ⊎ Takes i (sys.worker i) sys t ⊎ Frees i (sys.worker i) sys t
      → Inv sys
      → is_critical t.worker.phase ≡ true
      → t.worker.lapsed ≡ false
      → t.owner (key t.worker) ≡ some i
  own-holds i sys t e (inl (o, c, inl (l, d))) v h g = rw (o, e) (v.holds i (c h) (sym l ∙ g))
  own-holds i sys t e (inl (o, c, inr (p, l))) v h g = absurd (ground (arith, p, c h))
  own-holds i sys t e (inr (inl (f, o, l, d))) v h g =
      rw (o, e)
        (ap (λ b. if b then some i else sys.owner (key (sys.worker i)))
          (eq_refl (key (sys.worker i))))
  own-holds i sys t e (inr (inr (f, o, p, l, d))) v h g = absurd (ground (arith, p, h))

  other-holds :
      (i j : ℕ) (sys : System I R L D) (t : Turn I R L D)
      → Keeps i (sys.worker i) sys t ⊎ Takes i (sys.worker i) sys t ⊎ Frees i (sys.worker i) sys t
      → (i == j) ≡ false
      → sys.owner (key (sys.worker j)) ≡ some j
      → t.owner (key (sys.worker j)) ≡ some j
  other-holds i j sys t (inl (o, c, r)) n h = rw o h
  other-holds i j sys t (inr (inl (f, o, l, d))) n h =
      rw o (ground (arith, f, h, eq_iff (key (sys.worker i)) (key (sys.worker j))))
  other-holds i j sys t (inr (inr (f, o, p, l, d))) n h =
      rw o (ground (arith, f, h, n, eq_iff (key (sys.worker i)) (key (sys.worker j))))

  own-late :
      (i : ℕ) (sys : System I R L D) (t : Turn I R L D)
      → Keeps i (sys.worker i) sys t ⊎ Takes i (sys.worker i) sys t ⊎ Frees i (sys.worker i) sys t
      → Inv sys
      → t.worker.lapsed ≡ true
      → t.worker.deadline ≤ sys.clock
  own-late i sys t (inl (o, c, inl (l, d))) v h = rw d (v.late i (sym l ∙ h))
  own-late i sys t (inl (o, c, inr (p, l))) v h = absurd (ground (arith, l, h))
  own-late i sys t (inr (inl (f, o, l, d))) v h = rw d (v.late i (sym l ∙ h))
  own-late i sys t (inr (inr (f, o, p, l, d))) v h = rw d (v.late i (sym l ∙ h))

  apply-Inv :
      (i : ℕ) (sys : System I R L D) (t : Turn I R L D)
      → t.worker.event ≡ (sys.worker i).event
      → Keeps i (sys.worker i) sys t ⊎ Takes i (sys.worker i) sys t ⊎ Frees i (sys.worker i) sys t
      → Inv sys
      → Inv (apply s now ttl i t sys)
  apply-Inv i sys t e c v = record {
    holds = λ j. elim (Bool-cases (i == j)) [
      | inl b ↦
          λ h g. rw b (own-holds i sys t e c v (rw b at h) (rw b at g) ∙ ap some (eq_of i j b))
      | inr b ↦ λ h g. rw b (other-holds i j sys t c b (v.holds j (rw b at h) (rw b at g)))
    ];
    late = λ j. elim (Bool-cases (i == j)) [
      | inl b ↦ λ h. rw b (own-late i sys t c v (rw b at h))
      | inr b ↦ λ h. rw b (v.late j (rw b at h))
    ];
  }

  lose-other :
      (i j : ℕ) (sys : System I R L D)
      → (i == j) ≡ false
      → sys.owner (key (sys.worker j)) ≡ some j
      → (lose s now ttl i (sys.worker i) sys).owner (key (sys.worker j)) ≡ some j
  lose-other i j sys n h = elim (Bool-cases (is_owner i (sys.owner (key (sys.worker i))))) [
    | inl b ↦
        let f = is_owner-eq i (sys.owner (key (sys.worker i))) b in
        rw b (ground (arith, f, h, n, eq_iff (key (sys.worker i)) (key (sys.worker j))))
    | inr b ↦ rw b h
  ]

  advance-Inv : (i : ℕ) (sys : System I R L D) → Inv sys → Inv (step s now ttl (advance i) sys)
  unfolding step
  advance-Inv i sys v =
      let (same, c) = turn-cases s now ttl i (sys.worker i) (sys.worker i).phase sys refl in
      apply-Inv i sys _ same c v

  lose-Inv :
      (i : ℕ) (sys : System I R L D)
      → leb (sys.worker i).deadline sys.clock ≡ true
      → Inv sys
      → Inv (lose s now ttl i (sys.worker i) sys)
  lose-Inv i sys e v = record {
    holds = λ j. elim (Bool-cases (i == j)) [
      | inl b ↦ λ h g. absurd (ground (arith, rw b at g))
      | inr b ↦ λ h g. rw b (lose-other i j sys b (v.holds j (rw b at h) (rw b at g)))
    ];
    late = λ j. elim (Bool-cases (i == j)) [
      | inl b ↦ λ h. rw b (ground (arith, e))
      | inr b ↦ λ h. rw b (v.late j (rw b at h))
    ];
  }

  pub step-Inv : (e : Event) (sys : System I R L D) → Inv sys → Inv (step s now ttl e sys)
  unfolding step
  step-Inv (advance i) sys v = advance-Inv i sys v
  step-Inv (lapse i) sys v = elim (Bool-cases (leb (sys.worker i).deadline sys.clock)) [
    | inl b ↦ rw b (lose-Inv i sys b v)
    | inr b ↦ rw b v
  ]
  step-Inv (tick n) sys v = record {
    holds = v.holds;
    late = λ i h. let l = v.late i h in omega arith;
  }

  pub run-Inv : (es : List Event) (sys : System I R L D) → Inv sys → Inv (run s now ttl es sys)
  unfolding run
  run-Inv [] sys v = v
  run-Inv (e ∷ es) sys v = run-Inv es (step s now ttl e sys) (step-Inv e sys v)

  -- Workers that have not begun, whatever their events and the owners of keys are.
  abbrev pub IsIdle : System I R L D → Type 0
  IsIdle sys = (i : ℕ) → ((sys.worker i).phase ≡ idle) × ((sys.worker i).lapsed ≡ false)

  pub IsIdle-Inv : (sys : System I R L D) → IsIdle sys → Inv sys
  IsIdle-Inv sys h = record {
    holds = λ i c. absurd (ground (arith, c, (h i).0));
    late = λ i l. absurd (ground (arith, l, (h i).1));
  }

  -- Under every schedule of calls that overlap, of time and of leases that run out, two workers that
  -- are both between the lock and the unlock of one task before their deadlines are the same one.
  pub mutual_exclusion :
      (sys : System I R L D) (es : List Event) (i j : ℕ)
      → IsIdle sys
      → let t = run s now ttl es sys in
        is_critical (t.worker i).phase ≡ true
        → is_critical (t.worker j).phase ≡ true
        → id (t.worker i).event ≡ id (t.worker j).event
        → t.clock < (t.worker i).deadline
        → t.clock < (t.worker j).deadline
        → i ≡ j
  mutual_exclusion sys es i j h ci cj same di dj =
      let t = run s now ttl es sys in
      let v = run-Inv es sys (IsIdle-Inv sys h) in
      let alive : (k : ℕ) → t.clock < (t.worker k).deadline → (t.worker k).lapsed ≡ false = λ k d.
        elim (Bool-cases (t.worker k).lapsed) [
          | inl l ↦ let late = v.late k l in absurd (omega arith)
          | inr l ↦ l
        ] in
      some-injective _ _
        (sym (v.holds i ci (alive i di)) ∙ ap t.owner same ∙ v.holds j cj (alive j dj))
