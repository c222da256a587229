-- ===== src/TaskService/Overlap/Cases.antt =====
-- What a turn does to the owners of the keys.
use ormus.Prelude.{
  ℕ, ◌≡◌, refl, ◌⊎◌, inl, inr, Option, none, some, Bool, true, false, arith, ltb, ◌==◌, Bool-cases,
  Option-cases,
}
use ormus.TaskService.{Service}
use ormus.TaskService.Overlap.{
  Phase, idle, calling, reading, finding, sending, storing, saving, leaving, finished, Worker,
  System, Turn, key, is_owner, grant, turn,
}

-- Between the lock and the unlock.
abbrev pub is_critical : Phase → Bool
is_critical idle = false
is_critical calling = false
is_critical finished = false
is_critical _ = true

pub is_owner-eq : (i : ℕ) (o : Option ℕ) → is_owner i o ≡ true → o ≡ some i
is_owner-eq i none h = cc
is_owner-eq i (some j) h = ground arith

pub eq_of : (i j : ℕ) → (i == j) ≡ true → i ≡ j
eq_of i j h = ground arith

-- What a turn does to the owners: nothing, or it takes a free key, or it frees a key of its own.
abbrev pub Keeps : {I R L D : Type 0} → ℕ → Worker → System I R L D → Turn I R L D → Type 0
Keeps i w sys t =
    (t.owner ≡ sys.owner)
    × (is_critical t.worker.phase ≡ true → is_critical w.phase ≡ true)
    × ((t.worker.lapsed ≡ w.lapsed) × (t.worker.deadline ≡ w.deadline)
        ⊎ ((w.phase ≡ idle) × (t.worker.lapsed ≡ false)))

abbrev pub Takes : {I R L D : Type 0} → ℕ → Worker → System I R L D → Turn I R L D → Type 0
Takes i w sys t =
    (sys.owner (key w) ≡ none)
    × (t.owner ≡ grant (key w) (some i) sys.owner)
    × (t.worker.lapsed ≡ w.lapsed)
    × (t.worker.deadline ≡ w.deadline)

abbrev pub Frees : {I R L D : Type 0} → ℕ → Worker → System I R L D → Turn I R L D → Type 0
Frees i w sys t =
    (sys.owner (key w) ≡ some i)
    × (t.owner ≡ grant (key w) none sys.owner)
    × (t.worker.phase ≡ finished)
    × (t.worker.lapsed ≡ w.lapsed)
    × (t.worker.deadline ≡ w.deadline)

module _ {I R L D : Type 0} (s : Service I R L D) (now ttl : ℕ) where
  pub turn-cases :
      (i : ℕ) (w : Worker) (p : Phase) (sys : System I R L D)
      → w.phase ≡ p
      → let t = turn s now ttl i w p sys in
        (t.worker.event ≡ w.event) × (Keeps i w sys t ⊎ Takes i w sys t ⊎ Frees i w sys t)
  unfolding turn
  turn-cases i w idle sys e = (refl, inl (refl, λ h. cc, inr (e, refl)))
  turn-cases i w calling sys e = elim (Bool-cases (ltb sys.clock w.deadline)) [
    | inl b ↦ elim (Option-cases (sys.owner (key w))) [
      | inl o ↦ rw (b, o) (refl, inr (inl (refl, refl, refl, refl)))
      | inr (j, o) ↦ rw (b, o) (refl, inl (refl, λ h. h, inl (refl, refl)))
    ]
    | inr b ↦ rw b (refl, inl (refl, λ h. cc, inl (refl, refl)))
  ]
  turn-cases i w reading sys e = (refl, inl (refl, λ h. rw e refl, inl (refl, refl)))
  turn-cases i w (finding t) sys e = (refl, inl (refl, λ h. rw e refl, inl (refl, refl)))
  turn-cases i w (sending t) sys e = (refl, inl (refl, λ h. rw e refl, inl (refl, refl)))
  turn-cases i w (storing t) sys e = (refl, inl (refl, λ h. rw e refl, inl (refl, refl)))
  turn-cases i w (saving t) sys e = (refl, inl (refl, λ h. rw e refl, inl (refl, refl)))
  turn-cases i w leaving sys e = elim (Bool-cases (ltb sys.clock w.deadline)) [
    | inl b ↦ elim (Bool-cases (is_owner i (sys.owner (key w)))) [
      | inl o ↦
          rw (b, o) (refl, inr (inr (is_owner-eq i (sys.owner (key w)) o, refl, refl, refl, refl)))
      | inr o ↦ rw (b, o) (refl, inl (refl, λ h. cc, inl (refl, refl)))
    ]
    | inr b ↦ rw b (refl, inl (refl, λ h. cc, inl (refl, refl)))
  ]
  turn-cases i w finished sys e = (refl, inl (refl, λ h. h, inl (refl, refl)))
