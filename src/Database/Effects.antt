-- ===== src/Database/Effects.antt =====
-- Actions on a database, what they keep and how many sessions they open: a rule for each way the
-- code composes them.
use ormus.Prelude.{
  ℕ, ◌+◌, ◌≤◌, ◌≡◌, ◌≢◌, ap, arith, String, Option, none, some, Bool, true, Exec, Error, Outcome,
  ok, err, panic, or_panic, ◌>>=◌, Outcome-cases, inl, inr, and_then-eq-ok, and_then-state,
  ok-injective,
}
use ormus.Pipeline.Dialled.{failed_on}
use ormus.Pipeline.Consumer.Setup.Closed.{opened}
use ormus.Database.{first}

pub opened-most : {A : Type 0} (o : Outcome A) (n : ℕ) → opened o n ≤ 1 + n
opened-most (ok a) n = omega arith
opened-most (err e) n = omega arith
opened-most panic n = omega arith

pub opened-ok : {A : Type 0} (o : Outcome A) (a : A) (n : ℕ) → o ≡ ok a → opened o n ≡ 1 + n
opened-ok (ok b) a n h = omega arith
opened-ok (err e) a n h = cc
opened-ok panic a n h = cc

pub failed_on-ok : {A : Type 0} (o : Outcome A) (a : A) → failed_on o ≡ ok a → o ≡ ok a
failed_on-ok (ok b) a h = h
failed_on-ok (err e) a h = cc
failed_on-ok panic a h = cc

pub and_then-≢-err :
    {S A B : Type 0} (m : Exec S A) (f : A → Exec S B)
    → ((s : S) (e : Error) → (m s).0 ≢ err e)
    → ((a : A) (s : S) (e : Error) → (f a s).0 ≢ err e)
    → (s : S) (e : Error) → ((m >>= f) s).0 ≢ err e
and_then-≢-err m f p q s e = elim (Outcome-cases (m s).0) [
  | inl (a, h) ↦ rw h (q a (m s).1 e)
  | inr (inl (x, h)) ↦ elim (p s x h) [ ]
  | inr (inr h) ↦ rw h (λ k. cc)
]

pub or_panic-≢-err : {S A : Type 0} (o : Option A) (s : S) (e : Error) → (or_panic o s).0 ≢ err e
or_panic-≢-err none s e h = cc
or_panic-≢-err (some a) s e h = cc

-- What is seen of the database: the open sessions, the keyspaces, and the URLs whose migrations are
-- applied.
pub record View (S : Type 0) : Type 0 where
  pub sessions : S → ℕ
  pub has : S → String → Bool
  pub migrated : S → String → Bool

module _ {S : Type 0} (v : View S) where
  -- Keyspaces and migrations stay.
  pub record Later (s t : S) : Type 0 where
    pub keyspaces : (k : String) → v.has s k ≡ true → v.has t k ≡ true
    pub migrations : (u : String) → v.migrated s u ≡ true → v.migrated t u ≡ true

  pub Later-refl : (s : S) → Later s s
  Later-refl s = record { keyspaces = λ k h. h; migrations = λ u h. h }

  pub Later-trans : (s t u : S) → Later s t → Later t u → Later s u
  Later-trans s t u a b = record {
    keyspaces = λ k h. b.keyspaces k (a.keyspaces k h);
    migrations = λ w h. b.migrations w (a.migrations w h);
  }

  -- What holds of a value stays true of it.
  abbrev pub Stays : (S → Type 0) → Type 0
  Stays P = (s t : S) → Later s t → P s → P t

  -- An action that keeps what there is opens at most `n` sessions; where it has a value, it has
  -- opened `n`, and the value and the state are as `P` says.
  pub record Does {A : Type 0} (m : Exec S A) (n : ℕ) (P : A → S → Type 0) : Type 0 where
    pub later : (s : S) → Later s (m s).1
    pub most : (s : S) → v.sessions (m s).1 ≤ n + v.sessions s
    pub ends :
        (s : S) (a : A) → (m s).0 ≡ ok a → (v.sessions (m s).1 ≡ n + v.sessions s) × P a (m s).1

  pub and_then-Does :
      {A B : Type 0} (m : Exec S A) (f : A → Exec S B) (n k : ℕ) (P : A → S → Type 0)
      (Q : B → S → Type 0)
      → Does m n P
      → ((a : A) → Stays (P a))
      → ((a : A) → Does (f a) k (λ b s. P a s → Q b s))
      → Does (m >>= f) (n + k) Q
  and_then-Does m f n k P Q d stays e = record {
    later = λ s.
        and_then-state (λ t. Later s t) (m s) f (d.later s)
          (λ a h. Later-trans s (m s).1 (f a (m s).1).1 (d.later s) ((e a).later (m s).1));
    most = λ s.
        and_then-state (λ t. v.sessions t ≤ n + k + v.sessions s) (m s) f
          (let first = d.most s in omega arith)
          (λ a h. let first = d.most s in let second = (e a).most (m s).1 in omega arith);
    ends = λ s b h.
        let (a, ha, hb, whole) = and_then-eq-ok (m s) f b h in
        let (first, p) = d.ends s a ha in
        let (second, q) = (e a).ends (m s).1 b hb in
        rw whole (omega arith, q (stays a (m s).1 (f a (m s).1).1 ((e a).later (m s).1) p));
  }

  pub weaken :
      {A : Type 0} (m : Exec S A) (n : ℕ) (P Q : A → S → Type 0)
      → ((a : A) (s : S) → P a s → Q a s)
      → Does m n P
      → Does m n Q
  weaken m n P Q w d = record {
    later = d.later;
    most = d.most;
    ends = λ s a h. let (counts, p) = d.ends s a h in (counts, w a (m s).1 p);
  }

  -- A change of the outcome that gives a value for that value only.
  pub mapped-Does :
      {A : Type 0} (g : Outcome A → Outcome A) (m : Exec S A) (n : ℕ) (P : A → S → Type 0)
      → ((o : Outcome A) (a : A) → g o ≡ ok a → o ≡ ok a)
      → Does m n P
      → Does (λ s. (g (m s).0, (m s).1)) n P
  mapped-Does g m n P gives d = record {
    later = d.later;
    most = d.most;
    ends = λ s a h. d.ends s a (gives (m s).0 a h);
  }

  pub or_panic-Does : {A : Type 0} (o : Option A) → Does (or_panic o) 0 (λ a s. o ≡ some a)
  or_panic-Does none = record { later = Later-refl; most = λ s. omega arith; ends = λ s a h. cc }
  or_panic-Does (some b) = record {
    later = Later-refl;
    most = λ s. omega arith;
    ends = λ s a h. (omega arith, ap some (ok-injective h));
  }

  -- A call that neither opens a session nor undoes anything.
  abbrev pub Still : {A : Type 0} → Exec S A → Type 0
  Still m = (s : S) → (v.sessions (m s).1 ≡ v.sessions s) × Later s (m s).1

  pub Still-Does :
      {A : Type 0} (m : Exec S A) (P : A → S → Type 0)
      → Still m
      → ((s : S) (a : A) → (m s).0 ≡ ok a → P a (m s).1)
      → Does m 0 P
  Still-Does m P still p = record {
    later = λ s. (still s).1;
    most = λ s. let same = (still s).0 in omega arith;
    ends = λ s a h. (let same = (still s).0 in omega arith, p s a h);
  }
