-- ===== src/Prelude/Effects.antt =====
-- What a Go function does that returns `(A, error)`: a value, an error, or a panic. An effect
-- passes a state on in each of the three cases.
use Prim.Native.Nat.{ℕ}
use Prim.Native.String.{String}
use mathlib.Core.Path.{◌≡◌, refl}
use mathlib.Core.Option.{Option, none, some}
use mathlib.Core.List.{List}
use mathlib.Core.Logic.{◌⊎◌, inl, inr}

-- `error`: `nil`, a plain text, pkg/richerror's `RichError` (operation, wrapped error, message and
-- kind) and the validators' `*Error` (its fields and its `Err`).
pub data Error : Type 0 where
  nil : Error
  plain : String → Error
  rich : String → Error → String → ℕ → Error
  invalid : List (String × String) → Error → Error

pub data Outcome {ℓ} (A : Type ℓ) : Type ℓ where
  ok : A → Outcome A
  err : Error → Outcome A
  panic : Outcome A

-- An action on a state of type `S`.
abbrev pub Exec : Type 0 → Type 0 → Type 0
Exec S A = S → Outcome A × S

abbrev pub and_then : {S A B : Type 0} → Outcome A × S → (A → Exec S B) → Outcome B × S
and_then (ok a, s) f = f a s
and_then (err e, s) f = (err e, s)
and_then (panic, s) f = (panic, s)

infixl 5 ◌>>=◌ ◌>>◌
abbrev pub ◌>>=◌ : {S A B : Type 0} → Exec S A → (A → Exec S B) → Exec S B
◌>>=◌ m f s = and_then (m s) f

abbrev pub ◌>>◌ : {S B : Type 0} → Exec S (Unit {0}) → Exec S B → Exec S B
m >> k = m >>= λ _. k

abbrev pub return : {S A : Type 0} → A → Exec S A
return a s = (ok a, s)

abbrev pub fail : {S A : Type 0} → Error → Exec S A
fail e s = (err e, s)

-- An index out of range panics.
abbrev pub or_panic : {S A : Type 0} → Option A → Exec S A
or_panic none s = (panic, s)
or_panic (some a) s = (ok a, s)

pub ok-injective : {A : Type 0} {a b : A} → ok a ≡ ok b → a ≡ b
ok-injective h = cc

pub Outcome-cases {ℓ} :
    {A : Type ℓ} (o : Outcome A)
    → ((a : A) × (o ≡ ok a)) ⊎ ((e : Error) × (o ≡ err e)) ⊎ (o ≡ panic)
Outcome-cases (ok a) = inl (a, refl)
Outcome-cases (err e) = inr (inl (e, refl))
Outcome-cases panic = inr (inr refl)

-- The rules of a sequence: what holds of the state after it, what it does after a value, and what
-- its value says of its parts.
pub and_then-state {ℓ} :
    {S A B : Type 0} (P : S → Type ℓ) (r : Outcome A × S) (f : A → Exec S B)
    → P r.1
    → ((a : A) → r.0 ≡ ok a → P (f a r.1).1)
    → P (and_then r f).1
and_then-state P (ok a, s) f h k = k a refl
and_then-state P (err e, s) f h k = h
and_then-state P (panic, s) f h k = h

pub and_then-value :
    {S A B : Type 0} (r : Outcome A × S) (f : A → Exec S B) (a : A)
    → r.0 ≡ ok a
    → and_then r f ≡ f a r.1
and_then-value (ok b, s) f a h = rw (ok-injective h)
and_then-value (err e, s) f a h = cc
and_then-value (panic, s) f a h = cc

pub and_then-eq-ok :
    {S A B : Type 0} (r : Outcome A × S) (f : A → Exec S B) (b : B)
    → (and_then r f).0 ≡ ok b
    → (a : A) × (r.0 ≡ ok a) × ((f a r.1).0 ≡ ok b) × (and_then r f ≡ f a r.1)
and_then-eq-ok (ok a, s) f b h = (a, refl, h, refl)
and_then-eq-ok (err e, s) f b h = cc
and_then-eq-ok (panic, s) f b h = cc

pub or_panic-state : {S A : Type 0} (o : Option A) (s : S) → (or_panic o s).1 ≡ s
or_panic-state none s = refl
or_panic-state (some a) s = refl

pub and_then-error :
    {S A B : Type 0} (r : Outcome A × S) (f : A → Exec S B) (x : Error)
    → r.0 ≡ err x
    → and_then r f ≡ (err x, r.1)
and_then-error (ok a, s) f x h = cc
and_then-error (err e, s) f x h = cc
and_then-error (panic, s) f x h = cc
