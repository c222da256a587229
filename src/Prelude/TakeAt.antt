-- ===== src/Prelude/TakeAt.antt =====
-- The goroutines that wait for their step, and the one that takes it: an entry of a list, by its
-- position, and the others; how many entries pass a test, and a sum over all. No source file is modelled here.
use mathlib.Core.Path.{subst}
use mathlib.Core.Option.{some-injective}
use ormus.Prelude.{
  ℕ, zero, suc, ◌+◌, ◌≡◌, refl, sym, ap, Bool, if◌then◌else◌, ◌++◌, Option, none, some, List, [],
  ◌∷◌, length, ◌<◌, arith,
}

abbrev pub with_first : {A : Type 0} → A → Option (A × List A) → Option (A × List A)
with_first x none = none
with_first x (some (y, ys)) = some (y, x ∷ ys)

unfoldable pub take_at : {A : Type 0} → ℕ → List A → Option (A × List A)
take_at k [] = none
take_at zero (x ∷ xs) = some (x, xs)
take_at (suc k) (x ∷ xs) = with_first x (take_at k xs)

abbrev pub count : {A : Type 0} → (A → Bool) → List A → ℕ
count a [] = 0
count a (x ∷ xs) = let rest = count a xs in if a x then suc rest else rest

abbrev pub sum : {A : Type 0} → (A → ℕ) → List A → ℕ
sum w [] = 0
sum w (x ∷ xs) = w x + sum w xs

pub count-append :
    {A : Type 0} (a : A → Bool) (xs ys : List A) → count a (xs ++ ys) ≡ count a xs + count a ys
count-append a [] ys = omega arith
count-append a (x ∷ xs) ys = ground (arith, count-append a xs ys)

abbrev pub All : {A : Type 0} → (A → Type 0) → List A → Type 0
All p [] = Unit
All p (x ∷ xs) = p x × All p xs

pub All-map :
    {A : Type 0} (p q : A → Type 0) → ((x : A) → p x → q x) → (xs : List A) → All p xs → All q xs
All-map p q f [] a = tt
All-map p q f (x ∷ xs) (a, rest) = (f x a, All-map p q f xs rest)

module _ {A : Type 0} where
  with_first-cases :
      (x : A) (o : Option (A × List A)) (r : A × List A)
      → with_first x o ≡ some r
      → (q : A × List A) × (o ≡ some q) × (r ≡ (q.0, x ∷ q.1))
  with_first-cases x none r h = cc
  with_first-cases x (some q) r h = (q, refl, sym (some-injective _ _ h))

  -- A sum over a list is the entry's weight and the sum over the others.
  pub take_at-sum :
      (sum : List A → ℕ) (weight : A → ℕ)
      → ((x : A) (xs : List A) → sum (x ∷ xs) ≡ weight x + sum xs)
      → (k : ℕ) (xs : List A) (r : A × List A) → take_at k xs ≡ some r
      → sum xs ≡ sum (r.0 ∷ r.1)
  unfolding take_at
  take_at-sum sum weight adds k [] r h = cc
  take_at-sum sum weight adds zero (x ∷ xs) r h = ap (λ q. sum (q.0 ∷ q.1)) (some-injective _ _ h)
  take_at-sum sum weight adds (suc k) (x ∷ xs) r h =
      let (q, e, p) = with_first-cases x (take_at k xs) r h in
      let rest = take_at-sum sum weight adds k xs q e in
      let a = adds x xs in
      let b = adds q.0 (x ∷ q.1) in let c = adds x q.1 in let d = adds q.0 q.1 in rw p (omega arith)

  pub take_at-All :
      (p : A → Type 0) (k : ℕ) (xs : List A) (r : A × List A)
      → take_at k xs ≡ some r
      → All p xs
      → All p (r.0 ∷ r.1)
  unfolding take_at
  take_at-All p k [] r h a = cc
  take_at-All p zero (x ∷ xs) r h a = subst (λ q. All p (q.0 ∷ q.1)) (some-injective _ _ h) a
  take_at-All p (suc k) (x ∷ xs) r h a =
      let (q, e, same) = with_first-cases x (take_at k xs) r h in
      let (b, bs) = take_at-All p k xs q e a.1 in rw same (b, (a.0, bs))

  with_first-some :
      (x : A) (o : Option (A × List A))
      → (r : A × List A) × (o ≡ some r)
      → (r : A × List A) × (with_first x o ≡ some r)
  with_first-some x o ((y, ys), h) = rw h ((y, x ∷ ys), refl)

  pub take_at-some :
      (k : ℕ) (xs : List A) → k < length xs → (r : A × List A) × (take_at k xs ≡ some r)
  unfolding take_at
  take_at-some k [] h = let no : ⊥ = omega arith in elim no [ ]
  take_at-some zero (x ∷ xs) h = ((x, xs), refl)
  take_at-some (suc k) (x ∷ xs) h =
      with_first-some x (take_at k xs) (take_at-some k xs (omega arith))
