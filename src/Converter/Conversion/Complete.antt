-- ===== src/Converter/Conversion/Complete.antt =====
-- Where everything is that a loop of the converter took.
use ormus.Prelude.{
  ℕ, ◌+◌, ◌≤◌, ◌≡◌, refl, arith, some, Bool, List, [], ◌∷◌, Outcome, ok, err, panic, ltb, length,
  length-append, if◌then◌else◌, Bool-cases, Option-cases, inl, inr,
}
use ormus.Prelude.TakeAt.{count, count-append, sum, take_at, take_at-sum, take_at-All, All}
use ormus.Converter.{Kind}
use ormus.Converter.Conversion.{
  Goroutine, coding, sending, Phase, looping, returned, crashed, Conversion, Step, take, stop, go,
  receive, new_conversion, coded, go_on, meet, received, in_loop, alive, step, run, Taken, Json,
  code_of,
}

abbrev pub item_of : {A C : Type 0} → Goroutine A C → A
item_of (coding a) = a
item_of (sending a x) = a

abbrev pub result_of : {C : Type 0} → Outcome C → List C
result_of (ok x) = x ∷ []
result_of (err e) = []
result_of panic = []

module _ {A C : Type 0} (code : A → Outcome C) (buffer_size : ℕ) where
  abbrev pub weight : (A → Bool) → Goroutine A C → ℕ
  weight p g = if p (item_of g) then 1 else 0

  abbrev pub Coded : Goroutine A C → Type 0
  Coded (coding a) = Unit
  Coded (sending a x) = result_of (code a) ≡ x ∷ []

  pub record Complete (c : Conversion A C) : Type 0 where
    pub each :
        (p : A → Bool)
        → count p c.taken ≡ sum (weight p) c.goroutines + count p c.failed + count p c.sent
    pub results :
        (q : C → Bool)
        → sum (λ a. count q (result_of (code a))) c.sent ≡ count q c.buffer + count q c.got
    pub agree : All Coded c.goroutines
    pub useless : All (λ a. result_of (code a) ≡ []) c.failed
    pub bounded : length c.buffer ≤ buffer_size

  -- The goroutines are the one and the others.
  pub record Splits (c : Conversion A C) (g : Goroutine A C) (others : List (Goroutine A C))
      : Type 0 where
    pub weighs : (p : A → Bool) → sum (weight p) c.goroutines ≡ weight p g + sum (weight p) others
    pub agrees : Coded g × All Coded others

  take_at-Splits :
      (k : ℕ) (c : Conversion A C) (g : Goroutine A C) (others : List (Goroutine A C))
      → take_at k c.goroutines ≡ some (g, others)
      → Complete c
      → Splits c g others
  take_at-Splits k c g others e v = record {
    weighs =
        λ p. take_at-sum (sum (weight p)) (weight p) (λ x xs. refl) k c.goroutines (g, others) e;
    agrees = take_at-All Coded k c.goroutines (g, others) e v.agree;
  }

  coded-Complete :
      (a : A) (others : List (Goroutine A C)) (o : Outcome C) (c : Conversion A C)
      → code a ≡ o
      → Splits c (coding a) others
      → Complete c
      → Complete (coded code buffer_size a others o c)
  coded-Complete a others (ok x) c e s v = record {
    each = λ p. let old = v.each p in let w = s.weighs p in omega (arith, old, w);
    results = v.results;
    agree = (rw e refl, s.agrees.1);
    useless = v.useless;
    bounded = v.bounded;
  }
  coded-Complete a others (err x) c e s v = record {
    each = λ p. let old = v.each p in let w = s.weighs p in ground (arith, old, w);
    results = v.results;
    agree = s.agrees.1;
    useless = (rw e refl, v.useless);
    bounded = v.bounded;
  }
  coded-Complete a others panic c e s v = record {
    each = v.each;
    results = v.results;
    agree = v.agree;
    useless = v.useless;
    bounded = v.bounded;
  }

  go_on-Complete :
      (g : Goroutine A C) (others : List (Goroutine A C)) (c : Conversion A C)
      → Splits c g others
      → Complete c
      → Complete (go_on code buffer_size (some (g, others)) c)
  go_on-Complete (coding a) others c s v = coded-Complete a others (code a) c refl s v
  go_on-Complete (sending a x) others c s v =
      elim (Bool-cases (ltb (length c.buffer) buffer_size)) [
        | inl room ↦ rw room (record {
          each = λ p. let old = v.each p in let w = s.weighs p in ground (arith, old, w);
          results = λ q.
              let old = v.results q in
              rw s.agrees.0 (ground (arith, old, count-append q c.buffer (x ∷ [])));
          agree = s.agrees.1;
          useless = v.useless;
          bounded = ground (arith, room, length-append c.buffer (x ∷ []));
        })
        | inr full ↦ rw full v
      ]

  meet-Complete :
      (g : Goroutine A C) (others : List (Goroutine A C)) (c : Conversion A C)
      → Splits c g others
      → Complete c
      → Complete (meet code buffer_size (some (g, others)) c)
  meet-Complete (coding a) others c s v = v
  meet-Complete (sending a x) others c s v = record {
    each = λ p. let old = v.each p in let w = s.weighs p in ground (arith, old, w);
    results = λ q. let old = v.results q in rw s.agrees.0 (ground (arith, old));
    agree = s.agrees.1;
    useless = v.useless;
    bounded = v.bounded;
  }

  received-Complete :
      (buffer : List C) (k : ℕ) (c : Conversion A C)
      → c.buffer ≡ buffer
      → Complete c
      → Complete (received code buffer_size buffer (take_at k c.goroutines) c)
  received-Complete [] k c e v = elim (Option-cases (take_at k c.goroutines)) [
    | inl none_there ↦ rw none_there v
    | inr ((g, others), h) ↦ rw h (meet-Complete g others c (take_at-Splits k c g others h v) v)
  ]
  received-Complete (x ∷ xs) k c e v = record {
    each = v.each;
    results = λ q. let old = v.results q in ground (arith, e, old);
    agree = v.agree;
    useless = v.useless;
    bounded = let old = v.bounded in ground (arith, e, old);
  }

  in_loop-Complete :
      (p : Phase) (next c : Conversion A C)
      → Complete next
      → Complete c
      → Complete (in_loop code buffer_size p next c)
  in_loop-Complete looping next c w v = w
  in_loop-Complete returned next c w v = v
  in_loop-Complete crashed next c w v = v

  alive-Complete :
      (p : Phase) (next c : Conversion A C)
      → Complete next
      → Complete c
      → Complete (alive code buffer_size p next c)
  alive-Complete looping next c w v = w
  alive-Complete returned next c w v = w
  alive-Complete crashed next c w v = v

  step-Complete :
      (s : Step A) (c : Conversion A C) → Complete c → Complete (step code buffer_size s c)
  unfolding step
  step-Complete (take a) c v =
      in_loop-Complete c.phase _ c
        (record {
          each = λ p. let old = v.each p in ground (arith, old);
          results = v.results;
          agree = (tt, v.agree);
          useless = v.useless;
          bounded = v.bounded;
        })
        v
  step-Complete stop c v =
      in_loop-Complete c.phase _ c
        (record {
          each = v.each;
          results = v.results;
          agree = v.agree;
          useless = v.useless;
          bounded = v.bounded;
        })
        v
  step-Complete (go k) c v =
      alive-Complete c.phase _ c
        (elim (Option-cases (take_at k c.goroutines)) [
          | inl e ↦ rw e v
          | inr ((g, others), e) ↦
              rw e (go_on-Complete g others c (take_at-Splits k c g others e v) v)
        ])
        v
  step-Complete (receive k) c v =
      alive-Complete c.phase _ c (received-Complete c.buffer k c refl v) v

  run-Complete :
      (steps : List (Step A)) (c : Conversion A C)
      → Complete c
      → Complete (run code buffer_size steps c)
  unfolding run
  run-Complete [] c v = v
  run-Complete (s ∷ steps) c v =
      run-Complete steps (step code buffer_size s c) (unfold step in step-Complete s c v)

-- For each of the four kinds of loop, however its goroutines, the receiver and the shutdown
-- interleave: all that it took has a goroutine, was logged as failed or was sent, as often as it
-- was taken; what failed has no result; the results of what was sent are, as often, in the buffer
-- or received; and the buffer keeps its size.
pub run-new_conversion-Complete :
    {Body : Type 0} (json : Json Body) (k : Kind) (buffer_size : ℕ)
    (steps : List (Step (Taken Body k)))
    → Complete (code_of json k) buffer_size (run (code_of json k) buffer_size steps new_conversion)
run-new_conversion-Complete json k buffer_size steps =
    run-Complete (code_of json k) buffer_size steps new_conversion (record {
      each = λ p. refl;
      results = λ q. refl;
      agree = tt;
      useless = tt;
      bounded = omega arith;
    })
