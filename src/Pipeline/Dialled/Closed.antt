-- ===== src/Pipeline/Dialled/Closed.antt =====
-- What a call of `Enqueue` leaves behind.
use ormus.Prelude.{
  ℕ, suc, Bool, true, false, ◌≡◌, ◌≢◌, refl, sym, ◌∙◌, ap, String, List, ◌∷◌, Exec, Outcome, ok,
  err, panic, Outcome-cases, inl, inr, ◌>>=◌, str_eq, [],
}
use ormus.Pipeline.Dialled.{Library, failed_on, fail_on_error, deferring, publish_on, enqueue}

-- One more where a call succeeds.
abbrev pub opened : {A : Type 0} → Outcome A → ℕ → ℕ
opened (ok a) n = suc n
opened (err e) n = n
opened panic n = n

abbrev pub added : {A : Type 0} → Outcome A → String → List String → List String
added (ok a) body bodies = body ∷ bodies
added (err e) body bodies = bodies
added panic body bodies = bodies

abbrev pub is_ok : {A : Type 0} → Outcome A → Bool
is_ok (ok a) = true
is_ok (err e) = false
is_ok panic = false

abbrev starts_with_a : List String → Bool
starts_with_a [] = false
starts_with_a (x ∷ xs) = str_eq x "a"

added-failed_on :
    {A : Type 0} (o : Outcome A) (body : String) (bodies : List String)
    → added (failed_on o) body bodies ≡ added o body bodies
added-failed_on (ok a) body bodies = refl
added-failed_on (err e) body bodies = refl
added-failed_on panic body bodies = refl

module _ {B : Type 0} (unclosed : B → ℕ) (published : B → List String) where
  -- What opens something and what closes it.
  pub record Opens {A : Type 0} (open_it : Exec B A) (close : A → B → B) : Type 0 where
    pub counts : (b : B) → unclosed (open_it b).1 ≡ opened (open_it b).0 (unclosed b)
    pub keeps : (b : B) → published (open_it b).1 ≡ published b
    pub closes : (a : A) (b : B) (n : ℕ) → unclosed b ≡ suc n → unclosed (close a b) ≡ n
    pub kept : (a : A) (b : B) → published (close a b) ≡ published b

  -- All that was opened is closed, and the body was published exactly if there was no error.
  abbrev pub Adds : {A : Type 0} → String → Exec B A → Type 0
  Adds body m =
      (b : B)
      → (unclosed (m b).1 ≡ unclosed b) × (published (m b).1 ≡ added (m b).0 body (published b))

  -- As many are unclosed as before, the same was published, and there is no result.
  abbrev pub AddsNone : {A : Type 0} → Exec B A → Type 0
  AddsNone {A} m =
      (b : B)
      → (unclosed (m b).1 ≡ unclosed b)
        × (published (m b).1 ≡ published b)
        × ((a : A) → (m b).0 ≢ ok a)

  -- The same for what an event is as JSON.
  abbrev pub AddsJson : {A : Type 0} → Outcome String → Exec B A → Type 0
  AddsJson (ok json) m = Adds json m
  AddsJson (err e) m = AddsNone m
  AddsJson panic m = AddsNone m

  added-none :
      {A : Type 0} (o : Outcome A) (before after : List String)
      → ((json : String) → after ≡ added o json before)
      → (after ≡ before) × ((a : A) → o ≢ ok a)
  added-none (ok a) before after h =
      let both : "a" ∷ before ≡ "b" ∷ before = sym (h "a") ∙ h "b" in
      let no : true ≡ false = ap starts_with_a both in cc
  added-none (err e) before after h = (h "", λ a. cc)
  added-none panic before after h = (h "", λ a. cc)

  never_ok : {A : Type 0} (m : Exec B A) → ((json : String) → Adds json m) → AddsNone m
  never_ok m h b =
      let (same, refused) =
        added-none (m b).0 (published b) (published (m b).1) (λ json. (h json b).1) in
      ((h "" b).0, same, refused)

  with_opened :
      {A C : Type 0} (body : String) (open_it : Exec B A) (close : A → B → B) (f : A → Exec B C)
      → Opens open_it close
      → ((a : A) → Adds body (f a))
      → Adds body (fail_on_error open_it >>= λ a. deferring (close a) (f a))
  with_opened body open_it close f o h b =
      let t = (open_it b).1 in
      let count = o.counts b in
      let same = o.keeps b in
      elim (Outcome-cases (open_it b).0) [
        | inl (a, e) ↦
            let (u, p) = h a t in
            rw e (
              o.closes a (f a t).1 (unclosed b) (u ∙ rw e at count),
              o.kept a (f a t).1 ∙ p ∙ ap (added (f a t).0 body) same,
            )
        | inr (inl (x, e)) ↦ rw e (rw e at count, same)
        | inr (inr e) ↦ rw e (rw e at count, same)
      ]

module _ {B Conn Ch E : Type 0} (lib : Library B Conn Ch) (marshal : E → Outcome String)
    (name : String) (unclosed : B → ℕ) (published : B → List String) where
  -- What each call of the library does to the two.
  pub record Counts : Type 0 where
    pub connection : Opens unclosed published lib.dial lib.close_connection
    pub channel : (c : Conn) → Opens unclosed published (lib.open_channel c) lib.close_channel
    pub declared :
        (ch : Ch) (q : String) (b : B) → unclosed (lib.queue_declare ch q b).1 ≡ unclosed b
    pub declared_same :
        (ch : Ch) (q : String) (b : B) → published (lib.queue_declare ch q b).1 ≡ published b
    pub publishes :
        (ch : Ch) (q body : String)
        → Adds unclosed published body (lib.publish_with_context ch q body)

  publish_on-Adds :
      (pe : E) (json : String) (ch : Ch)
      → Counts
      → marshal pe ≡ ok json
      → Adds unclosed published json (publish_on lib marshal name pe ch)
  publish_on-Adds pe json ch c m b =
      let t = (lib.queue_declare ch name b).1 in
      elim (Outcome-cases (lib.queue_declare ch name b).0) [
        | inl (q, e) ↦
            let (u, p) = c.publishes ch q json t in
            let o = (lib.publish_with_context ch q json t).0 in
            rw (e, m)
              (
                u ∙ c.declared ch name b,
                p
                    ∙ ap (added o json) (c.declared_same ch name b)
                    ∙ sym (added-failed_on o json (published b)),
              )
        | inr (inl (x, e)) ↦ rw e (c.declared ch name b, c.declared_same ch name b)
        | inr (inr e) ↦ rw e (c.declared ch name b, c.declared_same ch name b)
      ]

  -- Where the JSON fails, nothing is published, by whatever text it is counted.
  publish_on-none :
      (pe : E) (json : String) (ch : Ch)
      → Counts
      → is_ok (marshal pe) ≡ false
      → Adds unclosed published json (publish_on lib marshal name pe ch)
  publish_on-none pe json ch c m b = elim (Outcome-cases (lib.queue_declare ch name b).0) [
    | inl (q, e) ↦ elim (Outcome-cases (marshal pe)) [
      | inl (j, f) ↦ let no = rw f at m in cc
      | inr (inl (x, f)) ↦ rw (e, f) (c.declared ch name b, c.declared_same ch name b)
      | inr (inr f) ↦ rw (e, f) (c.declared ch name b, c.declared_same ch name b)
    ]
    | inr (inl (x, e)) ↦ rw e (c.declared ch name b, c.declared_same ch name b)
    | inr (inr e) ↦ rw e (c.declared ch name b, c.declared_same ch name b)
  ]

  opened-Adds :
      (pe : E) (json : String)
      → Counts
      → ((ch : Ch) → Adds unclosed published json (publish_on lib marshal name pe ch))
      → Adds unclosed published json (enqueue lib marshal name pe)
  unfolding enqueue
  opened-Adds pe json c h =
      with_opened unclosed published json lib.dial lib.close_connection _ c.connection λ conn.
        with_opened unclosed published json (lib.open_channel conn) lib.close_channel _
          (c.channel conn) h

  -- To enqueue an event, whatever fails in it, the event's JSON included, closes the connection and
  -- the channel that it opened, and publishes the event's JSON once if there is no error and nothing
  -- if there is one, a panic included; if the JSON fails, there is one.
  pub enqueue-Adds :
      (pe : E) → Counts → AddsJson unclosed published (marshal pe) (enqueue lib marshal name pe)
  enqueue-Adds pe c = elim (Outcome-cases (marshal pe)) [
    | inl (json, m) ↦ rw m (opened-Adds pe json c (λ ch. publish_on-Adds pe json ch c m))
    | inr (inl (x, m)) ↦ rw m (
        never_ok unclosed published _
          (λ json. opened-Adds pe json c (λ ch. publish_on-none pe json ch c (rw m refl))))
    | inr (inr m) ↦ rw m (
        never_ok unclosed published _
          (λ json. opened-Adds pe json c (λ ch. publish_on-none pe json ch c (rw m refl))))
  ]
