-- ===== src/Pipeline/Whole/Delivered.antt =====
-- From the broker of the processed events to the third party.
use ormus.Prelude.{
  ℕ, String, ◌≡◌, ◌≢◌, refl, ◌∙◌, Option, none, some, Bool, false, not, ◌&&◌, ◌||◌, List, [], ◌∷◌,
  ◌++◌, Table, lookup, Outcome, ok, err, panic, Error, arith, ◌==◌, str_eq, Bool-cases,
  Outcome-cases, inl, inr,
}
use ormus.Event.{ProcessedEvent, destination_type, webhook_destination_type}
use ormus.Pipeline.{
  Fate, skipped, undecoded, unacknowledged, forwarded, crashed, fate, Pipe, Ack, traced,
  forward_first, consume_processed_event, consume_task, publish_json, enqueue_json, coordinate,
}
use ormus.Pipeline.Whole.{go_on, consume_all, coordinate_all}

abbrev pub any : {A : Type 0} → (A → Bool) → List A → Bool
any p [] = false
any p (x ∷ xs) = let rest = any p xs in p x || rest

any-append :
    {A : Type 0} (p : A → Bool) (xs ys : List A) → any p (xs ++ ys) ≡ (any p xs || any p ys)
any-append p [] ys = refl
any-append p (x ∷ xs) ys = ground (arith, any-append p xs ys)

-- What a message carries, of an event.
abbrev pub carries : (ProcessedEvent → Bool) → Outcome ProcessedEvent → Bool
carries p (ok e) = p e
carries p (err x) = false
carries p panic = false

-- A property of events that does not depend on their carriers.
abbrev pub IsCarried : (ProcessedEvent → Bool) → Type 0
IsCarried p = (e : ProcessedEvent) (c : Table String) → p (record e { tracer_carrier = c }) ≡ p e

-- A message that has no body is left aside by the first consumer.
abbrev pub asks :
    {Body : Type 0}
    → (Body → ℕ)
    → (Body → Outcome ProcessedEvent)
    → (ProcessedEvent → Bool)
    → Body
    → Bool
asks size decode p body = not (size body == 0) && carries p (decode body)

go_on-alive : {B : Type 0} (f : Fate) (q rest : Pipe B) → f ≢ crashed → go_on f q rest ≡ rest
go_on-alive skipped q rest h = refl
go_on-alive (undecoded x) q rest h = refl
go_on-alive (unacknowledged x) q rest h = refl
go_on-alive forwarded q rest h = refl
go_on-alive crashed q rest h = absurd (h refl)

-- A consumer that survives a message and passes on what the message carries.
abbrev pub Carries :
    {B Body : Type 0}
    → (ProcessedEvent → Bool)
    → (Body → Bool)
    → (Body → Pipe B → Fate × Pipe B)
    → Type 0
Carries {B} {Body} p asks consume =
    (body : Body) (q : Pipe B)
    → ((consume body q).0 ≢ crashed)
      × (any p (consume body q).1.events ≡ (any p q.events || asks body))

pub consume_all-any :
    {B Body : Type 0} (p : ProcessedEvent → Bool) (asks : Body → Bool)
    (consume : Body → Pipe B → Fate × Pipe B)
    → Carries p asks consume
    → (bodies : List Body) (q : Pipe B)
    → any p (consume_all consume bodies q).events ≡ (any p q.events || any asks bodies)
unfolding consume_all
consume_all-any p asks consume h [] q = ground arith
consume_all-any p asks consume h (body ∷ bodies) q =
    let (alive, step) = h body q in
    let rest = consume_all-any p asks consume h bodies (consume body q).1 in
    rw (go_on-alive (consume body q).0 (consume body q).1 _ alive) (ground (arith, rest, step))

module _ {B Body : Type 0} (size : Body → ℕ) (decode : Body → Outcome ProcessedEvent)
    (carrier : ProcessedEvent → Table String) (ack : Ack B) (p : ProcessedEvent → Bool)
    (insensitive : IsCarried p) (decodes : (body : Body) → decode body ≢ panic) where
  acknowledge-fate :
      (refuse : Error → Fate) (o : Option Error)
      → ((x : Error) → o ≡ some x → refuse x ≢ crashed)
      → fate refuse o ≢ crashed
  acknowledge-fate refuse none h = λ e. cc
  acknowledge-fate refuse (some x) h = h x refl

  forward_first-Carries :
      (refuse : Error → Fate)
      → ((b : B) (x : Error) → (ack b).0 ≡ some x → refuse x ≢ crashed)
      → Carries p
          (λ body. carries p (decode body))
          (λ body. forward_first size decode carrier ack refuse (decode body))
  forward_first-Carries refuse taken body q = elim (Outcome-cases (decode body)) [
    | inl (e, good) ↦ rw good (
      acknowledge-fate refuse (ack q.broker).0 (taken q.broker),
      any-append p q.events (traced carrier e ∷ []) ∙ ground (arith, insensitive e (carrier e)),
    )
    | inr (inl (x, bad)) ↦ rw bad (λ e. cc, ground arith)
    | inr (inr crash) ↦ absurd (decodes body crash)
  ]

  pub consume_processed_event-Carries :
      Carries p (asks size decode p) (λ body. consume_processed_event size decode carrier body ack)
  unfolding consume_processed_event
  consume_processed_event-Carries body q = elim (Bool-cases (size body == 0)) [
    | inl empty ↦ rw empty (λ e. cc, ground arith)
    | inr full ↦ rw full (forward_first-Carries unacknowledged (λ b x h e. cc) body q)
  ]

  pub consume_task-Carries :
      ((b : B) → (ack b).0 ≡ none)
      → Carries p
          (λ body. carries p (decode body))
          (λ body. consume_task size decode carrier body ack)
  unfolding consume_task
  consume_task-Carries taken body q =
      forward_first-Carries (λ _. crashed) (λ b x h e. cc (taken b)) body q

abbrev pub is_webhook : ProcessedEvent → Bool
is_webhook e = str_eq webhook_destination_type (destination_type e)

module _ {Body : Type 0} (encode : ProcessedEvent → Outcome Body)
    (carrier : ProcessedEvent → Table String)
    (encodes : (e : ProcessedEvent) → (j : Body) × (encode e ≡ ok j)) where
  pub coordinate_all-any :
      (p : ProcessedEvent → Bool) (a : Body → Bool)
      → IsCarried p
      → ((e : ProcessedEvent) (j : Body) → encode e ≡ ok j → a j ≡ p e)
      → (pes : List ProcessedEvent) (q : List Body)
      → any a (coordinate_all encode carrier pes q)
        ≡ (any a q || any (λ e. is_webhook e && p e) pes)
  unfolding coordinate_all coordinate destination_type lookup publish_json enqueue_json
  coordinate_all-any p a insensitive h [] q = ground arith
  coordinate_all-any p a insensitive h (pe ∷ pes) q =
      let e : ProcessedEvent = record pe { tracer_carrier = carrier pe } in
      let (j, made) = encodes e in
      let rest = coordinate_all-any p a insensitive h pes in
      elim (Bool-cases (is_webhook pe)) [
        | inl webhook ↦
            rw (webhook, made)
              (rest (q ++ j ∷ [])
                ∙ ground (arith, any-append a q (j ∷ []), h e j made, insensitive pe (carrier pe)))
        | inr other ↦ rw other (rest q)
      ]
