-- ===== src/Pipeline/Consumer/Invariant.antt =====
-- What holds of the consumer of the processed events between its steps.
use ormus.Prelude.{
  ℕ, ◌+◌, ◌≤◌, ◌≡◌, refl, some, Bool, List, [], ◌∷◌, Outcome, ok, err, panic, length, ◌==◌,
  if◌then◌else◌, Table, String,
}
use ormus.Prelude.TakeAt.{count, sum, take_at, take_at-sum, take_at-All, All}
use ormus.Event.{ProcessedEvent}
use ormus.Pipeline.{traced}
use ormus.Pipeline.Consumer.{
  Delivery, message, zero_delivery, Library, Goroutine, starting, sending, acking, Consumer,
  channel_size,
}

abbrev pub delivery_of : {Body : Type 0} → Goroutine Body → Delivery Body
delivery_of (starting d) = d
delivery_of (sending d e) = d
delivery_of (acking d) = d

module _ {B Body : Type 0} (lib : Library B Body) (size : Body → ℕ)
    (decode : Body → Outcome ProcessedEvent) (carrier : ProcessedEvent → Table String) where
  abbrev pub decoded_event : Outcome ProcessedEvent → List ProcessedEvent
  decoded_event (ok e) = traced carrier e ∷ []
  decoded_event (err x) = []
  decoded_event panic = []

  -- The event that a delivery carries, if there is one.
  abbrev pub event_of : Delivery Body → List ProcessedEvent
  event_of zero_delivery = []
  event_of (message n body) = if size body == 0 then [] else decoded_event (decode body)

  abbrev pub weight : (Delivery Body → Bool) → Goroutine Body → ℕ
  weight a g = if a (delivery_of g) then 1 else 0

  -- The events of the goroutines that have sent theirs.
  abbrev pub sent_by : (ProcessedEvent → Bool) → Goroutine Body → ℕ
  sent_by q (starting d) = 0
  sent_by q (sending d e) = 0
  sent_by q (acking d) = count q (event_of d)

  abbrev pub Agrees : Goroutine Body → Type 0
  Agrees (starting d) = Unit
  Agrees (sending d e) = event_of d ≡ e ∷ []
  Agrees (acking d) = Unit

  pub record Kept (c : Consumer B Body) : Type 0 where
    pub each :
        (a : Delivery Body → Bool)
        → count a c.taken ≡ sum (weight a) c.goroutines + count a c.dropped + count a c.acked
    pub sent :
        (q : ProcessedEvent → Bool)
        → sum (λ d. count q (event_of d)) c.acked + sum (sent_by q) c.goroutines
          ≡ count q c.events + count q c.got
    pub agree : All Agrees c.goroutines
    pub left : All (λ d. event_of d ≡ []) c.dropped
    pub bounded : length c.events ≤ channel_size

  -- The goroutines are the one and the others.
  pub record Splits (c : Consumer B Body) (g : Goroutine Body) (others : List (Goroutine Body))
      : Type 0 where
    pub weighs :
        (a : Delivery Body → Bool)
        → sum (weight a) c.goroutines ≡ weight a g + sum (weight a) others
    pub sums :
        (q : ProcessedEvent → Bool)
        → sum (sent_by q) c.goroutines ≡ sent_by q g + sum (sent_by q) others
    pub agrees : Agrees g × All Agrees others

  pub take_at-Splits :
      (k : ℕ) (c : Consumer B Body) (g : Goroutine Body) (others : List (Goroutine Body))
      → take_at k c.goroutines ≡ some (g, others)
      → Kept c
      → Splits c g others
  take_at-Splits k c g others e v = record {
    weighs =
        λ a. take_at-sum (sum (weight a)) (weight a) (λ x xs. refl) k c.goroutines (g, others) e;
    sums =
        λ q. take_at-sum (sum (sent_by q)) (sent_by q) (λ x xs. refl) k c.goroutines (g, others) e;
    agrees = take_at-All Agrees k c.goroutines (g, others) e v.agree;
  }
