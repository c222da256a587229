-- ===== src/Pipeline/Consumer.antt =====
-- The consumer of the processed events as the goroutines that it is: the loop of `Consume` of
-- destination/processedevent/adapter/rabbitmqconsumer/adapter.go, with one goroutine for each
-- delivery. A step is what one of them does next, up to its next send on a channel or call of the
-- library. The Go channel of the deliveries is closed with the library's channel: a receive then
-- gives the zero value.
pub mod Invariant
pub mod Goroutines
pub mod Kept
pub mod Turns
pub mod Drained
pub mod Setup
pub mod Shutdown
use ormus.Prelude.{
  ℕ, Option, none, some, Bool, true, false, List, [], ◌∷◌, ◌++◌, Outcome, ok, err, panic, Error,
  ltb, length, ◌==◌, if◌then◌else◌, Table, String,
}
use ormus.Prelude.TakeAt.{take_at}
use ormus.Event.{ProcessedEvent}
use ormus.Pipeline.{traced}

-- A message of the broker with its tag, or the zero value.
pub data Delivery (Body : Type 0) : Type 0 where
  message : ℕ → Body → Delivery Body
  zero_delivery : Delivery Body

-- What a receive gives at once, and none where it waits; what an acknowledgement and the two
-- closings answer.
pub record Library (B Body : Type 0) : Type 0 where
  pub receive : B → Option (Delivery Body) × B
  pub ack : ℕ → B → Option Error × B
  pub close_channel : B → Option Error × B
  pub close_connection : B → Option Error × B

-- Where a delivery's goroutine is: at its start, before the send of an event, or before `Ack`.
pub data Goroutine (Body : Type 0) : Type 0 where
  starting : Delivery Body → Goroutine Body
  sending : Delivery Body → ProcessedEvent → Goroutine Body
  acking : Delivery Body → Goroutine Body

-- A panic ends the program, whichever goroutine it is in.
pub data Phase : Type 0 where
  selecting returned crashed : Phase

pub record Consumer (B Body : Type 0) : Type 0 where
  pub broker : B
  pub phase : Phase
  pub goroutines : List (Goroutine Body)
  pub events : List ProcessedEvent
  pub closed : Bool
  -- for the specification: the deliveries that were taken, those that were left with no event,
  -- those for which `Ack` was called, and the events that the reader has got
  pub taken : List (Delivery Body)
  pub dropped : List (Delivery Body)
  pub acked : List (Delivery Body)
  pub got : List ProcessedEvent

pub data Step (B : Type 0) : Type 0 where
  take : Step B
  go : ℕ → Step B
  get : Step B
  stop : Step B
  change : (B → B) → Step B

abbrev pub channel_size : ℕ
channel_size = 100

abbrev pub new_consumer : {B Body : Type 0} → B → Consumer B Body
new_consumer b = record {
  broker = b;
  phase = selecting;
  goroutines = [];
  events = [];
  closed = false;
  taken = [];
  dropped = [];
  acked = [];
  got = [];
}

module _ {B Body : Type 0} (lib : Library B Body) (size : Body → ℕ)
    (decode : Body → Outcome ProcessedEvent) (carrier : ProcessedEvent → Table String) where
  abbrev pub crash : Consumer B Body → Consumer B Body
  crash c = record c { phase = crashed }

  abbrev pub taken_next : Option (Delivery Body) × B → Consumer B Body → Consumer B Body
  taken_next (none, b) c = record c { broker = b }
  taken_next (some d, b) c = record c {
    broker = b;
    goroutines = starting d ∷ c.goroutines;
    taken = d ∷ c.taken;
  }

  abbrev pub drop : Delivery Body → List (Goroutine Body) → Consumer B Body → Consumer B Body
  drop d others c = record c { goroutines = others; dropped = d ∷ c.dropped }

  abbrev pub decoded :
      Delivery Body
      → List (Goroutine Body)
      → Outcome ProcessedEvent
      → Consumer B Body
      → Consumer B Body
  decoded d others (ok e) c = record c { goroutines = sending d (traced carrier e) ∷ others }
  decoded d others (err x) c = drop d others c
  decoded d others panic c = crash c

  abbrev pub start : Delivery Body → List (Goroutine Body) → Consumer B Body → Consumer B Body
  start zero_delivery others c = drop zero_delivery others c
  start (message n body) others c =
      if size body == 0
      then drop (message n body) others c
      else decoded (message n body) others (decode body) c

  -- A send on a closed channel panics, and one on a full buffer waits.
  abbrev pub send :
      Delivery Body → ProcessedEvent → List (Goroutine Body) → Consumer B Body → Consumer B Body
  send d e others c =
      if c.closed
      then crash c
      else if ltb (length c.events) channel_size
      then record c { events = c.events ++ e ∷ []; goroutines = acking d ∷ others }
      else c

  -- The acknowledgement's error is logged. The zero delivery has no acknowledger.
  abbrev pub ack_delivery :
      Delivery Body → List (Goroutine Body) → Consumer B Body → Consumer B Body
  ack_delivery zero_delivery others c = record c {
    goroutines = others;
    acked = zero_delivery ∷ c.acked;
  }
  ack_delivery (message n body) others c = record c {
    broker = (lib.ack n c.broker).1;
    goroutines = others;
    acked = message n body ∷ c.acked;
  }

  unfoldable pub go_on :
      Option (Goroutine Body × List (Goroutine Body)) → Consumer B Body → Consumer B Body
  go_on none c = c
  go_on (some (starting d, others)) c = start d others c
  go_on (some (sending d e, others)) c = send d e others c
  go_on (some (acking d, others)) c = ack_delivery d others c

  abbrev pub handed_out : List ProcessedEvent → Consumer B Body → Consumer B Body
  handed_out [] c = c
  handed_out (e ∷ es) c = record c { events = es; got = e ∷ c.got }

  -- `failOnError` in what is deferred: it panics after the rest of it was done.
  abbrev pub end_phase : Option Error → Option Error → Phase
  end_phase none none = returned
  end_phase none (some y) = crashed
  end_phase (some x) y = crashed

  abbrev pub return_from_loop : Consumer B Body → Consumer B Body
  return_from_loop c =
      let (x, b) = lib.close_channel c.broker in
      let (y, b') = lib.close_connection b in
      record c { broker = b'; closed = true; phase = end_phase x y }

  abbrev pub in_loop : Phase → Consumer B Body → Consumer B Body → Consumer B Body
  in_loop selecting next c = next
  in_loop returned next c = c
  in_loop crashed next c = c

  abbrev pub alive : Phase → Consumer B Body → Consumer B Body → Consumer B Body
  alive selecting next c = next
  alive returned next c = next
  alive crashed next c = c

  unfoldable pub step : Step B → Consumer B Body → Consumer B Body
  unfolding go_on take_at
  step take c = in_loop c.phase (taken_next (lib.receive c.broker) c) c
  step stop c = in_loop c.phase (return_from_loop c) c
  step (go k) c = alive c.phase (go_on (take_at k c.goroutines) c) c
  step get c = alive c.phase (handed_out c.events c) c
  step (change f) c = record c { broker = f c.broker }

  unfoldable pub run : List (Step B) → Consumer B Body → Consumer B Body
  unfolding step
  run [] c = c
  run (s ∷ steps) c = run steps (step s c)
