-- ===== src/Converter/Conversion.antt =====
-- What a loop of pkg/channel/converter.go does: it takes what is on the one channel, and starts a
-- goroutine for each, which decodes or encodes it and sends the result on the other. `code` is
-- encoding/json's, a parameter. A step is what one goroutine does next. The buffer is that of the
-- channel sent on: the one that was made, or the original one.
pub mod Complete
use ormus.Prelude.{
  ℕ, Option, none, some, Bool, true, false, List, [], ◌∷◌, ◌++◌, Outcome, ok, err, panic, Error,
  length, ltb, if◌then◌else◌,
}
use ormus.Prelude.TakeAt.{take_at}
use ormus.Event.{ProcessedEvent}
use ormus.Task.{Task}
use ormus.Delivery.{DeliveryTaskResponse}
use ormus.Converter.{Kind, output_processed_event, output_task, input_task, input_delivery_task}

pub data Goroutine (A C : Type 0) : Type 0 where
  coding : A → Goroutine A C
  sending : A → C → Goroutine A C

pub data Phase : Type 0 where
  looping returned crashed : Phase

pub record Conversion (A C : Type 0) : Type 0 where
  pub phase : Phase
  pub goroutines : List (Goroutine A C)
  pub buffer : List C
  -- for the specification: what the loop took, what was logged as failed, what was sent, and what
  -- was received
  pub taken : List A
  pub failed : List A
  pub sent : List A
  pub got : List C

pub data Step (A : Type 0) : Type 0 where
  take : A → Step A
  stop : Step A
  go : ℕ → Step A
  -- a receive, which a goroutine that waits to send may meet
  receive : ℕ → Step A

abbrev pub new_conversion : {A C : Type 0} → Conversion A C
new_conversion = record {
  phase = looping;
  goroutines = [];
  buffer = [];
  taken = [];
  failed = [];
  sent = [];
  got = [];
}

module _ {A C : Type 0} (code : A → Outcome C) (buffer_size : ℕ) where
  abbrev pub coded : A → List (Goroutine A C) → Outcome C → Conversion A C → Conversion A C
  coded a others (ok x) c = record c { goroutines = sending a x ∷ others }
  coded a others (err e) c = record c { goroutines = others; failed = a ∷ c.failed }
  coded a others panic c = record c { phase = crashed }

  -- A send on a full buffer waits.
  abbrev pub go_on : Option (Goroutine A C × List (Goroutine A C)) → Conversion A C → Conversion A C
  go_on none c = c
  go_on (some (coding a, others)) c = coded a others (code a) c
  go_on (some (sending a x, others)) c =
      if ltb (length c.buffer) buffer_size
      then record c { buffer = c.buffer ++ x ∷ []; goroutines = others; sent = a ∷ c.sent }
      else c

  abbrev pub meet : Option (Goroutine A C × List (Goroutine A C)) → Conversion A C → Conversion A C
  meet none c = c
  meet (some (coding a, others)) c = c
  meet (some (sending a x, others)) c = record c {
    goroutines = others;
    sent = a ∷ c.sent;
    got = x ∷ c.got;
  }

  abbrev pub received :
      List C → Option (Goroutine A C × List (Goroutine A C)) → Conversion A C → Conversion A C
  received [] g c = meet g c
  received (x ∷ xs) g c = record c { buffer = xs; got = x ∷ c.got }

  -- The loop takes and returns only while it goes on; the other goroutines go on after its end.
  abbrev pub in_loop : Phase → Conversion A C → Conversion A C → Conversion A C
  in_loop looping next c = next
  in_loop returned next c = c
  in_loop crashed next c = c

  abbrev pub alive : Phase → Conversion A C → Conversion A C → Conversion A C
  alive looping next c = next
  alive returned next c = next
  alive crashed next c = c

  unfoldable pub step : Step A → Conversion A C → Conversion A C
  unfolding take_at
  step (take a) c =
      in_loop c.phase (record c { goroutines = coding a ∷ c.goroutines; taken = a ∷ c.taken }) c
  step stop c = in_loop c.phase (record c { phase = returned }) c
  step (go k) c = alive c.phase (go_on (take_at k c.goroutines) c) c
  step (receive k) c = alive c.phase (received c.buffer (take_at k c.goroutines) c) c

  unfoldable pub run : List (Step A) → Conversion A C → Conversion A C
  unfolding step
  run [] c = c
  run (s ∷ steps) c = run steps (step s c)

-- What each of the four kinds of loop takes and sends, and its code.
module _ (Body : Type 0) where
  abbrev pub Taken : Kind → Type 0
  Taken output_processed_event = Body
  Taken output_task = Body
  Taken input_task = Task
  Taken input_delivery_task = DeliveryTaskResponse

  abbrev pub Sent : Kind → Type 0
  Sent output_processed_event = ProcessedEvent
  Sent output_task = Task
  Sent input_task = Body
  Sent input_delivery_task = Body

-- encoding/json, as far as the loops use it.
pub record Json (Body : Type 0) : Type 0 where
  pub unmarshal_bytes_to_processed_event : Body → Outcome ProcessedEvent
  pub unmarshal_bytes_to_task : Body → Outcome Task
  pub marshal_task : Task → Outcome Body
  pub marshal_delivery_task : DeliveryTaskResponse → Outcome Body

abbrev pub code_of : {Body : Type 0} → Json Body → (k : Kind) → Taken Body k → Outcome (Sent Body k)
code_of json output_processed_event a = json.unmarshal_bytes_to_processed_event a
code_of json output_task a = json.unmarshal_bytes_to_task a
code_of json input_task a = json.marshal_task a
code_of json input_delivery_task a = json.marshal_delivery_task a
