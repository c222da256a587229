-- ===== src/Tests/Consumer.antt =====
-- The consumer of the processed events, with messages that are the events themselves.
use ormus.Prelude.{refl, ℕ, ◌*◌, ◌+◌, ◌≡◌, Bool, length, List, [], ◌∷◌, Option, none, some, plain}
use ormus.Pipeline.Consumer.{
  Consumer, Delivery, message, zero_delivery, Library, Step, take, go, get, new_consumer, run,
}
use ormus.Pipeline.Consumer.Invariant.{Kept, event_of}
use ormus.Prelude.TakeAt.{count, All}
use ormus.Pipeline.Consumer.Drained.{rounds, run-new_consumer-Drained}
use ormus.Pipeline.Consumer.Kept.{run-new_consumer-Kept}
use ormus.Pipeline.Consumer.Shutdown.{Consumes}
use ormus.Tests.Pipes.{Message, size, decode, carrier, some_event}
use ormus.Tests.Whole.{decodes}

-- A queue, which gives zero values at its end: the connection is lost then.
abbrev Queue : Type 0
Queue = List Message

abbrev receive : Queue → Option (Delivery Message) × Queue
receive [] = (some zero_delivery, [])
receive (m ∷ q) = (some (message 1 m), q)

abbrev lib : Library Queue Message
lib = record {
  receive = receive;
  ack = λ n q. (some (plain "channel closed"), q);
  close_channel = λ q. (none, q);
  close_connection = λ q. (none, q);
}

-- Two messages, the second empty, and the end of the connection.
abbrev steps : List (Step Queue)
steps = take ∷ take ∷ take ∷ go 0 ∷ go 0 ∷ go 0 ∷ get ∷ go 0 ∷ []

run-new_consumer-Kept_example :
    Kept lib size decode carrier
      (run lib size decode carrier steps (new_consumer (some some_event ∷ none ∷ [])))
run-new_consumer-Kept_example =
    run-new_consumer-Kept lib size decode carrier steps (some some_event ∷ none ∷ [])

-- Two messages and the end of the connection are taken, and one goroutine is at its send.
abbrev underway : List (Step Queue)
underway = take ∷ take ∷ take ∷ go 2 ∷ []

abbrev first_one : Consumer Queue Message → ℕ
first_one c = 0

run-new_consumer-Drained_example :
    let c = run lib size decode carrier underway (new_consumer (some some_event ∷ none ∷ [])) in
    let c' = rounds lib size decode carrier first_one (3 * length c.goroutines) c in
    (c'.goroutines ≡ [])
    × (c'.taken ≡ c.taken)
    × ((a : Delivery Message → Bool) → count a c.taken ≡ count a c'.dropped + count a c'.acked)
    × All (λ d. event_of lib size decode carrier d ≡ []) c'.dropped
    × Consumes lib size decode carrier c'
run-new_consumer-Drained_example =
    run-new_consumer-Drained lib size decode carrier underway (some some_event ∷ none ∷ [])
      first_one decodes (refl, (refl, (refl, (refl, tt)))) (λ c h. h)
