-- ===== src/Tests/Tasks.antt =====
-- The consumer of tasks that dials the broker, with messages that are the events themselves.
use ormus.Prelude.{ℕ, ◌+◌, ◌==◌, if◌then◌else◌, List, [], ◌∷◌, Option, none, some, Error, plain}
use ormus.Pipeline.TaskConsumer.{Step, take, send, get, stop, new_consumer, run}
use ormus.Pipeline.TaskConsumer.Ordered.{Ordered, run-new_consumer-Ordered}
use ormus.Tests.Pipes.{Message, decode, some_event}

-- The broker refuses the second acknowledgement.
abbrev ack : ℕ → Option Error × ℕ
ack n = if n == 1 then (some (plain "channel closed"), 2) else (none, n + 1)

-- The third message does not decode.
abbrev steps : List (Step ℕ Message)
steps =
    take (some some_event)
    ∷ send
    ∷ take (some some_event)
    ∷ take none
    ∷ get
    ∷ take (some some_event)
    ∷ stop
    ∷ []

run-new_consumer-Ordered_example : Ordered ack decode (run ack decode steps (new_consumer 0))
run-new_consumer-Ordered_example = run-new_consumer-Ordered ack decode steps 0
