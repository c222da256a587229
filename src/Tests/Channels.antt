-- ===== src/Tests/Channels.antt =====
-- The channel in memory with a late acknowledgement, retries over RabbitMQ and the table of names.
use ormus.Prelude.{ℕ, ◌+◌, ◌*◌, ◌≤◌, ◌≡◌, [], ◌∷◌, zero, suc, Error, plain, Option, some, none}
use ormus.Channel.Retry.{
  delivered, gave_up, publish_to_rabbitmq, publish_to_rabbitmq_lem, FailsFor, after,
}
use ormus.Channel.Simple as Simple
use ormus.Channel.Simple.{
  SimpleChannel, Attempt, send, consume, publish, receive, ack, timeout, run, find, step, remove,
  start_delivery, consume_input, publish_message, receive_output,
}
use ormus.Channel.Simple.Delivery.{Inv, run-new_channel-Inv}

run-new_channel-Inv_example :
    Inv (
      run
        (Simple.new_channel 3 1)
        (send 8 ∷ consume ∷ publish 0 ∷ receive ∷ timeout 0 ∷ ack 0 ∷ []))
run-new_channel-Inv_example =
    run-new_channel-Inv 3 1 (send 8 ∷ consume ∷ publish 0 ∷ receive ∷ timeout 0 ∷ ack 0 ∷ [])

-- A message that was received and not yet acknowledged.
abbrev received_once : SimpleChannel
received_once = run (Simple.new_channel 3 1) (send 8 ∷ consume ∷ publish 0 ∷ receive ∷ [])

abbrev attempt : Attempt
attempt = record { number = 0; message = 8 }

-- A broker that refuses as often as its state says.
abbrev call : ℕ → Option Error × ℕ
call zero = (none, zero)
call (suc n) = (some (plain "closed"), n)

publish_to_rabbitmq_lem_example :
    let r = publish_to_rabbitmq call 3 5 0 2 in
    ((k : ℕ)
      → k ≤ 3
      → FailsFor call 3 k 2
      → (call (after call 3 k 2)).0 ≡ none
      → (r.ended ≡ delivered)
        × (r.broker ≡ after call 3 (suc k) 2)
        × (r.calls ≡ k + 1)
        × (r.slept ≡ k * (k + 1)))
    × (FailsFor call 3 4 2
        → (r.ended ≡ gave_up 4) × (r.broker ≡ after call 3 4 2) × (r.calls ≡ 4) × (r.slept ≡ 12))
publish_to_rabbitmq_lem_example = publish_to_rabbitmq_lem call 3 2
