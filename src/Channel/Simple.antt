-- ===== src/Channel/Simple.antt =====
-- pkg/channel/adapter/simple/channel.go: the channel in memory, which delivers a message again
-- every ten seconds until its delivery is acknowledged. The goroutines interleave: a step is what
-- one of them does next, and a schedule is a list of steps. Messages and deliveries are named by
-- numbers, a delivery by the order in which `startDelivery` was called. The buffers have room for
-- one at least.
pub mod Delivery
use ormus.Prelude.{
  ℕ, suc, ◌-◌, Option, none, some, List, [], ◌∷◌, ◌++◌, ltb, ◌==◌, length, if◌then◌else◌,
}

pub record Attempt : Type 0 where
  pub number : ℕ
  pub message : ℕ

pub record SimpleChannel : Type 0 where
  pub buffer_size : ℕ
  -- goroutines of `startConsume` that still run
  pub consumers : ℕ
  pub input_channel : List ℕ
  -- goroutines of `startDelivery` in their `select`, newest first
  pub waiting : List Attempt
  -- goroutines of `publishMessage` before their send
  pub publishing : List Attempt
  pub output_channel : List Attempt
  -- messages that a receiver of the output channel has got
  pub received : List Attempt
  -- calls of `Ack` that no goroutine is left to hear
  pub blocked : List ℕ
  pub next : ℕ
  -- for the specification: what was ever sent, and what was acknowledged
  pub sent : List ℕ
  pub acked : List ℕ

pub data Event : Type 0 where
  send : ℕ → Event
  consume : Event
  publish : ℕ → Event
  receive : Event
  ack : ℕ → Event
  timeout : ℕ → Event
  stop : Event

unfoldable pub new_channel : ℕ → ℕ → SimpleChannel
new_channel buffer_size number_instants = record {
  buffer_size = buffer_size;
  consumers = number_instants;
  input_channel = [];
  waiting = [];
  publishing = [];
  output_channel = [];
  received = [];
  blocked = [];
  next = 0;
  sent = [];
  acked = [];
}

unfoldable pub find : ℕ → List Attempt → Option Attempt
find n [] = none
find n (a ∷ as') = if a.number == n then some a else find n as'

unfoldable pub remove : ℕ → List Attempt → List Attempt
remove n [] = []
remove n (a ∷ as') = if a.number == n then as' else a ∷ remove n as'

-- `startDelivery`: one goroutine waits for the acknowledgement or the timer, one publishes.
unfoldable pub start_delivery : ℕ → SimpleChannel → SimpleChannel
start_delivery m c =
    let a : Attempt = record { number = c.next; message = m } in
    record c { waiting = a ∷ c.waiting; publishing = a ∷ c.publishing; next = suc c.next }

unfoldable pub consume_input : List ℕ → SimpleChannel → Option SimpleChannel
consume_input [] c = none
consume_input (m ∷ ms) c =
    if ltb 0 c.consumers then some (start_delivery m (record c { input_channel = ms })) else none

unfoldable pub publish_message : Option Attempt → SimpleChannel → Option SimpleChannel
publish_message none c = none
publish_message (some a) c =
    if ltb (length c.output_channel) c.buffer_size
    then some (record c {
      publishing = remove a.number c.publishing;
      output_channel = c.output_channel ++ a ∷ [];
    })
    else none

unfoldable pub receive_output : List Attempt → SimpleChannel → Option SimpleChannel
receive_output [] c = none
receive_output (a ∷ as') c = some (record c { output_channel = as'; received = a ∷ c.received })

-- `Ack`: the send on the delivery's own channel meets the goroutine that waits for it, or nobody.
unfoldable pub acknowledge : ℕ → Option Attempt → SimpleChannel → SimpleChannel
acknowledge n none c = record c { blocked = n ∷ c.blocked }
acknowledge n (some a) c = record c { waiting = remove n c.waiting; acked = a.message ∷ c.acked }

-- The timer of a goroutine that still waits: it starts the next delivery and is gone.
unfoldable pub deliver_again : ℕ → Option Attempt → SimpleChannel → Option SimpleChannel
deliver_again n none c = none
deliver_again n (some a) c =
    some (start_delivery a.message (record c { waiting = remove n c.waiting }))

-- A step, or none where it is not enabled.
unfoldable pub step : SimpleChannel → Event → Option SimpleChannel
step c (send m) =
    if ltb (length c.input_channel) c.buffer_size
    then some (record c { input_channel = c.input_channel ++ m ∷ []; sent = m ∷ c.sent })
    else none
step c consume = consume_input c.input_channel c
step c (publish n) = publish_message (find n c.publishing) c
step c receive = receive_output c.output_channel c
step c (ack n) = elim (find n c.received) [
  | none ↦ none
  | some _ ↦ some (acknowledge n (find n c.waiting) c)
]
step c (timeout n) = deliver_again n (find n c.waiting) c
step c stop = if ltb 0 c.consumers then some (record c { consumers = c.consumers - 1 }) else none

-- A schedule; a step that is not enabled is passed over.
abbrev pub or_same : SimpleChannel → Option SimpleChannel → SimpleChannel
or_same c none = c
or_same c (some d) = d

unfoldable pub run : SimpleChannel → List Event → SimpleChannel
run c [] = c
run c (e ∷ es) = run (or_same c (step c e)) es
