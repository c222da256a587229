-- ===== src/Channel/Rabbit.antt =====
-- How a channel over RabbitMQ is set up: `newChannelWithContext` and the three declarations of
-- pkg/channel/adapter/rabbitmq/channel.go, `NewChannelWithContext`, `connect` and
-- `WaitForConnection` of adapter.go. The client's library is a parameter, over a state that holds
-- the broker and the client; `others` is what the other goroutines do while one waits.
pub mod Setup
pub mod Reconnect
pub mod Input
pub mod Output
use ormus.Prelude.{
  ℕ, zero, suc, ◌+◌, String, Option, none, some, Bool, List, [], ◌∷◌, Table, insert, Exec, Outcome,
  ok, err, panic, Error, ◌>>=◌, ◌>>◌, return, concat, if◌then◌else◌,
}
use ormus.Channel.{Mode, Started, start_workers}

-- The calls of the library, with the arguments that the code passes besides its constants.
pub record Amqp (B Conn Ch : Type 0) : Type 0 where
  pub connection_is_closed : Conn → B → Bool
  pub open_channel : Conn → Exec B Ch
  pub exchange_declare : Ch → String → Exec B (Unit {0})
  pub exchange_declare_passive : Ch → String → Exec B (Unit {0})
  pub queue_declare : Ch → String → Exec B (Unit {0})
  pub queue_declare_passive : Ch → String → Exec B (Unit {0})
  pub queue_bind : Ch → String → String → Exec B (Unit {0})
  pub close : Ch → Exec B (Unit {0})

pub record Params : Type 0 where
  pub mode : Mode
  pub exchange : String
  pub queue : String
  pub buffer_size : ℕ
  pub number_instants : ℕ
  pub max_retry_policy : ℕ

-- `rabbitmqChannel`: its parameters and the goroutines that it starts; the two Go channels are
-- made with the size of the buffer.
pub record RabbitmqChannel : Type 0 where
  pub params : Params
  pub workers : List Started

pub record Client (B Conn : Type 0) : Type 0 where
  pub broker : B
  pub connection : Conn
  pub channels : Table RabbitmqChannel

abbrev pub or_else : {S A B : Type 0} → Outcome A × S → (A → Exec S B) → Exec S B → Outcome B × S
or_else (ok a, s) f k = f a s
or_else (err e, s) f k = k s
or_else (panic, s) f k = (panic, s)

module _ {B Conn Ch : Type 0} (amqp : Amqp B Conn Ch) where
  -- A deferred `Close`, whose error is logged.
  abbrev pub closing : {A : Type 0} → Ch → Exec B A → Exec B A
  closing ch m s = let (o, t) = m s in (o, (amqp.close ch t).1)

  -- Where the declaration fails, a second channel asks whether it is there already.
  unfoldable pub declare_exchange : Conn → String → Exec B (Unit {0})
  declare_exchange conn exchange = amqp.open_channel conn >>= λ ch. closing ch λ s.
      or_else (amqp.exchange_declare ch exchange s) return
        (amqp.open_channel conn >>= λ ch. amqp.exchange_declare_passive ch exchange)

  unfoldable pub declare_queue : Conn → String → Exec B (Unit {0})
  declare_queue conn queue = amqp.open_channel conn >>= λ ch. closing ch λ s.
      or_else (amqp.queue_declare ch queue s) return
        (amqp.open_channel conn >>= λ ch. amqp.queue_declare_passive ch queue)

  unfoldable pub bind_exchange_to_queue : Conn → String → String → Exec B (Unit {0})
  bind_exchange_to_queue conn exchange queue =
      amqp.open_channel conn >>= λ ch. closing ch (amqp.queue_bind ch queue exchange)

  -- What is done with the connection, after the wait.
  unfoldable pub declare_all : Conn → Params → Exec B RabbitmqChannel
  unfolding declare_exchange declare_queue bind_exchange_to_queue start_workers
  declare_all conn p = amqp.open_channel conn >>= λ ch. closing ch (do
    declare_exchange conn p.exchange
    declare_queue conn p.queue
    bind_exchange_to_queue conn p.exchange p.queue
    return (record { params = p; workers = start_workers p.mode p.number_instants }))

  abbrev pub on_broker : {A : Type 0} → Exec B A → Exec (Client B Conn) A
  on_broker m c = let (o, b) = m c.broker in (o, record c { broker = b })

  module _ (others : Client B Conn → Client B Conn) where
    -- `WaitForConnection`: it returns at once where the connection is open, and else after others
    -- have set one.
    unfoldable pub wait_for_connection : Client B Conn → Client B Conn
    wait_for_connection c = if amqp.connection_is_closed c.connection c.broker then others c else c

    -- The connection is read before the wait.
    unfoldable pub new_channel_with_context : Params → Exec (Client B Conn) RabbitmqChannel
    unfolding wait_for_connection declare_all
    new_channel_with_context p c = on_broker (declare_all c.connection p) (wait_for_connection c)

    abbrev pub add_channel :
        String → Outcome RabbitmqChannel × Client B Conn → Outcome (Unit {0}) × Client B Conn
    add_channel name (ok ch, c) = (ok tt, record c { channels = insert name ch c.channels })
    add_channel name (err e, c) = (err e, c)
    add_channel name (panic, c) = (panic, c)

    -- `ChannelAdapter.NewChannelWithContext`
    unfoldable pub new_channel : String → Mode → ℕ → ℕ → ℕ → Exec (Client B Conn) (Unit {0})
    unfolding new_channel_with_context
    new_channel name mode buffer_size number_instants max_retry_policy c = add_channel name (
        new_channel_with_context
          (record {
            mode = mode;
            exchange = concat name "-exchange";
            queue = concat name "-queue";
            buffer_size = buffer_size;
            number_instants = number_instants;
            max_retry_policy = max_retry_policy;
          })
          c)

-- `connect` under the lock of `cond`: the dial of the library, and the connection that it sets.
abbrev pub connected :
    {B Conn : Type 0} → Client B Conn → Outcome Conn × B → Outcome (Unit {0}) × Client B Conn
connected c (ok conn, b) = (ok tt, record c { broker = b; connection = conn })
connected c (err e, b) = (err e, record c { broker = b })
connected c (panic, b) = (panic, record c { broker = b })

unfoldable pub connect : {B Conn : Type 0} → Exec B Conn → Exec (Client B Conn) (Unit {0})
connect dial c = connected c (dial c.broker)

-- The loop of `NewWithContext` and of `waitForConnectionClose`, which connects until it succeeds,
-- with a sleep after each attempt, in seconds.
pub data Ended : Type 0 where
  done crashed out_of_fuel : Ended

pub record Reconnected (B Conn : Type 0) : Type 0 where
  pub ended : Ended
  pub client : Client B Conn
  pub slept : ℕ

abbrev pub next_attempt :
    {B Conn : Type 0}
    → ℕ
    → Outcome (Unit {0}) × Client B Conn
    → Reconnected B Conn
    → Reconnected B Conn
next_attempt second (ok _, c) rest = record { ended = done; client = c; slept = second }
next_attempt second (err e, c) rest = record rest { slept = second + rest.slept }
next_attempt second (panic, c) rest = record { ended = crashed; client = c; slept = 0 }

unfoldable pub reconnect :
    {B Conn : Type 0} → Exec B Conn → ℕ → ℕ → Client B Conn → Reconnected B Conn
unfolding connect
reconnect dial second zero c = record { ended = out_of_fuel; client = c; slept = 0 }
reconnect dial second (suc fuel) c =
    let rest = reconnect dial second fuel (connect dial c).1 in
    next_attempt second (connect dial c) rest
