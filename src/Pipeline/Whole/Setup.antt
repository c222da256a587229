-- ===== src/Pipeline/Whole/Setup.antt =====
-- How the two programs get the channel between them: cmd/destination/main.go asks for the input of
-- a channel over RabbitMQ, cmd/destination/delivery_workers/webhook_delivery_worker.go for the
-- output of one with the same name.
use ormus.Prelude.{String, Option, none, some, lookup, Outcome, ok, err, panic}
use ormus.Channel.{input_only_mode, output_only}
use ormus.Channel.Rabbit.{Amqp, Client, RabbitmqChannel, new_channel}

-- The channel, the end of the program by `os.Exit(1)`, by the log's `Fatalf` or `Panicf` where the
-- channel is not found, or by another panic.
pub data Prepared : Type 0 where
  ready : RabbitmqChannel → Prepared
  exited unfound panicked : Prepared

-- The name in main.go.
abbrev pub publisher_channel : String
publisher_channel = "webhook_tasks"

-- The name in webhook_delivery_worker.go.
abbrev pub consumer_channel : String
consumer_channel = "webhook_tasks"

module _ {B Conn Ch : Type 0} (amqp : Amqp B Conn Ch) (others : Client B Conn → Client B Conn) where
  abbrev pub got : Option RabbitmqChannel → Prepared
  got (some ch) = ready ch
  got none = unfound

  abbrev pub prepared : String → Outcome (Unit {0}) × Client B Conn → Prepared × Client B Conn
  prepared name (ok _, c) = (got (lookup name c.channels), c)
  prepared name (err e, c) = (exited, c)
  prepared name (panic, c) = (panicked, c)

  -- main.go: channelSize, numberInstant and maxRetryPolicy.
  unfoldable pub prepare_publisher : Client B Conn → Prepared × Client B Conn
  unfolding new_channel
  prepare_publisher c =
      prepared publisher_channel
        (new_channel amqp others publisher_channel input_only_mode 100 5 5 c)

  unfoldable pub prepare_consumer : Client B Conn → Prepared × Client B Conn
  unfolding new_channel
  prepare_consumer c =
      prepared consumer_channel (new_channel amqp others consumer_channel output_only 100 5 5 c)
