-- ===== src/Pipeline/Consumer/Setup.antt =====
-- How the consumer of the processed events reaches its deliveries: the goroutine of `Consume` of
-- destination/processedevent/adapter/rabbitmqconsumer/adapter.go around its loop, which is a
-- parameter here. The client's library is one too, over a state that holds it and the broker.
pub mod Closed
use ormus.Prelude.{String, Bool, true, false, Exec, Outcome, ok, err, panic, ◌>>=◌, ◌>>◌}
use ormus.Pipeline.Dialled.{fail_on_error}

pub record Library (B Conn Ch Msgs : Type 0) : Type 0 where
  pub dial : Exec B Conn
  pub channel : Conn → Exec B Ch
  -- name, type, and whether it is durable
  pub exchange_declare : Ch → String → String → Bool → Exec B (Unit {0})
  -- name, and whether it is durable and exclusive; the name that the broker gave
  pub queue_declare : Ch → String → Bool → Bool → Exec B String
  pub queue_bind : Ch → String → String → String → Exec B (Unit {0})
  pub consume : Ch → String → Exec B Msgs
  pub close_channel : Ch → Exec B (Unit {0})
  pub close_connection : Conn → Exec B (Unit {0})

-- A panic of what is deferred, or one before it.
abbrev pub and_closed : {A : Type 0} → Outcome A → Outcome (Unit {0}) → Outcome A
and_closed (ok a) (ok _) = ok a
and_closed (ok a) (err e) = panic
and_closed (ok a) panic = panic
and_closed (err e) (ok _) = err e
and_closed (err e) (err x) = panic
and_closed (err e) panic = panic
and_closed panic o = panic

abbrev pub deferring : {B A : Type 0} → Exec B (Unit {0}) → Exec B A → Exec B A
deferring close m b = let (o, t) = m b in let (x, u) = close t in (and_closed o x, u)

module _ {B Conn Ch Msgs : Type 0} (lib : Library B Conn Ch Msgs) (topic : String)
    (loop : Msgs → Exec B (Unit {0})) where
  abbrev pub subscribe : Ch → Exec B Msgs
  subscribe ch =
      fail_on_error (lib.exchange_declare ch "processed-events-exchange" "topic" true) >>= λ _.
      fail_on_error (lib.queue_declare ch "" false true) >>= λ q.
      fail_on_error (lib.queue_bind ch q topic "processed-events-exchange") >>= λ _.
      fail_on_error (lib.consume ch q)

  unfoldable pub consume_deliveries : Exec B (Unit {0})
  consume_deliveries = fail_on_error lib.dial >>= λ conn. deferring (lib.close_connection conn) (
      fail_on_error (lib.channel conn) >>= λ ch.
      deferring (lib.close_channel ch) (subscribe ch >>= loop))
