-- ===== src/Pipeline/Dialled.antt =====
-- The queue that dials the broker for each event:
-- destination/taskmanager/adapter/rabbitmqtaskmanager/queue.go. The client's library is a
-- parameter, over a state that holds the broker and the client; the timeout is the library's.
pub mod Closed
use ormus.Prelude.{String, Exec, Outcome, ok, err, panic, Error, ◌>>=◌}

pub record Library (B Conn Ch : Type 0) : Type 0 where
  pub dial : Exec B Conn
  pub open_channel : Conn → Exec B Ch
  -- the name of the queue that was declared
  pub queue_declare : Ch → String → Exec B String
  pub publish_with_context : Ch → String → String → Exec B (Unit {0})
  pub close_channel : Ch → B → B
  pub close_connection : Conn → B → B

-- `failOnError`, which panics.
abbrev pub failed_on : {A : Type 0} → Outcome A → Outcome A
failed_on (ok a) = ok a
failed_on (err e) = panic
failed_on panic = panic

abbrev pub fail_on_error : {S A : Type 0} → Exec S A → Exec S A
fail_on_error m s = let (o, t) = m s in (failed_on o, t)

-- What is deferred is done also after an error and a panic.
abbrev pub deferring : {S A : Type 0} → (S → S) → Exec S A → Exec S A
deferring close m s = let (o, t) = m s in (o, close t)

module _ {B Conn Ch E : Type 0} (lib : Library B Conn Ch) (marshal : E → Outcome String)
    (name : String) where
  abbrev pub publish_on : E → Ch → Exec B (Unit {0})
  publish_on pe ch = fail_on_error (lib.queue_declare ch name) >>= λ rq.
      (λ s. (marshal pe, s)) >>= λ json_event.
      fail_on_error (lib.publish_with_context ch rq json_event)

  unfoldable pub enqueue : E → Exec B (Unit {0})
  enqueue pe = fail_on_error lib.dial >>= λ conn. deferring (lib.close_connection conn) (
      fail_on_error (lib.open_channel conn) >>= λ ch.
      deferring (lib.close_channel ch) (publish_on pe ch))
