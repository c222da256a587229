-- ===== src/Channel/Rabbit/Reconnect.antt =====
-- The loop that connects again.
use ormus.Prelude.{ℕ, zero, suc, ◌+◌, ◌*◌, ◌<◌, ◌≡◌, refl, arith, Exec, ok, err, Error}
use ormus.Channel.Rabbit.{Client, connect, done, reconnect}

module _ {B Conn : Type 0} (dial : Exec B Conn) where
  -- The broker after some dials.
  abbrev pub after_dials : ℕ → B → B
  after_dials zero b = b
  after_dials (suc n) b = after_dials n (dial b).1

  -- A dial that is refused.
  abbrev pub Refused : B → Type 0
  Refused b = (e : Error) × ((dial b).0 ≡ err e)

  one_time : (second : ℕ) → 1 * second ≡ second
  one_time second = omega arith

  one_more_time : (second n : ℕ) → suc (suc n) * second ≡ second + suc n * second
  one_more_time second n = grind arith

  -- Where the first `n` dials are refused and the next one gives a connection, the loop ends with
  -- it, after one sleep for each attempt; fuel for one attempt more than were refused is enough.
  -- Nothing but the broker and the connection changes.
  pub reconnect_lem :
      (second fuel n : ℕ) (c : Client B Conn) (conn : Conn)
      → ((k : ℕ) → k < n → Refused (after_dials k c.broker))
      → (dial (after_dials n c.broker)).0 ≡ ok conn
      → n < fuel
      → reconnect dial second fuel c ≡ record {
        ended = done;
        client = record c { broker = after_dials (suc n) c.broker; connection = conn };
        slept = suc n * second;
      }
  unfolding reconnect connect
  reconnect_lem second zero n c conn refused accepted enough = absurd (omega arith)
  reconnect_lem second (suc fuel) zero c conn refused accepted enough =
      rw accepted (rw (one_time second) refl)
  reconnect_lem second (suc fuel) (suc n) c conn refused accepted enough =
      let (e, said) = refused 0 (omega arith) in
      let rest =
        reconnect_lem second fuel n (record c { broker = (dial c.broker).1 }) conn
          (λ k h. refused (suc k) (omega arith)) accepted (omega arith) in
      rw (said, rest, one_more_time second n) refl
