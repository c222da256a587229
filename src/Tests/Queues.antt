-- ===== src/Tests/Queues.antt =====
-- The queue that dials for each event, on a broker that is a count and a list of bodies.
use ormus.Prelude.{ℕ, suc, ◌-◌, String, refl, arith, List, ◌∷◌, Outcome, ok}
use ormus.Pipeline.Dialled.{Library, enqueue}
use ormus.Pipeline.Dialled.Closed.{AddsJson, Counts, Opens, enqueue-Adds}

abbrev Broker : Type 0
Broker = ℕ × List String

abbrev unclosed : Broker → ℕ
unclosed b = b.0

abbrev published : Broker → List String
published b = b.1

abbrev library : Library Broker ℕ ℕ
library = record {
  dial = λ b. (ok 1, (suc b.0, b.1));
  open_channel = λ c b. (ok 2, (suc b.0, b.1));
  queue_declare = λ ch q b. (ok q, b);
  publish_with_context = λ ch q body b. (ok tt, (b.0, body ∷ b.1));
  close_channel = λ ch b. (b.0 - 1, b.1);
  close_connection = λ c b. (b.0 - 1, b.1);
}

dial-Opens : Opens unclosed published library.dial library.close_connection
dial-Opens = record {
  counts = λ b. refl;
  keeps = λ b. refl;
  closes = λ a b n h. omega arith;
  kept = λ a b. refl;
}

open_channel-Opens :
    (c : ℕ) → Opens unclosed published (library.open_channel c) library.close_channel
open_channel-Opens c = record {
  counts = λ b. refl;
  keeps = λ b. refl;
  closes = λ a b n h. omega arith;
  kept = λ a b. refl;
}

abbrev encode : String → Outcome String
encode pe = ok pe

library-Counts : Counts library encode "tasks" unclosed published
library-Counts = record {
  connection = dial-Opens;
  channel = open_channel-Opens;
  declared = λ ch q b. refl;
  declared_same = λ ch q b. refl;
  publishes = λ ch q body b. (refl, refl);
}

enqueue-Adds_example :
    AddsJson unclosed published (encode "{}") (enqueue library encode "tasks" "{}")
enqueue-Adds_example = enqueue-Adds library encode "tasks" unclosed published "{}" library-Counts
