-- ===== src/Channel.antt =====
-- pkg/channel: `Mode` (mode.go), the interface `Adapter` (adapter.go) and what its two
-- implementations have in common, the table of channels by name (adapter/simple/adapter.go and
-- adapter/rabbitmq/adapter.go). `Simple` is the channel in memory, `Retry` the publisher of the
-- channel over RabbitMQ.
pub mod Lookups
pub mod Simple
pub mod Retry
pub mod Rabbit
use ormus.Prelude.{
  ℕ, zero, suc, ◌+◌, String, Option, none, some, Bool, true, false, ◌||◌, List, [], ◌∷◌, ◌++◌,
  Table, lookup, insert, Outcome, ok, err, Error, plain, concat, str_eq, if◌then◌else◌,
}

abbrev pub Mode : Type 0
Mode = String

abbrev pub input_only_mode : Mode
input_only_mode = "input-only"

abbrev pub output_only : Mode
output_only = "output-only"

abbrev pub both_mode : Mode
both_mode = "both"

unfoldable pub is_output_mode : Mode → Bool
is_output_mode m = str_eq m output_only || str_eq m both_mode

unfoldable pub is_input_mode : Mode → Bool
is_input_mode m = str_eq m input_only_mode || str_eq m both_mode

-- A channel, with the Go channels that it hands out as `In` and `Out`.
pub record Channel (In Out : Type 0) : Type 0 where
  pub mode : Mode
  pub input_channel : In
  pub output_channel : Out
  pub number_instants : ℕ
  pub max_retry_policy : ℕ

abbrev pub not_found : String → Error
not_found name = plain (concat "channel not found: " name)

module _ {In Out : Type 0} where
  abbrev pub found {ℓ} :
      {A : Type ℓ} → String → (Channel In Out → A) → Option (Channel In Out) → Outcome A
  found name f none = err (not_found name)
  found name f (some c) = ok (f c)

  -- `make` is `newChannel`, which opens the two channels of the size and starts the goroutines.
  unfoldable pub new_channel :
      (Mode → ℕ → ℕ → ℕ → Channel In Out)
      → String
      → Mode
      → ℕ
      → ℕ
      → ℕ
      → Table (Channel In Out)
      → Table (Channel In Out)
  new_channel make name mode buffer_size number_instants max_retry_policy channels =
      insert name (make mode buffer_size number_instants max_retry_policy) channels

  unfoldable pub get_input_channel : Table (Channel In Out) → String → Outcome In
  get_input_channel channels name = found name (λ c. c.input_channel) (lookup name channels)

  unfoldable pub get_output_channel : Table (Channel In Out) → String → Outcome Out
  get_output_channel channels name = found name (λ c. c.output_channel) (lookup name channels)

  unfoldable pub get_mode : Table (Channel In Out) → String → Outcome Mode
  get_mode channels name = found name (λ c. c.mode) (lookup name channels)

-- `startWithContext` of rabbitmq/channel.go: the goroutines that each round of its loop starts.
pub data Started : Type 0 where
  input_worker output_worker : Started

unfoldable pub start_workers : Mode → ℕ → List Started
start_workers m zero = []
start_workers m (suc n) =
    (if is_input_mode m then input_worker ∷ [] else [])
    ++ ((if is_output_mode m then output_worker ∷ [] else []) ++ start_workers m n)
