-- ===== src/Channel/Lookups.antt =====
-- The table of channels, and the goroutines of a channel.
use ormus.Prelude.{
  ℕ, zero, suc, String, ◌≡◌, refl, List, [], ◌∷◌, Table, lookup-insert, ok, arith, str_eq,
  if◌then◌else◌, Bool-cases, inl, inr,
}
use ormus.Channel.{
  Mode, is_output_mode, is_input_mode, Channel, new_channel, get_input_channel, get_output_channel,
  get_mode, Started, input_worker, output_worker, start_workers,
}

module _ {In Out : Type 0} (make : Mode → ℕ → ℕ → ℕ → Channel In Out) where
  -- After `NewChannel`, the three getters return the parts of the new channel under its name, also
  -- where the name was taken before, and under any other name what they returned before, the error
  -- for a name that is not there included.
  pub get-new_channel :
      (name other : String) (mode : Mode) (size instants retries : ℕ)
      (channels : Table (Channel In Out))
      → let after = new_channel make name mode size instants retries channels in
        let c = make mode size instants retries in
        (get_input_channel after other
          ≡ (if str_eq name other then ok c.input_channel else get_input_channel channels other))
        × (get_output_channel after other ≡ (
            if str_eq name other then ok c.output_channel else get_output_channel channels other))
        × (get_mode after other
            ≡ (if str_eq name other then ok c.mode else get_mode channels other))
  unfolding new_channel get_input_channel get_output_channel get_mode
  get-new_channel name other mode size instants retries channels =
      rw (lookup-insert name other (make mode size instants retries) channels)
        (elim (Bool-cases (str_eq name other)) [
          | inl e ↦ rw e (refl, refl, refl)
          | inr e ↦ rw e (refl, refl, refl)
        ])

abbrev pub inputs : List Started → ℕ
inputs [] = 0
inputs (input_worker ∷ xs) = suc (inputs xs)
inputs (output_worker ∷ xs) = inputs xs

abbrev pub outputs : List Started → ℕ
outputs [] = 0
outputs (input_worker ∷ xs) = outputs xs
outputs (output_worker ∷ xs) = suc (outputs xs)

-- A channel over RabbitMQ starts, of its number of instants, that many input workers exactly if its
-- mode has an input, and that many output workers exactly if it has an output; a mode other than the
-- three constants starts none.
pub start_workers-counts :
    (m : Mode) (n : ℕ)
    → (inputs (start_workers m n) ≡ (if is_input_mode m then n else 0))
      × (outputs (start_workers m n) ≡ (if is_output_mode m then n else 0))
unfolding start_workers
start_workers-counts m zero = ground arith
start_workers-counts m (suc n) = ground (arith, start_workers-counts m n)
