-- ===== src/Converter.antt =====
-- pkg/channel/converter.go: channels of bytes seen as channels of events, tasks and answers. Each
-- of its four operations keeps a table of the channels that it has converted, and starts a loop for
-- each new one; what a loop does is in Conversion. A channel is a number here, and each operation a
-- kind; the two tables that no operation uses are left out.
pub mod Loops
pub mod Again
pub mod Conversion
use ormus.Prelude.{
  ℕ, suc, Option, none, some, Bool, true, false, List, [], ◌∷◌, ◌==◌, ◌&&◌, if◌then◌else◌,
}

pub data Kind : Type 0 where
  output_processed_event output_task input_task input_delivery_task : Kind

abbrev pub same_kind : Kind → Kind → Bool
same_kind output_processed_event output_processed_event = true
same_kind output_task output_task = true
same_kind input_task input_task = true
same_kind input_delivery_task input_delivery_task = true
same_kind _ _ = false

-- A loop between a channel of bytes and the one that was made for it.
pub record Loop : Type 0 where
  pub kind : Kind
  pub original : ℕ
  pub converted : ℕ
  pub buffer_size : ℕ

pub record Converter : Type 0 where
  pub table : Kind → ℕ → Option ℕ
  -- the first channel that is not made yet
  pub next : ℕ
  pub loops : List Loop

abbrev pub new_converter : ℕ → Converter
new_converter next = record { table = λ k o. none; next = next; loops = [] }

abbrev pub put : Kind → ℕ → ℕ → (Kind → ℕ → Option ℕ) → Kind → ℕ → Option ℕ
put k o n table j p = if same_kind k j && (o == p) then some n else table j p

abbrev pub convert_new : Option ℕ → Kind → ℕ → ℕ → Converter → ℕ × Converter
convert_new (some n) k o size c = (n, c)
convert_new none k o size c = (
  c.next,
  record {
    table = put k o c.next c.table;
    next = suc c.next;
    loops = record { kind = k; original = o; converted = c.next; buffer_size = size } ∷ c.loops;
  },
)

unfoldable pub convert : Kind → ℕ → ℕ → Converter → ℕ × Converter
convert k o size c = convert_new (c.table k o) k o size c

-- The four operations.
abbrev pub convert_to_output_processed_event_channel : ℕ → ℕ → Converter → ℕ × Converter
convert_to_output_processed_event_channel o size c = convert output_processed_event o size c

abbrev pub convert_to_output_task_channel : ℕ → ℕ → Converter → ℕ × Converter
convert_to_output_task_channel o size c = convert output_task o size c

abbrev pub convert_to_input_task_channel : ℕ → ℕ → Converter → ℕ × Converter
convert_to_input_task_channel o size c = convert input_task o size c

abbrev pub convert_to_input_delivery_task_channel : ℕ → ℕ → Converter → ℕ × Converter
convert_to_input_delivery_task_channel o size c = convert input_delivery_task o size c

-- A call: its kind, its channel and its buffer's size.
abbrev pub Call : Type 0
Call = Kind × ℕ × ℕ

abbrev pub call : Call → Converter → ℕ × Converter
call (output_processed_event, o, size) c = convert_to_output_processed_event_channel o size c
call (output_task, o, size) c = convert_to_output_task_channel o size c
call (input_task, o, size) c = convert_to_input_task_channel o size c
call (input_delivery_task, o, size) c = convert_to_input_delivery_task_channel o size c

unfoldable pub run : List Call → Converter → Converter
unfolding convert
run [] c = c
run (x ∷ calls) c = run calls (call x c).1
