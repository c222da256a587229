-- ===== src/Converter/Again.antt =====
-- Calls of a converter that are made again.
use ormus.Prelude.{ℕ, ◌≡◌, refl, Option, none, some, List, [], ◌∷◌, Option-cases, inl, inr}
use ormus.Converter.{
  Kind, output_processed_event, output_task, input_task, input_delivery_task, Converter,
  convert_new, convert, Call, call, run,
}
use ormus.Converter.Loops.{put-other, put-own}

-- The kind and the channel of a call.
abbrev pub entry_of : Call → Converter → Option ℕ
entry_of (k, o, size) c = c.table k o

convert_new-entry :
    (e : Option ℕ) (k j : Kind) (o p size n : ℕ) (c : Converter)
    → c.table k o ≡ e
    → c.table j p ≡ some n
    → (convert_new e k o size c).1.table j p ≡ some n
convert_new-entry (some m) k j o p size n c h e = e
convert_new-entry none k j o p size n c h e = put-other k j o p c.next n c.table h e

call-entry :
    (x y : Call) (n : ℕ) (c : Converter) → entry_of y c ≡ some n → entry_of y (call x c).1 ≡ some n
unfolding convert
call-entry (output_processed_event, o, size) (j, p, s) n c e =
    convert_new-entry (c.table output_processed_event o) output_processed_event j o p size n c refl
      e
call-entry (output_task, o, size) (j, p, s) n c e =
    convert_new-entry (c.table output_task o) output_task j o p size n c refl e
call-entry (input_task, o, size) (j, p, s) n c e =
    convert_new-entry (c.table input_task o) input_task j o p size n c refl e
call-entry (input_delivery_task, o, size) (j, p, s) n c e =
    convert_new-entry (c.table input_delivery_task o) input_delivery_task j o p size n c refl e

run-entry :
    (calls : List Call) (y : Call) (n : ℕ) (c : Converter)
    → entry_of y c ≡ some n
    → entry_of y (run calls c) ≡ some n
unfolding run
run-entry [] y n c e = e
run-entry (x ∷ calls) y n c e =
    run-entry calls y n (call x c).1 (unfold convert in call-entry x y n c e)

convert-own :
    (k : Kind) (o size : ℕ) (c : Converter)
    → let (n, d) = convert k o size c in d.table k o ≡ some n
unfolding convert
convert-own k o size c = elim (Option-cases (c.table k o)) [
  | inl e ↦ rw e (put-own k o c.next c.table)
  | inr (n, e) ↦ rw e e
]

call-own : (x : Call) (c : Converter) → let (n, d) = call x c in entry_of x d ≡ some n
call-own (output_processed_event, o, size) c = convert-own output_processed_event o size c
call-own (output_task, o, size) c = convert-own output_task o size c
call-own (input_task, o, size) c = convert-own input_task o size c
call-own (input_delivery_task, o, size) c = convert-own input_delivery_task o size c

call-again : (x : Call) (n : ℕ) (c : Converter) → entry_of x c ≡ some n → call x c ≡ (n, c)
unfolding convert
call-again (output_processed_event, o, size) n c e = rw e refl
call-again (output_task, o, size) n c e = rw e refl
call-again (input_task, o, size) n c e = rw e refl
call-again (input_delivery_task, o, size) n c e = rw e refl

-- A call that is made again, with any calls in between, gives the channel that it gave first, and
-- starts nothing.
pub call-run-call :
    (x : Call) (calls : List Call) (c : Converter)
    → let (n, d) = call x c in call x (run calls d) ≡ (n, run calls d)
call-run-call x calls c =
    let (n, d) = call x c in call-again x n (run calls d) (run-entry calls x n d (call-own x c))
