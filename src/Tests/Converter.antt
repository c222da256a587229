-- ===== src/Tests/Converter.antt =====
-- The converter of channels on a few calls, and one of its loops with bodies that are the events
-- themselves.
use ormus.Prelude.TakeAt.{count}
use ormus.Prelude.{ℕ, ◌≡◌, if◌then◌else◌, List, [], ◌∷◌, none, some, err, plain, ok}
use ormus.Converter.{
  Kind, output_processed_event, output_task, input_task, Call, new_converter, run,
}
use ormus.Converter.Loops.{Agrees, asked, is_loop, run-new_converter-Agrees}
use ormus.Converter.Conversion as Conversion
use ormus.Converter.Conversion.{Json, Step, take, stop, go, receive, code_of, new_conversion}
use ormus.Converter.Conversion.Complete.{Complete, run-new_conversion-Complete}
use ormus.Tests.Pipes.{Message, decode, some_event}

abbrev calls : List Call
calls =
    (output_task, 1, 10)
    ∷ (input_task, 2, 10)
    ∷ (output_task, 1, 20)
    ∷ (output_processed_event, 1, 10)
    ∷ []

run-new_converter-Agrees_example :
    ((k : Kind) (o : ℕ)
      → count (is_loop k o) (run calls (new_converter 3)).loops
        ≡ (if asked k o calls then 1 else 0))
    × Agrees (run calls (new_converter 3))
run-new_converter-Agrees_example = run-new_converter-Agrees calls 3

abbrev json : Json Message
json = record {
  unmarshal_bytes_to_processed_event = decode;
  unmarshal_bytes_to_task = λ m. err (plain "unexpected end of JSON input");
  marshal_task = λ t. ok none;
  marshal_delivery_task = λ r. ok none;
}

-- One message fails; the loop returns before the other is received.
abbrev steps : List (Step Message)
steps = take (some some_event) ∷ take none ∷ go 0 ∷ go 0 ∷ stop ∷ go 0 ∷ receive 0 ∷ []

run-new_conversion-Complete_example :
    Complete
      (code_of json output_processed_event)
      1
      (Conversion.run (code_of json output_processed_event) 1 steps new_conversion)
run-new_conversion-Complete_example =
    run-new_conversion-Complete json output_processed_event 1 steps
