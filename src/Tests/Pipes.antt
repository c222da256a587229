-- ===== src/Tests/Pipes.antt =====
-- Messages on their way to the worker. A body is the event itself or nothing, with its length.
use ormus.Prelude.{
  ℕ, String, ◌≡◌, refl, List, [], ◌∷◌, Table, lookup, Outcome, ok, err, plain, Option, some, none,
  ◌+◌,
}
use ormus.Event.{ProcessedEvent, zero_event, zero_integration, destination_type}
use ormus.Pipeline.{Pipe, Ack, TaskPublisherMap, publish_json}

abbrev pub Message : Type 0
Message = Option ProcessedEvent

abbrev pub size : Message → ℕ
size none = 0
size (some e) = 2

abbrev pub decode : Message → Outcome ProcessedEvent
decode none = err (plain "unexpected end of JSON input")
decode (some e) = ok e

abbrev pub encode : ProcessedEvent → Outcome Message
encode e = ok (some e)

abbrev pub carrier : ProcessedEvent → Table String
carrier e = ("traceparent", "00-1") ∷ []

abbrev pub some_event : ProcessedEvent
some_event = record zero_event {
  message_id = "m1";
  integration = record zero_integration {
    id = "i1";
    metadata = record { id = "d1"; name = "hook"; slug = "webhook"; categories = [] };
  };
}

-- The broker counts what was acknowledged; the other one has lost the connection.
abbrev pub takes : Ack ℕ
takes n = (none, n + 1)

abbrev refuses : Ack ℕ
refuses n = (some (plain "channel closed"), n)

abbrev start : Pipe ℕ
start = record { events = []; broker = 0 }

abbrev publishers : TaskPublisherMap (List Message)
publishers = ("webhook", publish_json encode) ∷ []

pub round : (d : ProcessedEvent) (j : Message) → encode d ≡ ok j → decode j ≡ ok d
round d none h = cc
round d (some e) h = cc

has_publisher : lookup (destination_type some_event) publishers ≡ some (publish_json encode)
unfolding lookup destination_type
has_publisher = refl
