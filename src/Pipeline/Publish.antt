-- ===== src/Pipeline/Publish.antt =====
-- Where an event goes from the coordinator on.
use ormus.Prelude.{
  String, none, some, ◌≡◌, List, [], ◌∷◌, ◌++◌, Table, lookup, Outcome, ok, err, Error,
}
use ormus.Event.{ProcessedEvent, destination_type}
use ormus.Pipeline.{
  no_publisher, refused, published, TaskPublisherMap, enqueue_json, publish_json, coordinate,
}

module _ {Body : Type 0} (encode : ProcessedEvent → Outcome Body) where
  -- The coordinator asks the publisher of the event's own destination type and no other: without
  -- one the queue is as it was, and with one the queue grows by the JSON of the event, under the
  -- new carrier, if there is any.
  coordinate_lem :
      (publishers : TaskPublisherMap (List Body)) (carrier : Table String) (pe : ProcessedEvent)
      (q : List Body)
      → let e = record pe { tracer_carrier = carrier } in
        let r = coordinate publishers carrier pe q in
        (lookup pe.integration.metadata.slug publishers ≡ none
          → r ≡ (no_publisher pe.integration.metadata.slug, q))
        × (lookup pe.integration.metadata.slug publishers ≡ some (publish_json encode)
            → ((json : Body) → encode e ≡ ok json → r ≡ (published, q ++ json ∷ []))
              × ((x : Error) → encode e ≡ err x → r ≡ (refused x, q)))
  unfolding coordinate destination_type publish_json enqueue_json
  coordinate_lem publishers carrier pe q = (
    λ none_there. rw none_there,
    λ there. (λ json made. rw (there, made), λ x failed. rw (there, failed)),
  )
