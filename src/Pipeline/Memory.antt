-- ===== src/Pipeline/Memory.antt =====
-- destination/taskmanager/adapter/inmemorytaskmanager: the queue in memory, a Go channel of 100
-- events; `none` is a send that blocks. `Worker.Run` of this package starts nothing that reads it.
use mathlib.Core.List.{append_assoc}
use ormus.Prelude.{
  ℕ, ◌+◌, ◌≤◌, ◌<◌, ◌≡◌, refl, Option, none, some, List, [], ◌∷◌, ◌++◌, ltb, length, arith,
  if◌then◌else◌, length-append, ◌⊎◌, ◌∙◌, inl, inr,
}
use ormus.Event.{ProcessedEvent}

abbrev pub channel_size : ℕ
channel_size = 100

unfoldable pub enqueue : ProcessedEvent → List ProcessedEvent → Option (List ProcessedEvent)
enqueue pe events = if ltb (length events) channel_size then some (events ++ pe ∷ []) else none

unfoldable pub publish : ProcessedEvent → List ProcessedEvent → Option (List ProcessedEvent)
unfolding enqueue
publish e events = enqueue e events

-- A coordinator that publishes one event after another: the queue, and the events that it has not
-- sent when a send blocks.
abbrev pub or_blocked :
    Option (List ProcessedEvent)
    → List ProcessedEvent
    → List ProcessedEvent
    → (List ProcessedEvent → List ProcessedEvent × List ProcessedEvent)
    → List ProcessedEvent × List ProcessedEvent
or_blocked none events unsent next = (events, unsent)
or_blocked (some events') events unsent next = next events'

unfoldable pub publish_all :
    List ProcessedEvent → List ProcessedEvent → List ProcessedEvent × List ProcessedEvent
publish_all [] events = (events, [])
publish_all (e ∷ es) events = or_blocked (publish e events) events (e ∷ es) (publish_all es)

publish-cases :
    (e : ProcessedEvent) (events : List ProcessedEvent)
    → length events ≤ channel_size
    → ((length events < channel_size) × (publish e events ≡ some (events ++ e ∷ [])))
      ⊎ ((length events ≡ channel_size) × (publish e events ≡ none))
unfolding publish
publish-cases e events h = ground arith

-- Events that fit into the channel are all taken, in their order. Of more events the first 100 are
-- taken and the rest is never sent: whatever the queue holds, its events and those not sent are, in
-- order, those that were there and those to publish, the queue has no more than 100, and where an
-- event is left the queue is full.
pub publish_all_lem :
    (es events : List ProcessedEvent)
    → length events ≤ channel_size
    → let (queue, unsent) = publish_all es events in
      (queue ++ unsent ≡ events ++ es)
      × (length queue ≤ channel_size)
      × (length events + length es ≤ channel_size → unsent ≡ [])
      × (channel_size < length events + length es → length queue ≡ channel_size)
unfolding publish_all
publish_all_lem [] events h = (refl, h, λ k. refl, λ k. absurd (omega arith))
publish_all_lem (e ∷ es) events h = elim (publish-cases e events h) [
  | inl (room, sent) ↦
      let (kept, bounded, all_sent, filled) =
        publish_all_lem es (events ++ e ∷ [])
          (omega (arith, room, length-append events (e ∷ []))) in
      let grown = length-append events (e ∷ []) in
      rw sent (
        kept ∙ append_assoc events (e ∷ []) es,
        bounded,
        λ k. all_sent (omega (arith, k, grown)),
        λ k. filled (omega (arith, k, grown)),
      )
  | inr (full, blocked) ↦ rw blocked (refl, h, λ k. absurd (omega (arith, k, full)), λ k. full)
]
