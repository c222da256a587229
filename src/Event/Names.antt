-- ===== src/Event/Names.antt =====
-- When two processed events have one ID.
use text.Mathlib.TextLemmas.{append_assoc, append_cancel_left, append_cancel_right}
use ormus.Prelude.{String, ◌≡◌, sym, ap, ◌∙◌, concat}
use ormus.Event.{ProcessedEvent, id}

-- Of two events of one message, the IDs are equal only if the integrations' IDs are; of two events
-- for one integration, only if the messages' IDs are.
pub id_determines :
    (d e : ProcessedEvent)
    → id d ≡ id e
    → (d.message_id ≡ e.message_id → d.integration.id ≡ e.integration.id)
      × (d.integration.id ≡ e.integration.id → d.message_id ≡ e.message_id)
unfolding id
id_determines d e h = (
  λ p.
      append_cancel_left (concat e.message_id "-") d.integration.id e.integration.id
        (ap (λ t. concat (concat t "-") d.integration.id) (sym p) ∙ h),
  λ p. append_cancel_right d.message_id e.message_id "-" (
      append_cancel_right (concat d.message_id "-") (concat e.message_id "-") d.integration.id
        (h ∙ ap (λ t. concat (concat e.message_id "-") t) (sym p))),
)

-- The dash also occurs in the IDs that it joins, so the ID of the pair is ambiguous: the events of
-- message `m` for integration `a-i` and of message `m-a` for integration `i` have one ID.
pub id_ambiguous :
    (d e : ProcessedEvent) (m a i : String)
    → d.message_id ≡ m
    → d.integration.id ≡ concat (concat a "-") i
    → e.message_id ≡ concat (concat m "-") a
    → e.integration.id ≡ i
    → id d ≡ id e
unfolding id
id_ambiguous d e m a i p q r s = rw (p, q, r, s) (simp append_assoc)
