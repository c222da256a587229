-- ===== src/Delivery.antt =====
-- destination/taskdelivery: the response of a delivery, the handler interface, the map from
-- destination types to handlers, and the two handlers of adapters/. A handler acts on the third
-- party: `D` is the state of that. Of the fake handler the text that it logs is left out.
use ormus.Prelude.{ℕ, ◌+◌, ◌%◌, ◌^◌, String, Option, none, Table, insert, Exec, return}
use ormus.Event.{DestinationType}
use ormus.Task.{Task, IntegrationDeliveryStatus, success_task_status}

pub record DeliveryTaskResponse : Type 0 where
  pub failed_reason : Option String
  pub attempts : ℕ
  pub delivery_status : IntegrationDeliveryStatus

-- `DeliveryHandler.Handle`
abbrev pub DeliveryHandler : Type 0 → Type 0
DeliveryHandler D = Task → Exec D DeliveryTaskResponse

abbrev pub Mapper : Type 0 → Type 0
Mapper D = Table (DeliveryHandler D)

unfoldable pub register : {D : Type 0} → DestinationType → DeliveryHandler D → Mapper D → Mapper D
register destination_type dh mapper = insert destination_type dh mapper

-- `FakeHandler.Handle`; `send` is what reaches the outside, the two seconds of sleep included.
unfoldable pub fake_handle : {D : Type 0} → (Task → D → D) → DeliveryHandler D
fake_handle send t d =
    return (record { attempts = 1; failed_reason = none; delivery_status = success_task_status })
      (send t d)

-- `WebhookHandler.Handle`: `t.Attempts + 1` is a `uint8`.
unfoldable pub webhook_handle : {D : Type 0} → DeliveryHandler D
webhook_handle t = return (record {
  failed_reason = none;
  delivery_status = success_task_status;
  attempts = (t.attempts + 1) % 2 ^ 8;
})
