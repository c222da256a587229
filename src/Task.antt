-- ===== src/Task.antt =====
-- destination/entity/taskentity/task.go: the delivery status of a task, which is a `uint8` with
-- five named values, its two texts, and the task that a processed event starts. The unmarshalling
-- of tasks and events is encoding/json's.
pub mod Status
use ormus.Prelude.{
  ℕ, String, Option, none, Bool, ◌&&◌, ◌||◌, not, List, [], ◌∷◌, ltb, leb, ◌==◌, str_eq, get_elem?,
  if◌then◌else◌,
}
use ormus.Event.{ProcessedEvent, DestinationType, id, zero_event}

abbrev pub IntegrationDeliveryStatus : Type 0
IntegrationDeliveryStatus = ℕ

abbrev pub invalid_task_status : IntegrationDeliveryStatus
invalid_task_status = 0

abbrev pub not_executed_task_status : IntegrationDeliveryStatus
not_executed_task_status = 1

abbrev pub retriable_failed_task_status : IntegrationDeliveryStatus
retriable_failed_task_status = 2

abbrev pub un_retriable_failed_task_status : IntegrationDeliveryStatus
un_retriable_failed_task_status = 3

abbrev pub success_task_status : IntegrationDeliveryStatus
success_task_status = 4

pub record Task : Type 0 where
  pub id : String
  pub delivery_status : IntegrationDeliveryStatus
  pub attempts : ℕ
  pub failed_reason : Option String
  pub processed_event : ProcessedEvent
  pub created_at : ℕ
  pub updated_at : ℕ

-- `IntegrationDeliveryStatus.String`: the index panics outside the five.
unfoldable pub to_string : IntegrationDeliveryStatus → Option String
to_string t =
    get_elem?
      ("invalid" ∷ "not_executed" ∷ "retriable_failed" ∷ "unretriable_failed" ∷ "success" ∷ []) t

unfoldable pub to_numeric_string : IntegrationDeliveryStatus → Option String
to_numeric_string t = get_elem? ("0" ∷ "1" ∷ "2" ∷ "3" ∷ "4" ∷ []) t

unfoldable pub is_valid : IntegrationDeliveryStatus → Bool
is_valid t = ltb invalid_task_status t && leb t success_task_status

unfoldable pub can_be_executed : IntegrationDeliveryStatus → Bool
can_be_executed t = t == not_executed_task_status || t == retriable_failed_task_status

unfoldable pub is_broadcast : IntegrationDeliveryStatus → Bool
is_broadcast t = not (t == invalid_task_status) && not (t == not_executed_task_status)

unfoldable pub make_task_using_processed_event : ProcessedEvent → Task
make_task_using_processed_event pe = record {
  id = id pe;
  delivery_status = not_executed_task_status;
  attempts = 0;
  failed_reason = none;
  processed_event = pe;
  created_at = 0;
  updated_at = 0;
}

-- `Task.DestinationSlug`
unfoldable pub destination_slug : Task → DestinationType
destination_slug t = t.processed_event.integration.metadata.slug

unfoldable pub numeric_string_to_integration_delivery_status : String → IntegrationDeliveryStatus
numeric_string_to_integration_delivery_status s =
    if str_eq s "0"
    then invalid_task_status
    else if str_eq s "1"
    then not_executed_task_status
    else if str_eq s "2"
    then retriable_failed_task_status
    else if str_eq s "3"
    then un_retriable_failed_task_status
    else if str_eq s "4"
    then success_task_status
    else invalid_task_status

-- The zero value `Task{}`.
abbrev pub zero_task : Task
zero_task = record {
  id = "";
  delivery_status = invalid_task_status;
  attempts = 0;
  failed_reason = none;
  processed_event = zero_event;
  created_at = 0;
  updated_at = 0;
}
