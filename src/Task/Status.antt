-- ===== src/Task/Status.antt =====
-- The numeric texts of the statuses, and which statuses a worker acts on.
use ormus.Prelude.{zero, suc, ◌≤◌, ◌<◌, String, none, some, ◌≡◌, refl, true, false, arith, ◌==◌}
use ormus.Task.{
  IntegrationDeliveryStatus, success_task_status, to_string, to_numeric_string, is_valid,
  can_be_executed, is_broadcast, numeric_string_to_integration_delivery_status,
}

-- The texts written for a status are there exactly for the five named values, and each reads back
-- as the status that it was written for.
pub numeric_string_round_trip :
    (t : IntegrationDeliveryStatus)
    → ((t ≤ success_task_status)
        → (s : String) × (to_numeric_string t ≡ some s)
          × (numeric_string_to_integration_delivery_status s ≡ t))
      × (success_task_status < t → (to_numeric_string t ≡ none) × (to_string t ≡ none))
unfolding to_numeric_string to_string numeric_string_to_integration_delivery_status
numeric_string_round_trip zero = (λ h. ("0", refl, refl), λ h. elim h [ ])
numeric_string_round_trip (suc zero) = (λ h. ("1", refl, refl), λ h. absurd (omega arith))
numeric_string_round_trip (suc (suc zero)) = (λ h. ("2", refl, refl), λ h. absurd (omega arith))
numeric_string_round_trip (suc (suc (suc zero))) =
    (λ h. ("3", refl, refl), λ h. absurd (omega arith))
numeric_string_round_trip (suc (suc (suc (suc zero)))) =
    (λ h. ("4", refl, refl), λ h. absurd (omega arith))
numeric_string_round_trip (suc (suc (suc (suc (suc t))))) =
    (λ h. absurd (omega arith), λ h. (refl, refl))

-- Any text at all reads as one of the five statuses, so a status that was read has its texts.
pub numeric_string-le :
    (s : String) → numeric_string_to_integration_delivery_status s ≤ success_task_status
unfolding numeric_string_to_integration_delivery_status
numeric_string-le s = ground arith

-- Of the statuses that can be executed, only the retriable failed one is a broadcast; and a valid
-- status that cannot be executed is the unretriable failure or the success.
pub can_be_executed_iff :
    (t : IntegrationDeliveryStatus)
    → (can_be_executed t ≡ true → (is_valid t ≡ true) × (is_broadcast t ≡ (t == 2)))
      × (is_valid t ≡ true
          → can_be_executed t ≡ false
          → (is_broadcast t ≡ true) × (3 ≤ t) × (t ≤ 4))
unfolding can_be_executed is_valid is_broadcast
can_be_executed_iff t = (λ h. ground arith, λ v h. ground arith)

pub to_string_total :
    (t : IntegrationDeliveryStatus)
    → t ≤ success_task_status
    → (s : String) × (to_string t ≡ some s)
unfolding to_string
to_string_total zero h = (_, refl)
to_string_total (suc zero) h = (_, refl)
to_string_total (suc (suc zero)) h = (_, refl)
to_string_total (suc (suc (suc zero))) h = (_, refl)
to_string_total (suc (suc (suc (suc zero)))) h = (_, refl)
to_string_total (suc (suc (suc (suc (suc t))))) h = absurd (omega arith)
