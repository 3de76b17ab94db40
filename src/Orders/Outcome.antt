-- ===== src/Orders/Outcome.antt =====
-- Who ended an order, and why (common/order-outcome.ts).
use delivery_plus.Prelude.{Option, none, some, [], ◌∷◌, ◌++◌}
use delivery_plus.Shared.Enums.{UserRole, OrderStatus}
use delivery_plus.Shared.Text.{Text, text, trim}

pub data OrderEndedBy : Type 0 where
  customer restaurant system payment : OrderEndedBy

pub data OrderPaymentStatus : Type 0 where
  pending completed failed : OrderPaymentStatus

pub record OrderOutcome : Type 0 where
  pub cancelled_by : OrderEndedBy
  pub cancellation_reason : Text

-- `given ? <lead-in>: ${given} : <sentence>.`
abbrev with_reason : Text → Option Text → Text
with_reason sentence none = sentence ++ text "."
with_reason sentence (some reason) = elim (trim reason) [
  | [] ↦ sentence ++ text "."
  | c ∷ t ↦ sentence ++ text ": " ++ (c ∷ t)
]

-- The `switch` over the role.
abbrev cancelled_outcome : UserRole → Option Text → OrderOutcome
cancelled_outcome UserRole.customer reason = record {
  cancelled_by = OrderEndedBy.customer;
  cancellation_reason = text "You cancelled this order.";
}
cancelled_outcome UserRole.restaurant_owner reason = record {
  cancelled_by = restaurant;
  cancellation_reason = with_reason (text "The restaurant cancelled this order") reason;
}
cancelled_outcome UserRole.driver reason = record {
  cancelled_by = system;
  cancellation_reason = with_reason (text "Delivery Plus cancelled this order") reason;
}
cancelled_outcome UserRole.admin reason = record {
  cancelled_by = system;
  cancellation_reason = with_reason (text "Delivery Plus cancelled this order") reason;
}

unfoldable pub outcome_for : OrderStatus → UserRole → Option Text → Option OrderOutcome
unfolding trim
outcome_for OrderStatus.failed role reason = some (record {
  cancelled_by = payment;
  cancellation_reason = text "Your payment was declined, so the order was not placed.";
})
outcome_for OrderStatus.cancelled role reason = some (cancelled_outcome role reason)
outcome_for _ role reason = none
