-- ===== src/Orders/Rules.antt =====
-- Who may ask for which order status (common/order-transition-rules.ts), and the groups that an
-- order list is filtered by (dto/list-orders-query.dto.ts).
use delivery_plus.Prelude.{Bool, List, [], ◌∷◌, ◌||◌, same, includes}
use delivery_plus.Shared.Enums.{
  UserRole, restaurant_owner, admin, customer, UserRole-discrete, OrderStatus,
}

-- Every status but CREATED has an entry.
unfoldable pub transition_roles : OrderStatus → List UserRole
transition_roles OrderStatus.created = []
transition_roles OrderStatus.payment_pending = admin ∷ []
transition_roles OrderStatus.confirmed = admin ∷ []
transition_roles OrderStatus.preparing = restaurant_owner ∷ admin ∷ []
transition_roles OrderStatus.ready_for_pickup = restaurant_owner ∷ admin ∷ []
transition_roles OrderStatus.driver_assigned = admin ∷ []
transition_roles OrderStatus.picked_up = admin ∷ []
transition_roles OrderStatus.delivered = admin ∷ []
transition_roles OrderStatus.cancelled = customer ∷ restaurant_owner ∷ admin ∷ []
transition_roles OrderStatus.failed = admin ∷ []

unfoldable pub is_role_allowed_for_transition : OrderStatus → UserRole → Bool
unfolding transition_roles UserRole-discrete
is_role_allowed_for_transition target role =
    same UserRole-discrete role admin || includes UserRole-discrete role (transition_roles target)

pub data OrderListFilter : Type 0 where
  active completed cancelled : OrderListFilter

unfoldable pub order_list_filter_statuses : OrderListFilter → List OrderStatus
order_list_filter_statuses active =
    OrderStatus.created ∷ OrderStatus.payment_pending ∷ OrderStatus.confirmed
    ∷ OrderStatus.preparing ∷ OrderStatus.ready_for_pickup ∷ OrderStatus.driver_assigned
    ∷ OrderStatus.picked_up ∷ []
order_list_filter_statuses completed = OrderStatus.delivered ∷ []
order_list_filter_statuses cancelled = OrderStatus.cancelled ∷ OrderStatus.failed ∷ []
