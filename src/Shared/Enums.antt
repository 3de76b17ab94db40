-- ===== src/Shared/Enums.antt =====
-- shared/src/types/enums.ts: the roles, the statuses of each domain state machine, and the tables
-- of allowed transitions.
use delivery_plus.Prelude.{Bool, List, [], ◌∷◌, includes}

pub data UserRole : Type 0 where
  customer restaurant_owner driver admin : UserRole

unfoldable pub UserRole-discrete : Discrete UserRole
UserRole-discrete = hlevel

pub data RestaurantStatus : Type 0 where
  open_now closed busy suspended : RestaurantStatus

unfoldable pub RestaurantStatus-discrete : Discrete RestaurantStatus
RestaurantStatus-discrete = hlevel

pub data OrderStatus : Type 0 where
  created payment_pending confirmed preparing ready_for_pickup : OrderStatus
  driver_assigned picked_up delivered cancelled failed : OrderStatus

unfoldable pub OrderStatus-discrete : Discrete OrderStatus
OrderStatus-discrete = hlevel

pub data PaymentStatus : Type 0 where
  pending processing completed failed refunded : PaymentStatus

unfoldable pub PaymentStatus-discrete : Discrete PaymentStatus
PaymentStatus-discrete = hlevel

pub data DriverStatus : Type 0 where
  offline available busy suspended : DriverStatus

unfoldable pub DriverStatus-discrete : Discrete DriverStatus
DriverStatus-discrete = hlevel

pub data DeliveryStatus : Type 0 where
  created driver_assigned picked_up in_transit delivered cancelled : DeliveryStatus

unfoldable pub DeliveryStatus-discrete : Discrete DeliveryStatus
DeliveryStatus-discrete = hlevel

unfoldable pub order_transitions : OrderStatus → List OrderStatus
order_transitions OrderStatus.created = OrderStatus.payment_pending ∷ OrderStatus.cancelled ∷ []
order_transitions OrderStatus.payment_pending =
    OrderStatus.confirmed ∷ OrderStatus.failed ∷ OrderStatus.cancelled ∷ []
order_transitions OrderStatus.confirmed = OrderStatus.preparing ∷ OrderStatus.cancelled ∷ []
order_transitions OrderStatus.preparing = OrderStatus.ready_for_pickup ∷ OrderStatus.cancelled ∷ []
order_transitions OrderStatus.ready_for_pickup =
    OrderStatus.driver_assigned ∷ OrderStatus.cancelled ∷ []
order_transitions OrderStatus.driver_assigned = OrderStatus.picked_up ∷ OrderStatus.cancelled ∷ []
order_transitions OrderStatus.picked_up = OrderStatus.delivered ∷ OrderStatus.cancelled ∷ []
order_transitions OrderStatus.delivered = []
order_transitions OrderStatus.cancelled = []
order_transitions OrderStatus.failed = []

unfoldable pub delivery_transitions : DeliveryStatus → List DeliveryStatus
delivery_transitions DeliveryStatus.created =
    DeliveryStatus.driver_assigned ∷ DeliveryStatus.cancelled ∷ []
delivery_transitions DeliveryStatus.driver_assigned =
    DeliveryStatus.picked_up ∷ DeliveryStatus.cancelled ∷ []
delivery_transitions DeliveryStatus.picked_up =
    DeliveryStatus.in_transit ∷ DeliveryStatus.cancelled ∷ []
delivery_transitions DeliveryStatus.in_transit =
    DeliveryStatus.delivered ∷ DeliveryStatus.cancelled ∷ []
delivery_transitions DeliveryStatus.delivered = []
delivery_transitions DeliveryStatus.cancelled = []

unfoldable pub payment_transitions : PaymentStatus → List PaymentStatus
payment_transitions PaymentStatus.pending = PaymentStatus.processing ∷ PaymentStatus.failed ∷ []
payment_transitions PaymentStatus.processing = PaymentStatus.completed ∷ PaymentStatus.failed ∷ []
payment_transitions PaymentStatus.completed = PaymentStatus.refunded ∷ []
payment_transitions PaymentStatus.failed = []
payment_transitions PaymentStatus.refunded = []

unfoldable pub driver_transitions : DriverStatus → List DriverStatus
driver_transitions DriverStatus.offline = DriverStatus.available ∷ DriverStatus.suspended ∷ []
driver_transitions DriverStatus.available =
    DriverStatus.offline ∷ DriverStatus.busy ∷ DriverStatus.suspended ∷ []
driver_transitions DriverStatus.busy = DriverStatus.available ∷ DriverStatus.suspended ∷ []
driver_transitions DriverStatus.suspended = DriverStatus.offline ∷ []

-- Every status has a row in its table, so `transitions[from]` is never undefined.
module _ {T : Type 0} (d : Discrete T) (transitions : T → List T) where
  unfoldable pub is_transition_allowed : T → T → Bool
  is_transition_allowed from to = includes d to (transitions from)
