-- ===== src/Shared/Events.antt =====
-- The types of the payment and delivery events (shared/src/events).
pub data PaymentEventType : Type 0 where
  created completed failed : PaymentEventType

pub PaymentEventType-discrete : Discrete PaymentEventType
PaymentEventType-discrete = hlevel

pub data DeliveryEventType : Type 0 where
  created driver_assigned picked_up in_transit completed cancelled : DeliveryEventType

pub DeliveryEventType-discrete : Discrete DeliveryEventType
DeliveryEventType-discrete = hlevel
