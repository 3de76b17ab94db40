-- ===== src/Payments/SideEffects.antt =====
-- The side effects that a payment owes (`completeSideEffects` of services/payments.service.ts): the
-- event on the broker and the order's status, each once for a status, under a lease.
use delivery_plus.Prelude.{
  ℕ, Bool, true, false, not, ◌||◌, Option, none, some, List, [], ◌∷◌, same, includes, if◌then◌else◌,
}
use delivery_plus.Shared.Errors.{Error, Error-discrete, conflict}
use delivery_plus.Shared.Enums.{
  OrderStatus, OrderStatus-discrete, PaymentStatus, PaymentStatus-discrete,
}
use delivery_plus.Shared.Events.{PaymentEventType}
use delivery_plus.Proc.{ret, throw, request, catch, ◌>>=◌, ◌>>◌, throw_if}
use delivery_plus.Payments.Store.{Payment}
use delivery_plus.Payments.Server.{
  PaymentEvent, Handler, finally, find_or_throw, acquire_side_effects_lease,
  release_side_effects_lease, mark_event_published, mark_order_synced, publish, update_order_status,
}

abbrev pub terminal_order_statuses : List OrderStatus
terminal_order_statuses = OrderStatus.failed ∷ OrderStatus.cancelled ∷ OrderStatus.delivered ∷ []

abbrev pub side_effects : PaymentStatus → Option (PaymentEventType × OrderStatus)
side_effects PaymentStatus.pending = some (PaymentEventType.created, OrderStatus.payment_pending)
side_effects PaymentStatus.completed = some (PaymentEventType.completed, OrderStatus.confirmed)
side_effects PaymentStatus.failed = some (PaymentEventType.failed, OrderStatus.failed)
side_effects _ = none

abbrev pub side_effects_lease_ms : ℕ
side_effects_lease_ms = 30_000

pub data OnBusy : Type 0 where
  returns conflicts : OnBusy

abbrev pub is_status : PaymentStatus → Option PaymentStatus → Bool
is_status status none = false
is_status status (some s) = same PaymentStatus-discrete s status

abbrev pub is_owed : Payment → Option (PaymentEventType × OrderStatus) → Bool
is_owed p none = false
is_owed p (some _) =
    not (is_status p.status p.published_event_status)
    || not (is_status p.status p.order_synced_status)

unfoldable pub has_owed_side_effects : Payment → Bool
has_owed_side_effects p = is_owed p (side_effects p.status)

-- `syncOrder`, once order-service has refused the update with the error `e`.
unfoldable pub after_refused_sync : Payment → Error → Handler (Unit {0})
after_refused_sync p e =
    if not (same Error-discrete e conflict)
      || not (same PaymentStatus-discrete p.status PaymentStatus.failed)
    then throw e
    else (do
      order ← request (λ s. s.order_as_system p.order_id)
      throw_if (not (includes OrderStatus-discrete order.status terminal_order_statuses)) e)

unfoldable pub sync_order : Payment → OrderStatus → Handler (Unit {0})
sync_order p status = catch (after_refused_sync p) (update_order_status p.order_id status)

-- `payment_event_id` stands for `paymentEventId`, a name-based UUID.
module _ (payment_event_id : ℕ → PaymentEventType → ℕ) where
  abbrev pub payment_event : PaymentEventType → Payment → PaymentEvent
  payment_event event_type p = record {
    event_id = payment_event_id p.id event_type;
    event_type = event_type;
    payment_id = p.id;
    order_id = p.order_id;
    customer_id = p.customer_id;
    amount = p.amount;
    status = p.status;
  }

  unfoldable pub publish_owed : Payment → PaymentEventType → Handler (Unit {0})
  publish_owed p event_type =
      if is_status p.status p.published_event_status
      then ret tt
      else (do publish (payment_event event_type p); mark_event_published p.id p.status)

  unfoldable pub sync_owed : Payment → OrderStatus → Handler (Unit {0})
  sync_owed p order_status =
      if is_status p.status p.order_synced_status
      then ret tt
      else (do sync_order p order_status; mark_order_synced p.id p.status)

  -- The `try` of `completeSideEffects`, on the payment read under the lease. It gives the payment
  -- where it returns early.
  unfoldable pub perform_side_effects :
      Payment → Option (PaymentEventType × OrderStatus) → Handler (Option Payment)
  perform_side_effects current none = ret (some current)
  perform_side_effects current (some (event_type, order_status)) = do
    publish_owed current event_type
    sync_owed current order_status
    ret none

  unfoldable pub under_lease : ℕ → Handler (Option Payment)
  under_lease id = do
    current ← find_or_throw id
    perform_side_effects current (side_effects current.status)

  abbrev pub returned_or_read : ℕ → Option Payment → Handler Payment
  returned_or_read id none = find_or_throw id
  returned_or_read id (some current) = ret current

  abbrev pub when_busy : Payment → OnBusy → Handler Payment
  when_busy p OnBusy.conflicts = throw conflict
  when_busy p OnBusy.returns = ret p

  unfoldable pub with_lease : Payment → OnBusy → Bool → Handler Payment
  with_lease p on_busy false = when_busy p on_busy
  with_lease p on_busy true = do
    early ← finally (release_side_effects_lease p.id) (under_lease p.id)
    returned_or_read p.id early

  unfoldable pub complete_side_effects : Payment → OnBusy → Handler Payment
  complete_side_effects p on_busy =
      if has_owed_side_effects p
      then (acquire_side_effects_lease p.id side_effects_lease_ms >>= with_lease p on_busy)
      else ret p

-- What a proof names to run them.
unfoldable pub effects : Unit {0}
unfolding complete_side_effects has_owed_side_effects with_lease under_lease perform_side_effects
    publish_owed sync_owed sync_order after_refused_sync
effects = tt
