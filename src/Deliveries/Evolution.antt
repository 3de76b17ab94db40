-- ===== src/Deliveries/Evolution.antt =====
-- How a delivery may change: along the table of transitions, and its driver is set once.
use delivery_plus.Prelude.{ℕ, ◌≡◌, refl, ◌∙◌, true, Option, some, none, arith}
use delivery_plus.Shared.Enums.{DeliveryStatus}
use delivery_plus.Deliveries.Store.{
  Delivery, LedgerEntryType, delivery_earning, cancellation_compensation, reversal, is_finished,
}
use delivery_plus.Deliveries.Dispatch.{is_move_allowed}

pub data StatusPath : DeliveryStatus → DeliveryStatus → Type 0 where
  here : (s : DeliveryStatus) → StatusPath s s
  move : {s t u : DeliveryStatus} → is_move_allowed s t ≡ true → StatusPath t u → StatusPath s u

pub StatusPath-trans : {s t u : DeliveryStatus} → StatusPath s t → StatusPath t u → StatusPath s u
StatusPath-trans (here s) q = q
StatusPath-trans (move m p) q = move m (StatusPath-trans p q)

move-finished : (s t : DeliveryStatus) → is_move_allowed s t ≡ true → is_finished s ≡ true → ⊥
unfolding is_move_allowed
move-finished DeliveryStatus.delivered t m h = cc
move-finished DeliveryStatus.cancelled t m h = cc
move-finished DeliveryStatus.created t m h = cc
move-finished DeliveryStatus.driver_assigned t m h = cc
move-finished DeliveryStatus.picked_up t m h = cc
move-finished DeliveryStatus.in_transit t m h = cc

-- A finished delivery stays as it ended.
pub path-finished : {s t : DeliveryStatus} → StatusPath s t → is_finished s ≡ true → s ≡ t
path-finished (here s) h = refl
path-finished (move {s = s} {t = t} m p) h = absurd (move-finished s t m h)

-- No move leads back to CREATED, and only from there is a driver assigned.
pub move-created : (s : DeliveryStatus) → is_move_allowed s DeliveryStatus.created ≡ true → ⊥
unfolding is_move_allowed
move-created DeliveryStatus.created m = cc
move-created DeliveryStatus.driver_assigned m = cc
move-created DeliveryStatus.picked_up m = cc
move-created DeliveryStatus.in_transit m = cc
move-created DeliveryStatus.delivered m = cc
move-created DeliveryStatus.cancelled m = cc

pub move-assigned :
    (s : DeliveryStatus)
    → is_move_allowed s DeliveryStatus.driver_assigned ≡ true
    → s ≡ DeliveryStatus.created
unfolding is_move_allowed
move-assigned DeliveryStatus.created m = refl
move-assigned DeliveryStatus.driver_assigned m = absurd (cc)
move-assigned DeliveryStatus.picked_up m = absurd (cc)
move-assigned DeliveryStatus.in_transit m = absurd (cc)
move-assigned DeliveryStatus.delivered m = absurd (cc)
move-assigned DeliveryStatus.cancelled m = absurd (cc)

-- The status in which a delivery has ended that is paid by an entry of the type.
abbrev pub ending_of : LedgerEntryType → Option DeliveryStatus
ending_of delivery_earning = some DeliveryStatus.delivered
ending_of cancellation_compensation = some DeliveryStatus.cancelled
ending_of reversal = none

pub ending-finished :
    (type : LedgerEntryType) (s : DeliveryStatus) → ending_of type ≡ some s → is_finished s ≡ true
ending-finished delivery_earning s h = ground arith
ending-finished cancellation_compensation s h = ground arith
ending-finished reversal s h = cc

pub ending-injective :
    (type type' : LedgerEntryType) (s : DeliveryStatus)
    → ending_of type ≡ some s
    → ending_of type' ≡ some s
    → type ≡ type'
ending-injective delivery_earning delivery_earning s h k = refl
ending-injective delivery_earning cancellation_compensation s h k = absurd (cc)
ending-injective delivery_earning reversal s h k = absurd (cc)
ending-injective cancellation_compensation delivery_earning s h k = absurd (cc)
ending-injective cancellation_compensation cancellation_compensation s h k = refl
ending-injective cancellation_compensation reversal s h k = absurd (cc)
ending-injective reversal type' s h k = absurd (cc)

-- The same delivery, later.
pub record Evolves (d e : Delivery) : Type 0 where
  pub same_id : d.id ≡ e.id
  pub same_order : d.order_id ≡ e.order_id
  pub same_customer : d.customer_id ≡ e.customer_id
  pub keeps_driver : (driver_id : ℕ) → d.driver_id ≡ some driver_id → e.driver_id ≡ some driver_id
  pub path : StatusPath d.status e.status

pub Evolves-refl : (d : Delivery) → Evolves d d
Evolves-refl d = record {
  same_id = refl;
  same_order = refl;
  same_customer = refl;
  keeps_driver = λ driver_id h. h;
  path = here d.status;
}

pub Evolves-trans : {d e f : Delivery} → Evolves d e → Evolves e f → Evolves d f
Evolves-trans a b = record {
  same_id = a.same_id ∙ b.same_id;
  same_order = a.same_order ∙ b.same_order;
  same_customer = a.same_customer ∙ b.same_customer;
  keeps_driver = λ driver_id h. b.keeps_driver driver_id (a.keeps_driver driver_id h);
  path = StatusPath-trans (a.path) (b.path);
}
