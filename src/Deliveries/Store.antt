-- ===== src/Deliveries/Store.antt =====
-- The tables of delivery-service and their repositories (entities/delivery.entity.ts,
-- entities/driver-ledger-entry.entity.ts, repositories/deliveries.repository.ts,
-- repositories/ledger.repository.ts). The newest row is first.
use delivery_plus.Prelude.{
  ℕ, suc, ◌+◌, Bool, true, false, not, ◌&&◌, ◌||◌, Option, none, some, List, [], ◌∷◌, ◌==◌, leb,
  same, take, if◌then◌else◌,
}
use delivery_plus.Shared.Enums.{DeliveryStatus, DeliveryStatus-discrete}
use delivery_plus.Shared.Errors.{unique_violation, upstream_failure}
use delivery_plus.Shared.Events.{DeliveryEventType}
use delivery_plus.Shared.Outbox.{BaseEvent, OutboxRow, stage_event, delivery_events}
use delivery_plus.Shared.Table.{find_row, update_row}
use delivery_plus.Shared.Text.{Text}
use delivery_plus.Proc.{Result, ok, err}

pub record Delivery : Type 0 where
  pub id : ℕ
  pub order_id : ℕ
  pub customer_id : Option ℕ
  pub driver_id : Option ℕ
  pub assigned_at : Option ℕ
  pub picked_up_at : Option ℕ
  pub delivered_at : Option ℕ
  pub cancelled_at : Option ℕ
  pub status : DeliveryStatus
  pub updated_at : ℕ

pub data LedgerEntryType : Type 0 where
  delivery_earning cancellation_compensation reversal : LedgerEntryType

unfoldable pub LedgerEntryType-discrete : Discrete LedgerEntryType
LedgerEntryType-discrete = hlevel

pub data LedgerEntryStatus : Type 0 where
  pending available : LedgerEntryStatus

pub record DriverLedgerEntry : Type 0 where
  pub driver_id : ℕ
  pub delivery_id : ℕ
  pub order_id : ℕ
  pub type : LedgerEntryType
  pub amount : Text
  pub status : LedgerEntryStatus
  pub available_at : ℕ
  pub settled_at : Option ℕ

-- The payload of a delivery's events.
pub record DeliveryPayload : Type 0 where
  pub delivery_id : ℕ
  pub order_id : ℕ
  pub customer_id : Option ℕ
  pub driver_id : Option ℕ
  pub assigned_at : Option ℕ
  pub status : DeliveryStatus

abbrev pub DeliveryEvent : Type 0
DeliveryEvent = BaseEvent DeliveryEventType DeliveryPayload

pub record Database : Type 0 where
  pub deliveries : List Delivery
  pub next_id : ℕ
  pub ledger : List DriverLedgerEntry
  pub outbox : List (OutboxRow DeliveryEventType DeliveryPayload)

abbrev pub delivery_id_of : Delivery → ℕ
delivery_id_of d = d.id

abbrev pub find_by_id : ℕ → List Delivery → Option Delivery
find_by_id id deliveries = find_row delivery_id_of id deliveries

unfoldable pub find_by_order_id : ℕ → List Delivery → Option Delivery
find_by_order_id order_id [] = none
find_by_order_id order_id (d ∷ deliveries) =
    if d.order_id == order_id then some d else find_by_order_id order_id deliveries

abbrev pub is_finished : DeliveryStatus → Bool
is_finished DeliveryStatus.delivered = true
is_finished DeliveryStatus.cancelled = true
is_finished _ = false

abbrev pub has_driver : ℕ → Delivery → Bool
has_driver driver_id d = elim d.driver_id [ none ↦ false | some id ↦ id == driver_id ]

abbrev pub is_assigned : Delivery → Bool
is_assigned d = elim d.driver_id [ none ↦ false | some _ ↦ true ]

unfoldable pub find_active_by_driver_id : ℕ → List Delivery → List Delivery
find_active_by_driver_id driver_id [] = []
find_active_by_driver_id driver_id (d ∷ deliveries) =
    let rest = find_active_by_driver_id driver_id deliveries in
    if has_driver driver_id d && not (is_finished d.status) then d ∷ rest else rest

-- The deliveries that wait, the oldest first.
unfoldable pub waiting : List Delivery → List Delivery → List Delivery
waiting acc [] = acc
waiting acc (d ∷ deliveries) =
    waiting (if same DeliveryStatus-discrete d.status DeliveryStatus.created then d ∷ acc else acc)
      deliveries

abbrev pub find_waiting_for_driver : ℕ → List Delivery → List Delivery
find_waiting_for_driver limit deliveries = take limit (waiting [] deliveries)

abbrev pub new_delivery : ℕ → ℕ → ℕ → Option ℕ → Delivery
new_delivery now id order_id customer_id = record {
  id = id;
  order_id = order_id;
  customer_id = customer_id;
  driver_id = none;
  assigned_at = none;
  picked_up_at = none;
  delivered_at = none;
  cancelled_at = none;
  status = DeliveryStatus.created;
  updated_at = now;
}

-- The finished deliveries with a driver, changed since then, the last changed first.
abbrev pub insert_newest : Delivery → List Delivery → List Delivery
insert_newest d [] = d ∷ []
insert_newest d (e ∷ deliveries) =
    let rest = insert_newest d deliveries in
    if leb e.updated_at d.updated_at then d ∷ e ∷ deliveries else e ∷ rest

unfoldable pub finished_since : ℕ → List Delivery → List Delivery
finished_since since [] = []
finished_since since (d ∷ deliveries) =
    let rest = finished_since since deliveries in
    if is_assigned d && is_finished d.status && leb since d.updated_at
    then insert_newest d rest
    else rest

abbrev pub find_finished_with_driver_since : ℕ → ℕ → List Delivery → List Delivery
find_finished_with_driver_since since limit deliveries =
    take limit (finished_since since deliveries)

abbrev pub is_found : Option Delivery → Bool
is_found none = false
is_found (some d) = true

abbrev pub inserted : ℕ → ℕ → Option ℕ → (Delivery → DeliveryEvent) → Database → Database
inserted now order_id customer_id event db = record db {
  deliveries = new_delivery now db.next_id order_id customer_id ∷ db.deliveries;
  next_id = suc db.next_id;
  outbox =
      stage_event delivery_events (event (new_delivery now db.next_id order_id customer_id))
        db.outbox;
}

-- The insert, with its event in the same transaction. It fails on the unique index over orders.
unfoldable pub create :
    ℕ → ℕ → Option ℕ → (Delivery → DeliveryEvent) → Database → Result Delivery × Database
create now order_id customer_id event db =
    if is_found (find_by_order_id order_id db.deliveries) then (err unique_violation, db) else (
      ok (new_delivery now db.next_id order_id customer_id),
      inserted now order_id customer_id event db,
    )

-- What a move earns the driver: the entry's type and amount, and the time until it settles.
pub record Earning : Type 0 where
  pub type : LedgerEntryType
  pub amount : Text
  pub settlement : ℕ

unfoldable pub is_paid : ℕ → LedgerEntryType → List DriverLedgerEntry → Bool
is_paid delivery_id type [] = false
is_paid delivery_id type (e ∷ ledger) =
    (e.delivery_id == delivery_id && same LedgerEntryType-discrete e.type type)
    || is_paid delivery_id type ledger

-- INSERT … ON CONFLICT ("deliveryId", "type") DO NOTHING
unfoldable pub append_once : DriverLedgerEntry → List DriverLedgerEntry → List DriverLedgerEntry
append_once e ledger = if is_paid e.delivery_id e.type ledger then ledger else e ∷ ledger

abbrev pub entry_of : ℕ → ℕ → Earning → Delivery → DriverLedgerEntry
entry_of now driver_id earning d = record {
  driver_id = driver_id;
  delivery_id = d.id;
  order_id = d.order_id;
  type = earning.type;
  amount = earning.amount;
  status = LedgerEntryStatus.pending;
  available_at = now + earning.settlement;
  settled_at = none;
}

-- The write inside the transaction of a move. Its driver must not be null.
abbrev pub pay :
    ℕ
    → Delivery
    → Option ℕ
    → Option Earning
    → List DriverLedgerEntry
    → Result (List DriverLedgerEntry)
pay now d driver_id none ledger = ok ledger
pay now d none (some earning) ledger = err upstream_failure
pay now d (some driver_id) (some earning) ledger =
    ok (append_once (entry_of now driver_id earning d) ledger)

abbrev pub committed :
    (Delivery → Delivery)
    → (Delivery → DeliveryEvent)
    → Delivery
    → Database
    → Result (List DriverLedgerEntry)
    → Result (Option Delivery) × Database
committed change event d db (err e) = (err e, db)
committed change event d db (ok ledger) = (
  ok (some (change d)),
  record db {
    deliveries = update_row delivery_id_of d.id change db.deliveries;
    ledger = ledger;
    outbox = stage_event delivery_events (event (change d)) db.outbox;
  },
)

abbrev pub transition_found :
    DeliveryStatus
    → (Delivery → Delivery)
    → (Delivery → DeliveryEvent)
    → ℕ
    → Option Earning
    → Database
    → Option Delivery
    → Result (Option Delivery) × Database
transition_found from change event now earning db none = (ok none, db)
transition_found from change event now earning db (some d) =
    if same DeliveryStatus-discrete d.status from
    then committed change event d db (pay now (change d) ((change d).driver_id) earning db.ledger)
    else (ok none, db)

-- The compare-and-set, its event and its ledger entry in one transaction. It gives the delivery as
-- written, or none where another request moved it first.
unfoldable pub transition :
    ℕ
    → DeliveryStatus
    → (Delivery → Delivery)
    → (Delivery → DeliveryEvent)
    → ℕ
    → Option Earning
    → Database
    → Result (Option Delivery) × Database
transition id from change event now earning db =
    transition_found from change event now earning db (find_by_id id db.deliveries)
