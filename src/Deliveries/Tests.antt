-- ===== src/Deliveries/Tests.antt =====
-- delivery-service on concrete data: a delivery on its way that its driver and an admin complete at once,
-- while the next order is dispatched and the ledger is settled.
use delivery_plus.Prelude.{ℕ, ◌+◌, ◌≡◌, ◌≤◌, refl, false, none, some, List, [], ◌∷◌, arith, All}
use delivery_plus.Shared.Enums.{
  UserRole, UserRole-discrete, OrderStatus, DriverStatus, DeliveryStatus, DeliveryStatus-discrete,
}
use delivery_plus.Shared.Table.{find_row, update_row}
use delivery_plus.Shared.Text.{text}
use delivery_plus.Shared.Outbox.{stage_event}
use delivery_plus.Proc.{ok, combinators, run, ◌>>=◌}
use delivery_plus.Proc.Alone.{run_alone}
use delivery_plus.Deliveries.Soundness.Compensation.{lost_assignment_releases}
use delivery_plus.Deliveries.Soundness.Steps.{Moves, Moves-refl}
use delivery_plus.Deliveries.Soundness.Completion.{IsUnderWay, still}
use delivery_plus.Deliveries.Soundness.Finishing.{IsDone, completion_succeeds}
use delivery_plus.Proc.Secures.{Returns, Fulfils, Cooperates}
use delivery_plus.Proc.Pool.{Pick, arrives, runs, elsewhere, serve, Answered}
use delivery_plus.Deliveries.Store.{
  Delivery, find_by_order_id, transition, append_once, is_paid, LedgerEntryType-discrete,
}
use delivery_plus.Deliveries.Dispatch.{
  DriverDto, World, Server, Config, find_or_throw, is_move_allowed, transaction, moved, stage_time,
}
use delivery_plus.Deliveries.Service.{
  record_assignment, after_assignment, complete, assert_assigned_driver, earning_for, earns_nothing,
  is_positive, advance, move_on,
}
use delivery_plus.Deliveries.Soundness.{Advances, IsSound, PaidFor}
use delivery_plus.Deliveries.Soundness.Unique.{count_paid}
use delivery_plus.Deliveries.Soundness.Served.{
  Request, dispatches, settles, completes, handle, IsAnswer, deliveries_advance, ledger_is_true,
  paid_at_most_once, one_delivery_per_order, delivery_answers_are_true,
}

abbrev config : Config
config = record { lifecycle_event_id = λ id event_type. id; settlement = 86400; grace = 60 }

abbrev pub a_delivery : Delivery
a_delivery = record {
  id = 0;
  order_id = 7;
  customer_id = some 3;
  driver_id = some 4;
  assigned_at = some 50;
  picked_up_at = some 60;
  delivered_at = none;
  cancelled_at = none;
  status = DeliveryStatus.in_transit;
  updated_at = 60;
}

abbrev world : World
world = record {
  order_seen = λ id. ok (record { customer_id = some 3; status = OrderStatus.ready_for_pickup });
  readable_by = λ id auth. ok tt;
  fee_split =
      λ id. ok (record { driver_fee_share = text "15.50"; driver_cancel_fee_share = text "0.00" });
  order_moves = λ id status. ok tt;
  available_driver = ok none;
  driver_seen =
      λ id. ok (record { id = id; user_id = 21; status = DriverStatus.busy; updated_at = none });
  own_profile = λ auth. ok none;
  driver_moves = λ id status. ok tt;
}

abbrev pub server : Server
server = record {
  db = record { deliveries = a_delivery ∷ []; next_id = 1; ledger = []; outbox = [] };
  now = 100;
  world = world;
  order_updates = [];
  driver_updates = [];
  kicked = false;
  sweeping = false;
  reconciling = false;
}

abbrev busier : Server → Server
busier s = record s { now = s.now + 10 }

abbrev picks : List (Pick Server Request)
picks =
    arrives (completes 0 21 UserRole.driver)
    ∷ arrives (completes 0 9 UserRole.admin)
    ∷ arrives (dispatches 8)
    ∷ arrives (settles none)
    ∷ runs 0
    ∷ runs 1
    ∷ runs 1
    ∷ runs 0
    ∷ runs 2
    ∷ runs 0
    ∷ runs 0
    ∷ elsewhere busier
    ∷ runs 1
    ∷ runs 1
    ∷ runs 2
    ∷ runs 2
    ∷ runs 2
    ∷ runs 1
    ∷ runs 1
    ∷ runs 3
    ∷ []

server-IsSound : IsSound server.db
unfolding find_by_order_id
server-IsSound = record {
  fresh = (omega arith, tt);
  unassigned = ((λ created. absurd (cc)), tt);
  one_per_order = (refl, tt);
  paid = tt;
  paid_once = tt;
}

deliveries_advance_example : Advances server.db (serve (handle config) picks ([], server)).1.db
deliveries_advance_example = deliveries_advance config picks server ((λ s. refl), tt) server-IsSound

ledger_is_true_example :
    All
      (λ e. PaidFor e (serve (handle config) picks ([], server)).1.db)
      (serve (handle config) picks ([], server)).1.db.ledger
ledger_is_true_example = ledger_is_true config picks server ((λ s. refl), tt) server-IsSound

paid_at_most_once_example : count_paid 0 (serve (handle config) picks ([], server)).1.db.ledger ≤ 1
paid_at_most_once_example = paid_at_most_once config picks server ((λ s. refl), tt) server-IsSound 0

delivery_answers_are_true_example :
    All
      (Answered (λ q. Returns (IsAnswer q)) (serve (handle config) picks ([], server)).1)
      (serve (handle config) picks ([], server)).0
delivery_answers_are_true_example =
    delivery_answers_are_true config picks server ((λ s. refl), tt) server-IsSound

abbrev completion : List (Pick Server Request)
completion = arrives (completes 0 9 UserRole.admin) ∷ runs 0 ∷ runs 0 ∷ runs 0 ∷ []

abbrev completed : Delivery
completed = record a_delivery {
  status = DeliveryStatus.delivered;
  delivered_at = some 100;
  updated_at = 100;
}

one_delivery_per_order_example : ◌≡◌ {A = ℕ} 0 0
unfolding serve handle combinators complete find_or_throw find_row assert_assigned_driver
    earning_for earns_nothing is_positive advance move_on is_move_allowed transaction transition
    append_once is_paid moved stage_time DeliveryStatus-discrete UserRole-discrete
    LedgerEntryType-discrete stage_event update_row
one_delivery_per_order_example =
    one_delivery_per_order config completion server tt server-IsSound completed completed refl refl
      refl

one_completion_pays : count_paid 0 (serve (handle config) completion ([], server)).1.db.ledger ≡ 1
unfolding serve handle combinators complete find_or_throw find_row assert_assigned_driver
    earning_for earns_nothing is_positive advance move_on is_move_allowed transaction transition
    append_once is_paid moved stage_time DeliveryStatus-discrete UserRole-discrete
    LedgerEntryType-discrete stage_event update_row
one_completion_pays = refl

-- Two changes of the clock come between the steps of a completion.
busier-Cooperates : Cooperates Moves (IsUnderWay 0 4) (busier ∷ busier ∷ [])
busier-Cooperates = (keeps, (keeps, tt))
  where
    keeps : (s : Server) → IsUnderWay 0 4 s → Moves s (busier s) × IsUnderWay 0 4 (busier s)
    keeps s i = (Moves-refl s, record { sound = i.sound; accepts = i.accepts; carried = i.carried })

server-IsUnderWay : IsUnderWay 0 4 server
unfolding find_row
server-IsUnderWay = record {
  sound = server-IsSound;
  accepts = record {
    answers_order = λ id. (_, refl);
    answers_split = λ id. (_, refl);
    moves_order = λ id status. refl;
    moves_driver = λ id status. refl;
  };
  carried = (a_delivery, refl, (refl, still, refl));
}

completion_succeeds_example :
    IsUnderWay 0 4 (run (complete config 0 9 UserRole.admin) (busier ∷ busier ∷ []) server).1
    × Fulfils
        (IsDone 0 4 config)
        (run (complete config 0 9 UserRole.admin) (busier ∷ busier ∷ []) server).0
        (run (complete config 0 9 UserRole.admin) (busier ∷ busier ∷ []) server).1
completion_succeeds_example =
    completion_succeeds 0 4 config 9 (busier ∷ busier ∷ []) server busier-Cooperates
      server-IsUnderWay

-- As an assignment read it that has since been overtaken.
abbrev unassigned : Delivery
unassigned = record a_delivery {
  driver_id = none;
  assigned_at = none;
  picked_up_at = none;
  status = DeliveryStatus.created;
}

abbrev claimed : DriverDto
claimed = record { id = 6; user_id = 22; status = DriverStatus.busy; updated_at = none }

lost_assignment_releases_example :
    (run_alone
      (record_assignment config unassigned claimed >>= after_assignment 0 claimed)
      server).1.driver_updates
    ≡ (6, DriverStatus.available) ∷ []
unfolding find_row DeliveryStatus-discrete
lost_assignment_releases_example =
    lost_assignment_releases config unassigned a_delivery claimed server refl refl
