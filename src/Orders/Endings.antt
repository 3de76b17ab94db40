-- ===== src/Orders/Endings.antt =====
-- Which orders are over, and what the table says of how they ended.
use delivery_plus.Prelude.{
  ◌≡◌, refl, sym, ◌∙◌, subst, Bool, true, false, not, ◌&&◌, ◌||◌, Option, none, some, List, arith,
  All, includes, Bool-cases, inl, inr,
}
use delivery_plus.Shared.Enums.{
  UserRole, OrderStatus, OrderStatus-discrete, order_transitions, is_transition_allowed,
}
use delivery_plus.Shared.Text.{Text}
use delivery_plus.Shared.Lifecycle.{OrderMoves}
use delivery_plus.Orders.Rules.{
  OrderListFilter, order_list_filter_statuses, active, completed, cancelled,
}
use delivery_plus.Orders.Outcome.{OrderPaymentStatus, outcome_for}
use delivery_plus.Orders.Store.{
  Order, OrderEventType, Database, NewOrder, set_status, new_order, is_replaceable,
}
use delivery_plus.Orders.Store.Laws.{
  pay, find_by_id-All, put-All, record_payment_status-All, update_status_cases, create_cases,
}
use delivery_plus.Orders.Server.{Config, Server, order_event, order_status_event}
use delivery_plus.Orders.Steps.{
  Step, reads, kicks, clears, moves, places, pays, drains, crashes, turns, Reach,
}
use delivery_plus.Orders.Schedule.{Pick, serve, serve-Reach}

abbrev pub is_under : OrderListFilter → OrderStatus → Bool
is_under filter s = includes OrderStatus-discrete s (order_list_filter_statuses filter)

-- The filters of order lists against the table of transitions: a status is under ACTIVE if and only if
-- it may move to CANCELLED, and under COMPLETED or CANCELLED otherwise, never both; and from a status
-- that is not under ACTIVE no move is allowed.
pub filters_partition :
    (s t : OrderStatus)
    → (is_under active s
        ≡ is_transition_allowed OrderStatus-discrete order_transitions s OrderStatus.cancelled)
      × (not (is_under active s) ≡ is_under completed s || is_under cancelled s)
      × (is_under completed s && is_under cancelled s ≡ false)
      × (is_under active s || not (is_transition_allowed OrderStatus-discrete order_transitions s t)
          ≡ true)
unfolding order_list_filter_statuses order_transitions is_transition_allowed OrderStatus-discrete
filters_partition OrderStatus.created t = (refl, refl, refl, refl)
filters_partition s t = (refl, refl, refl, refl)

abbrev pub is_recorded : {A : Type 0} → Option A → Bool
is_recorded none = false
is_recorded (some _) = true

-- Who ended the order and why are recorded, both, if and only if it was cancelled or it failed.
pub record HasItsOutcome (o : Order) : Type 0 where
  pub ended_by : is_recorded o.cancelled_by ≡ is_under cancelled o.status
  pub reason : is_recorded o.cancellation_reason ≡ is_under cancelled o.status

-- An order that is still to move is not over, nor is what it moves to, but for the two endings.
not_over : (s t : OrderStatus) → OrderMoves s t → is_under cancelled s ≡ false
not_over s t m = ground (arith, filters_partition s t)

new-HasItsOutcome : (n : NewOrder) (db : Database) → HasItsOutcome (new_order n db)
unfolding new_order order_list_filter_statuses OrderStatus-discrete
new-HasItsOutcome n db = record { ended_by = refl; reason = refl }

paid-HasItsOutcome :
    (status : OrderPaymentStatus) (o : Order) → HasItsOutcome o → HasItsOutcome (pay status o)
paid-HasItsOutcome status o h = elim (Bool-cases (is_replaceable status o.payment_status)) [
  | inl open_still ↦ rw open_still (record { ended_by = h.ended_by; reason = h.reason })
  | inr settled ↦ rw settled h
]

moved-HasItsOutcome :
    (o : Order) (to : OrderStatus) (role : UserRole) (reason : Option Text)
    → HasItsOutcome o
    → OrderMoves o.status to
    → HasItsOutcome (set_status to (outcome_for to role reason) o)
unfolding outcome_for order_list_filter_statuses OrderStatus-discrete
moved-HasItsOutcome o OrderStatus.cancelled role reason h m = record {
  ended_by = refl;
  reason = refl;
}
moved-HasItsOutcome o OrderStatus.failed role reason h m = record { ended_by = refl; reason = refl }
moved-HasItsOutcome o to role reason h m =
    let going_on = not_over o.status to m in
    record { ended_by = h.ended_by ∙ going_on; reason = h.reason ∙ going_on }

module _ (c : Config) where
  Step-HasItsOutcome :
      {s t : Server} → Step c s t → All HasItsOutcome s.db.orders → All HasItsOutcome t.db.orders
  Step-HasItsOutcome (reads s) h = h
  Step-HasItsOutcome (kicks s) h = h
  Step-HasItsOutcome (clears s token) h = h
  Step-HasItsOutcome (moves s id from to role reason m r) h =
      update_status_cases (λ db. All HasItsOutcome db.orders) id from to
        (order_event c (order_status_event to)) (outcome_for to role reason) s.db h
        (λ o found status.
          put-All HasItsOutcome id (set_status to (outcome_for to role reason) o) s.db.orders h (
            moved-HasItsOutcome o to role reason
              (find_by_id-All HasItsOutcome id s.db.orders o h found)
              (subst (λ x. OrderMoves x to) (sym status) m)))
  Step-HasItsOutcome (places s n) h =
      create_cases (λ db. All HasItsOutcome db.orders) n (order_event c OrderEventType.created) s.db
        h (λ free. (new-HasItsOutcome n s.db, h))
  Step-HasItsOutcome (pays s id status) h =
      record_payment_status-All HasItsOutcome id status s.db.orders (paid-HasItsOutcome status) h
  Step-HasItsOutcome (drains s batch_size answers) h = h
  Step-HasItsOutcome (crashes s batch_size answers) h = h
  Step-HasItsOutcome (turns s w day) h = h

  Reach-HasItsOutcome :
      {s t : Server} → Reach c s t → All HasItsOutcome s.db.orders → All HasItsOutcome t.db.orders
  Reach-HasItsOutcome Reach.here h = h
  Reach-HasItsOutcome (Reach.next r st) h = Step-HasItsOutcome st (Reach-HasItsOutcome r h)

-- Over any interleaving of requests and events: the table says of an order who ended it and why if and
-- only if the order was cancelled or failed.
pub outcomes_are_recorded :
    (c : Config) (picks : List Pick) (s : Server)
    → All HasItsOutcome s.db.orders
    → All HasItsOutcome (serve c picks s).db.orders
outcomes_are_recorded c picks s = Reach-HasItsOutcome c (serve-Reach c picks s)
