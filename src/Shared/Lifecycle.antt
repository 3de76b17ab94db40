-- ===== src/Shared/Lifecycle.antt =====
-- The four state machines: where they only move forward, and where they end.
use delivery_plus.Prelude.{ℕ, ◌<◌, ◌≤◌, ◌≡◌, true, arith}
use delivery_plus.Shared.Enums.{
  OrderStatus, OrderStatus-discrete, order_transitions, is_transition_allowed,
}

-- How far an order has come.
abbrev pub order_rank : OrderStatus → ℕ
order_rank OrderStatus.created = 0
order_rank OrderStatus.payment_pending = 1
order_rank OrderStatus.confirmed = 2
order_rank OrderStatus.preparing = 3
order_rank OrderStatus.ready_for_pickup = 4
order_rank OrderStatus.driver_assigned = 5
order_rank OrderStatus.picked_up = 6
order_rank OrderStatus.delivered = 7
order_rank OrderStatus.cancelled = 8
order_rank OrderStatus.failed = 9

abbrev pub OrderMoves : OrderStatus → OrderStatus → Type 0
OrderMoves from to = is_transition_allowed OrderStatus-discrete order_transitions from to ≡ true

pub OrderMoves-rank : (from to : OrderStatus) → OrderMoves from to → order_rank from < order_rank to
unfolding is_transition_allowed order_transitions
OrderMoves-rank OrderStatus.created to h = ground arith
OrderMoves-rank from to h = ground arith

-- A walk along the table.
pub data OrderPath : OrderStatus → OrderStatus → Type 0 where
  here : (s : OrderStatus) → OrderPath s s
  move : {s t u : OrderStatus} → OrderMoves s t → OrderPath t u → OrderPath s u

pub OrderPath-trans : {s t u : OrderStatus} → OrderPath s t → OrderPath t u → OrderPath s u
OrderPath-trans (here s) q = q
OrderPath-trans (move m p) q = move m (OrderPath-trans p q)

pub OrderPath-rank : {s t : OrderStatus} → OrderPath s t → order_rank s ≤ order_rank t
OrderPath-rank (here s) = omega arith
OrderPath-rank (move {s = s} {t = t} m p) = omega (arith, OrderMoves-rank s t m, OrderPath-rank p)
