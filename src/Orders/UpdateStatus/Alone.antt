-- ===== src/Orders/UpdateStatus/Alone.antt =====
-- `updateStatus` and the consumers of events, each run without others between its steps.
use delivery_plus.Prelude.{
  ℕ, ◌≡◌, refl, true, not, ◌&&◌, Option, none, some, ◌==◌, same, if◌then◌else◌, arith, Bool-cases,
  Option-cases, inl, inr,
}
use delivery_plus.Shared.Errors.{Error, forbidden, not_found, conflict, invalid_state_transition}
use delivery_plus.Shared.Enums.{
  UserRole, UserRole-discrete, OrderStatus, OrderStatus-discrete, order_transitions,
  is_transition_allowed,
}
use delivery_plus.Shared.Outbox.{order_events, stage_event}
use delivery_plus.Proc.{Result, gets, ◌>>=◌, ret, done, ◌>>◌, throw_if, ok, err, combinators}
use delivery_plus.Proc.Alone.{run_alone, run_alone-bind}
use delivery_plus.Orders.Rules.{is_role_allowed_for_transition}
use delivery_plus.Orders.Outcome.{outcome_for}
use delivery_plus.Orders.Store.{Order, find_by_id, put, set_status, selected, without_fee_split}
use delivery_plus.Orders.Store
use delivery_plus.Orders.Store.Laws.{update_status_found}
use delivery_plus.Orders.Server.{
  Config, Server, World, order_event, order_status_event, find_or_throw, transaction, kick,
  assert_ownership,
}
use delivery_plus.Orders.Server.Alone.{transaction_alone, after_found}
use delivery_plus.Orders.UpdateStatus.{
  UpdateOrderStatusDto, assert_may_update, update_status, write_status, after_lost_race,
}

-- A restaurant rejects an order that it has not begun.
abbrev pub begun : OrderStatus → Option Error
begun OrderStatus.confirmed = none
begun OrderStatus.cancelled = none
begun _ = some conflict

-- The answer of restaurant-service about the owner, and then the further condition.
abbrev pub unless_owned : Result (Unit {0}) → Option Error → Option Error
unless_owned (ok _) further = further
unless_owned (err e) further = some e

-- Why a caller may not move an order to a status, or none where it may.
abbrev pub refusal : World → ℕ → UserRole → OrderStatus → Order → Option Error
refusal world requester UserRole.admin target o = none
refusal world requester UserRole.driver target o = some forbidden
refusal world requester UserRole.customer OrderStatus.cancelled o =
    if o.customer_id == requester then none else some forbidden
refusal world requester UserRole.customer _ o = some forbidden
refusal world requester UserRole.restaurant_owner OrderStatus.preparing o =
    unless_owned (world.ownership o.restaurant_id requester) none
refusal world requester UserRole.restaurant_owner OrderStatus.ready_for_pickup o =
    unless_owned (world.ownership o.restaurant_id requester) none
refusal world requester UserRole.restaurant_owner OrderStatus.cancelled o =
    unless_owned (world.ownership o.restaurant_id requester) (begun o.status)
refusal world requester UserRole.restaurant_owner _ o = some forbidden

-- What an update does that no other request disturbs.
abbrev pub updated :
    Config → ℕ → ℕ → UserRole → UpdateOrderStatusDto → Server → Result Order × Server
updated c id requester role dto s = elim (find_by_id id s.db.orders) [
  | none ↦ (err not_found, s)
  | some o ↦ elim (refusal s.world requester role dto.status o) [
    | some e ↦ (err e, s)
    | none ↦
        if same OrderStatus-discrete o.status dto.status
        then (ok (without_fee_split o), s)
        else if is_transition_allowed OrderStatus-discrete order_transitions o.status dto.status
        then (let o' = set_status dto.status (outcome_for dto.status role dto.reason) o in
            (
              ok (without_fee_split o'),
              record s {
                db = record (s.db) {
                  orders = put id o' s.db.orders;
                  outbox =
                      stage_event order_events
                        (order_event c (order_status_event dto.status) (without_fee_split o'))
                        s.db.outbox;
                };
                kicked = true;
              },
            ))
        else (err invalid_state_transition, s)
  ]
]

verdict : Option Error → Server → Result (Unit {0}) × Server
verdict none s = (ok tt, s)
verdict (some e) s = (err e, s)

owner_verdict :
    (r : Result (Unit {0})) (target status : OrderStatus) (s : Server)
    → run_alone
        (done r
          >> throw_if
              (same OrderStatus-discrete target OrderStatus.cancelled
                && not (same OrderStatus-discrete status OrderStatus.confirmed)
                && not (same OrderStatus-discrete status OrderStatus.cancelled))
              conflict)
        s
      ≡ verdict
          (unless_owned r
            (if same OrderStatus-discrete target OrderStatus.cancelled then begun status else none))
          s
unfolding combinators OrderStatus-discrete verdict
owner_verdict (ok u) OrderStatus.cancelled OrderStatus.created s = refl
owner_verdict (ok u) OrderStatus.cancelled status s = refl
owner_verdict (ok u) target status s = refl
owner_verdict (err e) target status s = refl

assert_may_update_alone :
    (requester : ℕ) (role : UserRole) (target : OrderStatus) (o : Order) (s : Server)
    → run_alone (assert_may_update requester role target (without_fee_split o)) s
      ≡ verdict (refusal s.world requester role target o) s
unfolding assert_may_update combinators is_role_allowed_for_transition assert_ownership verdict
    without_fee_split UserRole-discrete OrderStatus-discrete
assert_may_update_alone requester UserRole.admin target o s = refl
assert_may_update_alone requester UserRole.driver OrderStatus.created o s = refl
assert_may_update_alone requester UserRole.driver target o s = refl
assert_may_update_alone requester UserRole.customer OrderStatus.cancelled o s = ground arith
assert_may_update_alone requester UserRole.customer target o s = refl
assert_may_update_alone requester UserRole.restaurant_owner OrderStatus.preparing o s =
    owner_verdict (s.world.ownership o.restaurant_id requester) OrderStatus.preparing o.status s
assert_may_update_alone requester UserRole.restaurant_owner OrderStatus.ready_for_pickup o s =
    owner_verdict (s.world.ownership o.restaurant_id requester) OrderStatus.ready_for_pickup
      o.status s
assert_may_update_alone requester UserRole.restaurant_owner OrderStatus.cancelled o s =
    owner_verdict (s.world.ownership o.restaurant_id requester) OrderStatus.cancelled o.status s
assert_may_update_alone requester UserRole.restaurant_owner target o s = refl

write_status_alone :
    (c : Config) (id : ℕ) (role : UserRole) (dto : UpdateOrderStatusDto) (o : Order) (s : Server)
    → find_by_id id s.db.orders ≡ some o
    → run_alone (write_status c id role dto (without_fee_split o)) s ≡ (
        let o' = set_status dto.status (outcome_for dto.status role dto.reason) o in
        (
          ok (without_fee_split o'),
          record s {
            db = record (s.db) {
              orders = put id o' s.db.orders;
              outbox =
                  stage_event order_events
                    (order_event c (order_status_event dto.status) (without_fee_split o'))
                    s.db.outbox;
            };
            kicked = true;
          },
        ))
unfolding write_status transaction combinators kick without_fee_split
write_status_alone c id role dto o s found =
    transaction_alone
      (Store.update_status id o.status dto.status (order_event c (order_status_event dto.status))
        (outcome_for dto.status role dto.reason))
      (λ updated. elim updated [ none ↦ after_lost_race id dto.status | some o' ↦ kick >> ret o' ])
      s _ _
      (update_status_found id dto.status (order_event c (order_status_event dto.status))
        (outcome_for dto.status role dto.reason) s.db o found)

-- One update that no other request disturbs, on every branch: an absent order, a caller that may not,
-- the status that the order has already, a move of the table with the outcome and the event of it in
-- one write, and a move that the table does not have. No branch but the move changes anything.
pub update_status_alone :
    (c : Config) (id requester : ℕ) (role : UserRole) (dto : UpdateOrderStatusDto) (s : Server)
    → run_alone (update_status c id requester role dto) s ≡ updated c id requester role dto s
unfolding update_status find_or_throw gets ◌>>=◌ verdict without_fee_split
update_status_alone c id requester role dto s =
    after_found (find_by_id id s.db.orders) s _ _ (λ o found.
      elim (Option-cases (refusal s.world requester role dto.status o)) [
        | inr (e, refused) ↦ rw (run_alone-bind, assert_may_update_alone, refused)
        | inl allowed ↦ elim (Bool-cases (same OrderStatus-discrete o.status dto.status)) [
          | inl eq ↦ rw (run_alone-bind, assert_may_update_alone, allowed, eq)
          | inr ne ↦
              elim (Bool-cases (
                is_transition_allowed OrderStatus-discrete order_transitions o.status dto.status)) [
                  | inl move ↦
                      rw (run_alone-bind, assert_may_update_alone, allowed, ne, move)
                        (write_status_alone c id role dto o s found)
                  | inr stuck ↦ rw (run_alone-bind, assert_may_update_alone, allowed, ne, stuck)
                ]
        ]
      ])
