-- ===== src/Orders/Privacy.antt =====
-- How the fee is split is between the platform and its drivers: no reply of order-service to a customer
-- or a restaurant shows it.
use delivery_plus.Prelude.{
  ℕ, ◌≡◌, refl, Bool, true, false, Option, none, some, List, ◌==◌, ◌||◌, same, if◌then◌else◌,
  Bool-cases, inl, inr,
}
use delivery_plus.Shared.Errors.{not_found}
use delivery_plus.Shared.Enums.{
  UserRole, UserRole-discrete, OrderStatus, OrderStatus-discrete, order_transitions,
  is_transition_allowed,
}
use delivery_plus.Shared.Outbox.{BaseEvent}
use delivery_plus.Orders.Outcome.{OrderOutcome, outcome_for}
use delivery_plus.Proc.{Proc, ◌>>◌, run, combinators, or_throw, ◌>>=◌, ret}
use delivery_plus.Proc.Rules.{
  Holds, Ensures, Ensures-bind, Ensures-then, Ensures-catch, run-Ensures,
}
use delivery_plus.Orders.Store.{
  Order, NewOrder, Database, OrderEventType, OrderPayload, set_status, selected, without_fee_split,
  find_by_customer_and_idempotency_key,
}
use delivery_plus.Orders.Store
use delivery_plus.Orders.Server.{
  Config, Server, Handler, transaction, kick, order_event, order_status_event, find_or_throw,
  assert_ownership, get_by_id,
}
use delivery_plus.Orders.UpdateStatus.{
  UpdateOrderStatusDto, assert_may_update, update_status, write_status, after_lost_race,
}
use delivery_plus.Orders.Checkout.{
  CreateOrderDto, checkout_anew, create_from_cart, find_prior, prepare_order, place_order,
  after_failed_create,
}

pub record HidesFeeSplit (o : Order) : Type 0 where
  pub driver : o.driver_fee_share ≡ none
  pub platform : o.platform_fee_share ≡ none
  pub driver_cancel : o.driver_cancel_fee_share ≡ none

-- Every order that the handler may return hides the split.
abbrev Hiding : Handler Order → Type 0
Hiding = Ensures (Holds HidesFeeSplit)

without_fee_split-HidesFeeSplit : (o : Order) → HidesFeeSplit (without_fee_split o)
unfolding without_fee_split
without_fee_split-HidesFeeSplit o = record { driver = refl; platform = refl; driver_cancel = refl }

abbrev OptionHides : Option Order → Type 0
OptionHides none = Unit
OptionHides (some o) = HidesFeeSplit o

selected-OptionHides : (found : Option Order) → OptionHides (selected found)
selected-OptionHides none = tt
selected-OptionHides (some o) = without_fee_split-HidesFeeSplit o

find_or_throw-Hiding : (id : ℕ) → Hiding (find_or_throw id)
unfolding find_or_throw combinators
find_or_throw-Hiding id s = read (Store.find_by_id id s.db.orders)
  where
    read : (found : Option Order) → Hiding (or_throw not_found (selected found))
    read none = tt
    read (some o) = without_fee_split-HidesFeeSplit o

-- After the order is read, a handler may return it.
after_read :
    (id : ℕ) (f : Order → Handler Order)
    → ((o : Order) → HidesFeeSplit o → Hiding (f o))
    → Hiding (find_or_throw id >>= f)
after_read id f h =
    Ensures-then HidesFeeSplit (Holds HidesFeeSplit) (λ e. tt) (find_or_throw id) f
      (find_or_throw-Hiding id) h

if-Hiding : (b : Bool) (p q : Handler Order) → Hiding p → Hiding q → Hiding (if b then p else q)
if-Hiding true p q h k = h
if-Hiding false p q h k = k

then-Hiding :
    {A : Type 0} (p : Proc Server A) (f : A → Handler Order)
    → ((a : A) → Hiding (f a))
    → Hiding (p >>= f)
then-Hiding = Ensures-bind (Holds HidesFeeSplit) (λ e. tt)

get_by_id-Hiding : (id requester : ℕ) (role : UserRole) → Hiding (get_by_id id requester role)
unfolding get_by_id
get_by_id-Hiding id requester role = after_read id _ (λ o h.
    if-Hiding (same UserRole-discrete role UserRole.admin || o.customer_id == requester) _ _ h (
      if-Hiding (same UserRole-discrete role UserRole.restaurant_owner) _ _
        (then-Hiding (assert_ownership o.restaurant_id requester) _ (λ _. h)) tt))

after_lost_race-Hiding : (id : ℕ) (target : OrderStatus) → Hiding (after_lost_race id target)
unfolding after_lost_race
after_lost_race-Hiding id target =
    after_read id _ (λ o h. if-Hiding (same OrderStatus-discrete o.status target) _ _ h tt)

find_prior-OptionHides :
    (customer_id : ℕ) (key : Option ℕ) → Ensures (Holds OptionHides) (find_prior customer_id key)
unfolding find_prior combinators
find_prior-OptionHides customer_id none = tt
find_prior-OptionHides customer_id (some key) =
    λ s. selected-OptionHides (find_by_customer_and_idempotency_key customer_id key s.db.orders)

update_status-OptionHides :
    (id : ℕ) (from to : OrderStatus) (event : Order → BaseEvent OrderEventType OrderPayload)
    (outcome : Option OrderOutcome) (db : Database)
    → OptionHides (Store.update_status id from to event outcome db).0
unfolding Store.update_status
update_status-OptionHides id from to event outcome db = written (Store.find_by_id id db.orders) refl
  where
    written :
        (found : Option Order)
        → Store.find_by_id id db.orders ≡ found
        → OptionHides (Store.update_status id from to event outcome db).0
    written none e = rw (e, Store.update_status) tt
    written (some o) e = elim (Bool-cases (same OrderStatus-discrete o.status from)) [
      | inl eq ↦
          rw (e, Store.update_status, eq)
            (without_fee_split-HidesFeeSplit (set_status to outcome o))
      | inr ne ↦ rw (e, Store.update_status, ne) tt
    ]

module _ (c : Config) where
  after_write :
      (id : ℕ) (target : OrderStatus) (updated : Option Order)
      → OptionHides updated
      → Hiding (elim updated [ none ↦ after_lost_race id target | some o' ↦ kick >> ret o' ])
  after_write id target none h = after_lost_race-Hiding id target
  after_write id target (some o) h = then-Hiding kick _ (λ _. h)

  write_status-Hiding :
      (id : ℕ) (role : UserRole) (dto : UpdateOrderStatusDto) (o : Order)
      → Hiding (write_status c id role dto o)
  unfolding write_status combinators transaction
  write_status-Hiding id role dto o = λ s. after_write id dto.status _ (
      update_status-OptionHides id o.status dto.status
        (order_event c (order_status_event dto.status)) (outcome_for dto.status role dto.reason)
        s.db)

  update_status-Hiding :
      (id requester : ℕ) (role : UserRole) (dto : UpdateOrderStatusDto)
      → Hiding (update_status c id requester role dto)
  unfolding update_status
  update_status-Hiding id requester role dto = after_read id _ (λ o h.
      then-Hiding (assert_may_update requester role dto.status o) _ (λ _.
        if-Hiding (same OrderStatus-discrete o.status dto.status) _ _ h (
          if-Hiding
            (is_transition_allowed OrderStatus-discrete order_transitions o.status dto.status) _ _
            (write_status-Hiding id role dto o) tt)))

  place_order-Hiding : (token : ℕ) (n : NewOrder) → Hiding (place_order c token n)
  unfolding place_order
  place_order-Hiding token n = then-Hiding _ _ (λ placed.
      then-Hiding _ _
        (λ o. then-Hiding _ _ (λ _. then-Hiding _ _ (λ _. without_fee_split-HidesFeeSplit o))))

  after_prior :
      (p : Handler Order) (winner : Option Order)
      → OptionHides winner
      → Hiding p
      → Hiding (elim winner [ none ↦ p | some order ↦ ret order ])
  after_prior p none h k = k
  after_prior p (some o) h k = h

  create_from_cart-Hiding :
      (customer_id token : ℕ) (key : Option ℕ) (checkout : CreateOrderDto)
      → Hiding (create_from_cart c customer_id token key checkout)
  unfolding create_from_cart checkout_anew after_failed_create
  create_from_cart-Hiding customer_id token key checkout =
      Ensures-then OptionHides (Holds HidesFeeSplit) (λ e. tt) (find_prior customer_id key) _
        (find_prior-OptionHides customer_id key)
        (λ prior h. after_prior _ prior h (
          then-Hiding (prepare_order c customer_id token key checkout) _ (λ n.
            Ensures-catch (Holds HidesFeeSplit) (after_failed_create c customer_id key)
              (place_order c token n)
              (λ e.
                Ensures-then OptionHides (Holds HidesFeeSplit) (λ e. tt)
                  (find_prior customer_id key) _ (find_prior-OptionHides customer_id key)
                  (λ winner k. after_prior _ winner k tt))
              (place_order-Hiding token n))))

-- Whatever other requests do between the steps, an order that is returned by a read, an update or a
-- checkout, also by a checkout that found an earlier order of its key, shows no part of the fee split.
pub replies_hide_fee_split :
    (c : Config) (id user token : ℕ) (role : UserRole) (dto : UpdateOrderStatusDto) (key : Option ℕ)
    (checkout : CreateOrderDto) (others : List (Server → Server)) (s : Server)
    → Holds HidesFeeSplit (run (get_by_id id user role) others s).0
      × Holds HidesFeeSplit (run (update_status c id user role dto) others s).0
      × Holds HidesFeeSplit (run (create_from_cart c user token key checkout) others s).0
replies_hide_fee_split c id user token role dto key checkout others s = (
  run-Ensures (Holds HidesFeeSplit) (get_by_id id user role) others s
      (get_by_id-Hiding id user role),
  run-Ensures (Holds HidesFeeSplit) (update_status c id user role dto) others s
      (update_status-Hiding c id user role dto),
  run-Ensures (Holds HidesFeeSplit) (create_from_cart c user token key checkout) others s
      (create_from_cart-Hiding c user token key checkout),
)
