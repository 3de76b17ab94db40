-- ===== src/Orders/Steps/Handlers.antt =====
-- Each atomic step of each handler is a step of order-service, whatever the handler has read before.
use delivery_plus.Prelude.{ℕ, ◌≡◌, true, Option, none, some, Bool-cases, inl, inr}
use delivery_plus.Shared.Enums.{UserRole, OrderStatus}
use delivery_plus.Shared.Events.{PaymentEventType, DeliveryEventType}
use delivery_plus.Shared.Errors.{Error}
use delivery_plus.Shared.Lifecycle.{OrderMoves}
use delivery_plus.Proc.{Proc, ◌>>=◌, throw_if}
use delivery_plus.Proc.Rules.{
  Guarantees, at_end, at_step, Guarantees-bind, Guarantees-catch, Guarantees-option, guarantees,
}
use delivery_plus.Orders.Rules.{is_role_allowed_for_transition}
use delivery_plus.Orders.Outcome.{OrderPaymentStatus}
use delivery_plus.Orders.Store.{Order, NewOrder}
use delivery_plus.Orders.Server.{
  Config, Server, transaction, kick, find_or_throw, assert_ownership, get_by_id,
}
use delivery_plus.Orders.UpdateStatus.{
  record_payment, UpdateOrderStatusDto, assert_may_update, after_lost_race, write_status,
  update_status, sync_order, sync_status_from_event, on_payment_event, on_delivery_event,
}
use delivery_plus.Orders.Checkout.{
  find_prior, get_own_profile, get_cart, clear_cart, CreateOrderDto, checkout_anew, prepare_order,
  place_order, after_failed_create, create_from_cart, quote, or_null, resolve_delivery_address,
  customer_first_name, assert_verified_phone,
}
use delivery_plus.Orders.Rules.{OrderListFilter}
use delivery_plus.Orders.Listing.{list_by_customer, list_by_restaurant, get_fee_split}
use delivery_plus.Orders.Summary.{today_summary}
use delivery_plus.Orders.Steps.{Step, reads, kicks, clears, moves, places, pays}

module _ (c : Config) where
  abbrev pub Steps : {A : Type 0} → Proc Server A → Type 0
  Steps = Guarantees (Step c)

  ruleset steps = (guarantees, reads, kicks, clears, at_step, Guarantees-bind)

  pub find_or_throw-Steps : (id : ℕ) → Steps (find_or_throw id)
  unfolding find_or_throw
  find_or_throw-Steps id = search steps

  pub assert_ownership-Steps : (r u : ℕ) → Steps (assert_ownership r u)
  unfolding assert_ownership
  assert_ownership-Steps r u = search steps

  pub kick-Steps : Steps kick
  unfolding kick
  kick-Steps = search steps

  pub get_by_id-Steps : (id requester : ℕ) (role : UserRole) → Steps (get_by_id id requester role)
  unfolding get_by_id
  get_by_id-Steps id requester role =
      search (steps, find_or_throw-Steps, assert_ownership-Steps) depth 9

  pub after_lost_race-Steps : (id : ℕ) (target : OrderStatus) → Steps (after_lost_race id target)
  unfolding after_lost_race
  after_lost_race-Steps id target = search (steps, find_or_throw-Steps)

  -- What follows the checks may use that the role is allowed.
  pub assert_may_update-Steps :
      (requester : ℕ) (role : UserRole) (target : OrderStatus) (order : Order) {A : Type 0}
      {f : Unit {0} → Proc Server A}
      → (is_role_allowed_for_transition target role ≡ true → (u : Unit {0}) → Steps (f u))
      → Steps (assert_may_update requester role target order >>= f)
  unfolding assert_may_update
  assert_may_update-Steps requester role target order h =
      elim (Bool-cases (is_role_allowed_for_transition target role)) [
        | inl allowed ↦ Guarantees-bind (search (steps, assert_ownership-Steps) depth 9) (h allowed)
        | inr refused ↦ rw refused (unfold ◌>>=◌ throw_if in at_end _)
      ]

  pub write_status-Steps :
      (id : ℕ) (role : UserRole) (dto : UpdateOrderStatusDto) (order : Order)
      → OrderMoves order.status dto.status
      → is_role_allowed_for_transition dto.status role ≡ true
      → Steps (write_status c id role dto order)
  unfolding write_status
  write_status-Steps id role dto order m r =
      Guarantees-bind
        (unfold transaction in
          at_step (λ s. moves s id order.status dto.status role dto.reason m r) (λ s. at_end _))
        (λ updated.
          Guarantees-option updated (after_lost_race-Steps id dto.status)
            (λ o. Guarantees-bind kick-Steps (λ _. at_end _)))

  pub update_status-Steps :
      (id requester : ℕ) (role : UserRole) (dto : UpdateOrderStatusDto)
      → Steps (update_status c id requester role dto)
  unfolding update_status
  update_status-Steps id requester role dto = Guarantees-bind (find_or_throw-Steps id) (λ order.
      assert_may_update-Steps requester role dto.status order
        (λ allowed _. search (steps, write_status-Steps) depth 9))

  sync_order-Steps :
      (id : ℕ) (target : OrderStatus) (read : Option Order) → Steps (sync_order c id target read)
  unfolding sync_order
  sync_order-Steps id target none = at_end _
  sync_order-Steps id target (some o) = search (steps, update_status-Steps) depth 9

  pub sync_status_from_event-Steps :
      (id : ℕ) (target : OrderStatus) → Steps (sync_status_from_event c id target)
  unfolding sync_status_from_event
  sync_status_from_event-Steps id target =
      Guarantees-bind (search steps) (λ read. sync_order-Steps id target read)

  pub record_payment-Steps :
      (id : ℕ) (status : OrderPaymentStatus) → Steps (record_payment id status)
  unfolding record_payment
  record_payment-Steps id status = at_step (λ s. pays s id status) (λ s. at_end _)

  pub on_payment_event-Steps : (e : PaymentEventType) (id : ℕ) → Steps (on_payment_event c e id)
  unfolding on_payment_event
  on_payment_event-Steps PaymentEventType.created id =
      search (Guarantees-bind, record_payment-Steps, sync_status_from_event-Steps)
  on_payment_event-Steps _ id =
      search (Guarantees-bind, record_payment-Steps, sync_status_from_event-Steps)

  pub on_delivery_event-Steps : (e : DeliveryEventType) (id : ℕ) → Steps (on_delivery_event c e id)
  unfolding on_delivery_event
  on_delivery_event-Steps DeliveryEventType.created id = at_end _
  on_delivery_event-Steps DeliveryEventType.driver_assigned id = sync_status_from_event-Steps id _
  on_delivery_event-Steps DeliveryEventType.picked_up id = sync_status_from_event-Steps id _
  on_delivery_event-Steps DeliveryEventType.in_transit id = at_end _
  on_delivery_event-Steps DeliveryEventType.completed id = sync_status_from_event-Steps id _
  on_delivery_event-Steps DeliveryEventType.cancelled id = at_end _

  pub find_prior-Steps : (customer_id : ℕ) (key : Option ℕ) → Steps (find_prior customer_id key)
  unfolding find_prior
  find_prior-Steps customer_id none = at_end _
  find_prior-Steps customer_id (some key) = search steps

  pub profile-Steps : (token : ℕ) → Steps (get_own_profile token)
  unfolding get_own_profile
  profile-Steps token = search steps

  pub cart-Steps : (token : ℕ) → Steps (get_cart token)
  unfolding get_cart
  cart-Steps token = search steps

  pub clear_cart-Steps : (token : ℕ) → Steps (clear_cart token)
  unfolding clear_cart
  clear_cart-Steps token = at_step (λ s. clears s token) (λ s. at_end _)

  pub address-Steps :
      (checkout : CreateOrderDto) (token : ℕ) → Steps (resolve_delivery_address checkout token)
  unfolding resolve_delivery_address
  address-Steps checkout token =
      Guarantees-option (or_null checkout.delivery_address)
        (Guarantees-bind (search steps) (λ _.
          Guarantees-bind (profile-Steps token)
            (λ profile. Guarantees-option _ (at_end _) (λ _. at_end _))))
        (λ _. at_end _)

  pub first_name-Steps : (token : ℕ) → Steps (customer_first_name token)
  unfolding customer_first_name
  first_name-Steps token = search (steps, profile-Steps, Guarantees-catch)

  pub verified-Steps : (token : ℕ) → Steps (assert_verified_phone token)
  unfolding assert_verified_phone
  verified-Steps token = search (steps, profile-Steps)

  pub prepare_order-Steps :
      (customer_id token : ℕ) (key : Option ℕ) (checkout : CreateOrderDto)
      → Steps (prepare_order c customer_id token key checkout)
  unfolding prepare_order
  prepare_order-Steps customer_id token key checkout =
      search (steps, cart-Steps, address-Steps, first_name-Steps, verified-Steps) depth 20

  pub place_order-Steps : (token : ℕ) (n : NewOrder) → Steps (place_order c token n)
  unfolding place_order
  place_order-Steps token n =
      Guarantees-bind (unfold transaction in at_step (λ s. places s n) (λ s. at_end _))
        (λ placed. search (steps, kick-Steps, clear_cart-Steps) depth 9)

  pub quote-Steps : (token : ℕ) → Steps (quote c token)
  unfolding quote
  quote-Steps token = search (steps, cart-Steps) depth 9

  pub after_failed_create-Steps :
      (customer_id : ℕ) (key : Option ℕ) (e : Error)
      → Steps (after_failed_create c customer_id key e)
  unfolding after_failed_create
  after_failed_create-Steps customer_id key e =
      Guarantees-bind (find_prior-Steps customer_id key)
        (λ winner. Guarantees-option winner (at_end _) (λ _. at_end _))

  pub create_from_cart-Steps :
      (customer_id token : ℕ) (key : Option ℕ) (checkout : CreateOrderDto)
      → Steps (create_from_cart c customer_id token key checkout)
  unfolding create_from_cart checkout_anew
  create_from_cart-Steps customer_id token key checkout =
      Guarantees-bind (find_prior-Steps customer_id key) (λ prior.
        Guarantees-option prior
          (Guarantees-bind (prepare_order-Steps customer_id token key checkout) (λ n.
            Guarantees-catch (place_order-Steps token n)
              (after_failed_create-Steps customer_id key)))
          (λ _. at_end _))

  pub list_by_customer-Steps :
      (customer page limit : ℕ) (filter : Option OrderListFilter)
      → Steps (list_by_customer customer page limit filter)
  unfolding list_by_customer
  list_by_customer-Steps customer page limit filter = search steps

  pub list_by_restaurant-Steps :
      (restaurant requester page limit : ℕ)
      → Steps (list_by_restaurant restaurant requester page limit)
  unfolding list_by_restaurant
  list_by_restaurant-Steps restaurant requester page limit = search (steps, assert_ownership-Steps)

  pub today_summary-Steps : (restaurant requester : ℕ) → Steps (today_summary restaurant requester)
  unfolding today_summary
  today_summary-Steps restaurant requester = search (steps, assert_ownership-Steps)

  pub get_fee_split-Steps : (id : ℕ) → Steps (get_fee_split id)
  unfolding get_fee_split
  get_fee_split-Steps id = search steps
