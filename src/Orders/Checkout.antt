-- ===== src/Orders/Checkout.antt =====
-- Placing an order: `OrdersService.createFromCart` and `quote` (services/orders.service.ts).
use delivery_plus.Prelude.{ℕ, Bool, true, false, not, ◌||◌, Option, none, some, [], ◌∷◌, same, take}
use delivery_plus.Shared.Errors.{Error, bad_request, phone_not_verified}
use delivery_plus.Shared.Enums.{RestaurantStatus, RestaurantStatus-discrete}
use delivery_plus.Shared.Text.{Text, trim, first_word}
use delivery_plus.Proc.{
  act, done, ret, throw, gets, or_throw, request, catch, ◌>>=◌, ◌>>◌, throw_if, when,
}
use delivery_plus.Orders.Pricing.{price_order}
use delivery_plus.Orders.Store.{
  OrderEventType, DeliveryAddress, Order, NewOrder, selected, without_fee_split,
  find_by_customer_and_idempotency_key, create,
}
use delivery_plus.Orders.Server.{Cart, Config, Handler, Profile, transaction, kick, order_event}

pub record CreateOrderDto : Type 0 where
  pub delivery_address : Option Text
  pub delivery_notes : Option Text
  pub delivery_latitude : Option ℕ
  pub delivery_longitude : Option ℕ

unfoldable pub get_own_profile : ℕ → Handler Profile
get_own_profile token = request (λ s. s.world.profile token)

unfoldable pub get_cart : ℕ → Handler Cart
get_cart token = request (λ s. s.world.cart token)

unfoldable pub clear_cart : ℕ → Handler (Unit {0})
clear_cart token =
    act (λ s. record s { cleared = token ∷ s.cleared }) (λ s. done (s.world.clear token))

unfoldable pub find_prior : ℕ → Option ℕ → Handler (Option Order)
find_prior customer_id none = ret none
find_prior customer_id (some key) =
    gets (λ s. selected (find_by_customer_and_idempotency_key customer_id key s.db.orders))

-- `value || null`
abbrev pub or_null : Option Text → Option Text
or_null none = none
or_null (some []) = none
or_null (some (c ∷ t)) = some (c ∷ t)

abbrev pub is_given : {A : Type 0} → Option A → Bool
is_given none = false
is_given (some _) = true

unfoldable pub resolve_delivery_address : CreateOrderDto → ℕ → Handler DeliveryAddress
resolve_delivery_address checkout token = elim (or_null checkout.delivery_address) [
  | some address ↦ ret (record {
    address = address;
    notes = or_null checkout.delivery_notes;
    latitude = checkout.delivery_latitude;
    longitude = checkout.delivery_longitude;
  })
  | none ↦ do
    throw_if (is_given checkout.delivery_latitude || is_given checkout.delivery_longitude)
        bad_request
    profile ← get_own_profile token
    elim (or_null (elim profile.address [ none ↦ none | some a ↦ some (trim a) ])) [
      | none ↦ throw bad_request
      | some address ↦ ret (record {
        address = address;
        notes = or_null checkout.delivery_notes;
        latitude = none;
        longitude = none;
      })
    ]
]

-- The first word of the trimmed name, of at most 60 code units.
abbrev pub first_name_of : Option Text → Option Text
first_name_of none = none
first_name_of (some name) = elim (trim name) [
  | [] ↦ none
  | c ∷ t ↦ some (take 60 (first_word (c ∷ t)))
]

-- Best effort: no failure of user-service reaches the caller.
unfoldable pub customer_first_name : ℕ → Handler (Option Text)
customer_first_name token =
    catch (λ _. ret none)
      (do profile ← get_own_profile token; ret (first_name_of profile.full_name))

unfoldable pub assert_verified_phone : ℕ → Handler (Unit {0})
assert_verified_phone token = do
  profile ← get_own_profile token
  throw_if (not (is_given profile.phone_verified_at)) phone_not_verified

-- The currency, always EGP, is left out.
pub record OrderQuote : Type 0 where
  pub subtotal_amount : Text
  pub delivery_fee : Text
  pub total_amount : Text

module _ (c : Config) where
  unfoldable pub quote : ℕ → Handler OrderQuote
  quote token = do
    cart ← get_cart token
    let priced = price_order (elim cart.items [ [] ↦ 0 | i ∷ items ↦ cart.total ]) c.pricing
    ret (record {
      subtotal_amount = priced.subtotal_amount;
      delivery_fee = priced.delivery_fee;
      total_amount = priced.total_amount;
    })

  -- What the cart, the restaurant and the address say, before anything is written.
  unfoldable pub prepare_order : ℕ → ℕ → Option ℕ → CreateOrderDto → Handler NewOrder
  prepare_order customer_id token key checkout = do
    when c.phone_verification_required (assert_verified_phone token)
    cart ← get_cart token
    throw_if (elim cart.items [ [] ↦ true | i ∷ items ↦ false ]) bad_request
    restaurant_id ← or_throw bad_request cart.restaurant_id
    status ← request (λ s. s.world.restaurant restaurant_id)
    throw_if (not (same RestaurantStatus-discrete status RestaurantStatus.open_now)) bad_request
    delivery ← resolve_delivery_address checkout token
    first_name ← customer_first_name token
    ret (record {
      customer_id = customer_id;
      restaurant_id = restaurant_id;
      items = cart.items;
      pricing = price_order cart.total c.pricing;
      idempotency_key = key;
      delivery = delivery;
      customer_first_name = first_name;
    })

  -- The body of the `try`.
  unfoldable pub place_order : ℕ → NewOrder → Handler Order
  place_order token n = do
    placed ← transaction (create n (order_event c OrderEventType.created))
    order ← done placed
    kick
    clear_cart token
    ret (without_fee_split order)

  -- The body of the `catch`: with a key, a concurrent request with the same key may have won.
  unfoldable pub after_failed_create : ℕ → Option ℕ → Error → Handler Order
  after_failed_create customer_id key e = do
    winner ← find_prior customer_id key
    elim winner [ none ↦ throw e | some order ↦ ret order ]

  -- The checkout where no earlier order of the key is found.
  unfoldable pub checkout_anew : ℕ → ℕ → Option ℕ → CreateOrderDto → Handler Order
  checkout_anew customer_id token key checkout = do
    n ← prepare_order customer_id token key checkout
    catch (after_failed_create customer_id key) (place_order token n)

  unfoldable pub create_from_cart : ℕ → ℕ → Option ℕ → CreateOrderDto → Handler Order
  create_from_cart customer_id token key checkout = do
    prior ← find_prior customer_id key
    elim prior [ some order ↦ ret order | none ↦ checkout_anew customer_id token key checkout ]
