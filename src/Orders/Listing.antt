-- ===== src/Orders/Listing.antt =====
-- Lists of orders, page by page (services/orders.service.ts, repositories/orders.repository.ts), and the
-- internal fee split.
pub mod Pages
use delivery_plus.Prelude.{
  ℕ, ◌<◌, ◌≡◌, Bool, true, ◌&&◌, Option, none, some, List, [], ◌∷◌, ◌==◌, includes, if◌then◌else◌,
}
use delivery_plus.Shared.Errors.{not_found}
use delivery_plus.Shared.Enums.{OrderStatus, OrderStatus-discrete}
use delivery_plus.Shared.Text.{Text, text}
use delivery_plus.Shared.Paging.{PaginatedResult, paginated}
use delivery_plus.Proc.{ret, gets, or_throw, ◌>>=◌, ◌>>◌}
use delivery_plus.Orders.Rules.{OrderListFilter, order_list_filter_statuses}
use delivery_plus.Orders.Store.{Order, without_fee_split, find_by_id}
use delivery_plus.Orders.Server.{Handler, assert_ownership}

abbrev pub is_in : Option (List OrderStatus) → OrderStatus → Bool
is_in none status = true
is_in (some statuses) status = includes OrderStatus-discrete status statuses

-- The rows that `findByCustomer` and `findByRestaurant` count and cut pages of. The order of the table
-- stands for ORDER BY "createdAt" DESC, without ties.
unfoldable pub customer_orders : ℕ → Option (List OrderStatus) → List Order → List Order
customer_orders customer_id statuses [] = []
customer_orders customer_id statuses (o ∷ orders) =
    let rest = customer_orders customer_id statuses orders in
    if o.customer_id == customer_id && is_in statuses o.status
    then without_fee_split o ∷ rest
    else rest

unfoldable pub restaurant_orders : ℕ → List Order → List Order
restaurant_orders restaurant_id [] = []
restaurant_orders restaurant_id (o ∷ orders) =
    let rest = restaurant_orders restaurant_id orders in
    if o.restaurant_id == restaurant_id then without_fee_split o ∷ rest else rest

abbrev pub filter_statuses : Option OrderListFilter → Option (List OrderStatus)
filter_statuses none = none
filter_statuses (some filter) = some (order_list_filter_statuses filter)

abbrev pub customer_page : ℕ → ℕ → ℕ → Option OrderListFilter → List Order → PaginatedResult Order
customer_page customer_id page limit filter orders =
    paginated page limit (customer_orders customer_id (filter_statuses filter) orders)

unfoldable pub list_by_customer :
    ℕ → ℕ → ℕ → Option OrderListFilter → Handler (PaginatedResult Order)
list_by_customer customer_id page limit filter =
    gets (λ s. customer_page customer_id page limit filter s.db.orders)

unfoldable pub list_by_restaurant : ℕ → ℕ → ℕ → ℕ → Handler (PaginatedResult Order)
list_by_restaurant restaurant_id requester page limit = do
  assert_ownership restaurant_id requester
  gets (λ s. paginated page limit (restaurant_orders restaurant_id s.db.orders))

pub record OrderFeeSplit : Type 0 where
  pub order_id : ℕ
  pub delivery_fee : Text
  pub driver_fee_share : Text
  pub platform_fee_share : Text
  pub driver_cancel_fee_share : Text

abbrev pub or_zero : Option Text → Text
or_zero none = text "0.00"
or_zero (some amount) = amount

-- The route is for administrators, the other services among them; it selects the split.
unfoldable pub get_fee_split : ℕ → Handler OrderFeeSplit
get_fee_split id = do
  found ← gets (λ s. find_by_id id s.db.orders)
  split ← or_throw not_found found
  ret (record {
    order_id = split.id;
    delivery_fee = or_zero split.delivery_fee;
    driver_fee_share = or_zero split.driver_fee_share;
    platform_fee_share = or_zero split.platform_fee_share;
    driver_cancel_fee_share = or_zero split.driver_cancel_fee_share;
  })
