-- ===== src/Carts/Service.antt =====
-- `CartService`, its model and its repository (services/cart.service.ts, entities/cart.model.ts,
-- repositories/cart.repository.ts). A command of Redis is one step. Prices are in piasters, and the
-- time stamp of a cart is left out; that a cart expires is up to what happens between the steps.
use delivery_plus.Prelude.{
  ℕ, ◌+◌, ◌*◌, Bool, true, false, not, ◌&&◌, Option, none, some, List, [], ◌∷◌, ◌++◌, ◌==◌,
  if◌then◌else◌,
}
use delivery_plus.Shared.Errors.{bad_request, conflict}
use delivery_plus.Shared.Text.{Text}
use delivery_plus.Proc.{Proc, act, Result, ret, gets, request, or_throw, ◌>>=◌, ◌>>◌, throw_if}

pub record CartItem : Type 0 where
  pub menu_item_id : ℕ
  pub name : Text
  pub price : ℕ
  pub quantity : ℕ

pub record UserCart : Type 0 where
  pub user_id : ℕ
  pub restaurant_id : Option ℕ
  pub items : List CartItem

pub record CartWithTotal : Type 0 where
  pub cart : UserCart
  pub total : ℕ

unfoldable pub empty_cart : ℕ → UserCart
empty_cart user_id = record { user_id = user_id; restaurant_id = none; items = [] }

unfoldable pub calculate_total : List CartItem → ℕ
calculate_total [] = 0
calculate_total (i ∷ items) = i.price * i.quantity + calculate_total items

abbrev pub with_total : UserCart → CartWithTotal
with_total cart = record { cart = cart; total = calculate_total cart.items }

-- What menu-service answers about an item.
pub record MenuItemDetails : Type 0 where
  pub id : ℕ
  pub restaurant_id : ℕ
  pub name : Text
  pub price : ℕ
  pub available : Bool

pub record Redis : Type 0 where
  pub carts : ℕ → Option UserCart
  pub menu : ℕ → Result MenuItemDetails

abbrev pub Handler : Type 0 → Type 0
Handler A = Proc Redis A

unfoldable pub find : ℕ → Handler (Option UserCart)
find user_id = gets (λ s. s.carts user_id)

abbrev pub set_cart : ℕ → Option UserCart → Redis → Redis
set_cart user_id cart s = record s { carts = λ u. if u == user_id then cart else s.carts u }

unfoldable pub save : UserCart → Handler (Unit {0})
save cart = act (set_cart cart.user_id (some cart)) (λ _. ret tt)

unfoldable pub delete : ℕ → Handler (Unit {0})
delete user_id = act (set_cart user_id none) (λ _. ret tt)

unfoldable pub get_item : ℕ → Handler MenuItemDetails
get_item id = request (λ s. s.menu id)

abbrev pub or_empty : ℕ → Option UserCart → UserCart
or_empty user_id none = empty_cart user_id
or_empty user_id (some cart) = cart

unfoldable pub get_cart : ℕ → Handler CartWithTotal
get_cart user_id = do found ← find user_id; ret (with_total (or_empty user_id found))

abbrev pub is_other : Option ℕ → ℕ → Bool
is_other none restaurant_id = false
is_other (some r) restaurant_id = not (r == restaurant_id)

abbrev pub has_items : List CartItem → Bool
has_items [] = false
has_items (_ ∷ _) = true

unfoldable pub has_item : ℕ → List CartItem → Bool
has_item id [] = false
has_item id (i ∷ items) = if i.menu_item_id == id then true else has_item id items

-- `existing.quantity += …` on the first item with the id.
unfoldable pub increase : ℕ → ℕ → List CartItem → List CartItem
increase id quantity [] = []
increase id quantity (i ∷ items) =
    if i.menu_item_id == id
    then record i { quantity = i.quantity + quantity } ∷ items
    else i ∷ increase id quantity items

-- The items after `dto` is added, for an item of the menu.
unfoldable pub with_item : ℕ → ℕ → MenuItemDetails → List CartItem → List CartItem
with_item id quantity item items =
    if has_item id items
    then increase id quantity items
    else items
      ++ record {
        menu_item_id = item.id;
        name = item.name;
        price = item.price;
        quantity = quantity;
      }
        ∷ []

abbrev pub added : ℕ → ℕ → MenuItemDetails → UserCart → UserCart
added id quantity item cart = record cart {
  restaurant_id = some item.restaurant_id;
  items = with_item id quantity item cart.items;
}

unfoldable pub add_to : ℕ → ℕ → MenuItemDetails → UserCart → Handler CartWithTotal
add_to id quantity item cart = do
  throw_if (has_items cart.items && is_other cart.restaurant_id item.restaurant_id) conflict
  save (added id quantity item cart)
  ret (with_total (added id quantity item cart))

unfoldable pub add_item : ℕ → ℕ → ℕ → Handler CartWithTotal
add_item user_id id quantity = do
  item ← get_item id
  throw_if (not item.available) bad_request
  found ← find user_id
  add_to id quantity item (or_empty user_id found)

unfoldable pub require_cart : ℕ → Handler UserCart
require_cart user_id = do found ← find user_id; or_throw bad_request found

unfoldable pub persist_or_clear : UserCart → Handler CartWithTotal
persist_or_clear cart =
    if has_items cart.items
    then save cart >> ret (with_total cart)
    else delete cart.user_id >> ret (with_total (empty_cart cart.user_id))

-- The first item with the id is dropped, or its quantity is set.
unfoldable pub set_quantity : ℕ → ℕ → List CartItem → List CartItem
set_quantity id quantity [] = []
set_quantity id quantity (i ∷ items) =
    let rest = set_quantity id quantity items in
    if i.menu_item_id == id
    then (if quantity == 0 then items else record i { quantity = quantity } ∷ items)
    else i ∷ rest

unfoldable pub update_item_quantity : ℕ → ℕ → ℕ → Handler CartWithTotal
update_item_quantity user_id id quantity = do
  cart ← require_cart user_id
  throw_if (not (has_item id cart.items)) bad_request
  persist_or_clear (record cart { items = set_quantity id quantity cart.items })

unfoldable pub without_item : ℕ → List CartItem → List CartItem
without_item id [] = []
without_item id (i ∷ items) =
    let rest = without_item id items in if i.menu_item_id == id then rest else i ∷ rest

unfoldable pub remove_item : ℕ → ℕ → Handler CartWithTotal
remove_item user_id id = do
  cart ← require_cart user_id
  persist_or_clear (record cart { items = without_item id cart.items })

unfoldable pub clear_cart : ℕ → Handler (Unit {0})
clear_cart user_id = delete user_id

pub data Request : Type 0 where
  gets_cart : (user_id : ℕ) → Request
  adds : (user_id id quantity : ℕ) → Request
  updates : (user_id id quantity : ℕ) → Request
  removes : (user_id id : ℕ) → Request
  clears : (user_id : ℕ) → Request

unfoldable pub handle : Request → Handler (Unit {0})
handle (gets_cart user_id) = get_cart user_id >>= λ _. ret tt
handle (adds user_id id quantity) = add_item user_id id quantity >>= λ _. ret tt
handle (updates user_id id quantity) = update_item_quantity user_id id quantity >>= λ _. ret tt
handle (removes user_id id) = remove_item user_id id >>= λ _. ret tt
handle (clears user_id) = clear_cart user_id
