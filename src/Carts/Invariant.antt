-- ===== src/Carts/Invariant.antt =====
-- Every cart in Redis is of one restaurant, over any interleaving of requests.
use delivery_plus.Prelude.{
  ℕ, ◌<◌, ◌≡◌, refl, subst, not, ◌&&◌, Option, none, some, List, ◌==◌, arith, Bool-cases, inl, inr,
}
use delivery_plus.Shared.Errors.{bad_request}
use delivery_plus.Proc.{
  Result, ok, err, run, combinators, ◌>>=◌, ◌>>◌, ret, or_throw, throw_if, done,
}
use delivery_plus.Proc.Rules.{
  Maintains, Maintains-bind, Maintains-throw_if, Respects, run-Maintains,
}
use delivery_plus.Carts.Service.{
  UserCart, CartWithTotal, MenuItemDetails, Redis, Handler, Request, find, set_cart, save, delete,
  get_item, or_empty, get_cart, is_other, has_items, added, add_to, add_item, require_cart,
  persist_or_clear, set_quantity, has_item, update_item_quantity, without_item, remove_item,
  clear_cart, handle, gets_cart, adds, updates, removes, clears,
}
use delivery_plus.Carts.OneRestaurant.{
  IsOneRestaurants, added-IsOneRestaurants, changed-IsOneRestaurants, set_quantity-IsOf,
  set_quantity-HasDistinctItems, without_item-IsOf, without_item-HasDistinctItems,
}

module _ (restaurant_of : ℕ → ℕ) where
  -- menu-service answers with the item that was asked for, and an item stays with its restaurant.
  abbrev pub IsFaithfulMenu : (ℕ → Result MenuItemDetails) → Type 0
  IsFaithfulMenu menu =
      (id : ℕ) (item : MenuItemDetails)
      → menu id ≡ ok item
      → (item.id ≡ id) × (restaurant_of id ≡ item.restaurant_id)

  pub record IsConsistent (s : Redis) : Type 0 where
    pub menu : IsFaithfulMenu s.menu
    pub carts :
        (u : ℕ) (cart : UserCart) → s.carts u ≡ some cart → IsOneRestaurants restaurant_of cart

  -- The requests that pass validation: something is added.
  abbrev pub IsValid : Request → Type 0
  IsValid (adds user_id id quantity) = 0 < quantity
  IsValid _ = Unit

  set_cart-IsConsistent :
      (u : ℕ) (cart : UserCart) (s : Redis)
      → IsOneRestaurants restaurant_of cart
      → IsConsistent s
      → IsConsistent (set_cart u (some cart) s)
  set_cart-IsConsistent u cart s w i = record {
    menu = i.menu;
    carts = λ j c h. elim (Bool-cases (j == u)) [
      | inl eq ↦ saved c (ground (arith, eq))
      | inr ne ↦ i.carts j c (ground (arith, ne))
    ];
  }
    where
      saved : (c : UserCart) → cart ≡ c → IsOneRestaurants restaurant_of c
      saved c e = subst (IsOneRestaurants restaurant_of) e w

  cleared-IsConsistent : (u : ℕ) (s : Redis) → IsConsistent s → IsConsistent (set_cart u none s)
  cleared-IsConsistent u s i = record {
    menu = i.menu;
    carts = λ j c h. elim (Bool-cases (j == u)) [
      | inl eq ↦ absurd (ground (arith, eq))
      | inr ne ↦ i.carts j c (ground (arith, ne))
    ];
  }

  persist_or_clear-Maintains :
      (cart : UserCart)
      → IsOneRestaurants restaurant_of cart
      → Maintains IsConsistent (persist_or_clear cart)
  unfolding persist_or_clear save delete combinators
  persist_or_clear-Maintains cart w = elim (Bool-cases (has_items cart.items)) [
    | inl some_left ↦ rw some_left (λ s i. (set_cart-IsConsistent cart.user_id cart s w i, tt))
    | inr empty ↦ rw empty (λ s i. (cleared-IsConsistent cart.user_id s i, tt))
  ]

  -- A handler that requires a cart, and writes from the cart that it read.
  required-Maintains :
      (user_id : ℕ) (rest : UserCart → Handler CartWithTotal)
      → ((cart : UserCart)
          → IsOneRestaurants restaurant_of cart
          → Maintains IsConsistent (rest cart))
      → Maintains IsConsistent (require_cart user_id >>= rest)
  unfolding require_cart find combinators
  required-Maintains user_id rest h = λ s i. (i, read (s.carts user_id) (i.carts user_id))
    where
      read :
          (found : Option UserCart)
          → ((cart : UserCart) → found ≡ some cart → IsOneRestaurants restaurant_of cart)
          → Maintains IsConsistent (or_throw bad_request found >>= rest)
      read none w = tt
      read (some cart) w = h cart (w cart refl)

  add_to-Maintains :
      (user_id id quantity : ℕ) (item : MenuItemDetails) (found : Option UserCart)
      → ((cart : UserCart) → found ≡ some cart → IsOneRestaurants restaurant_of cart)
      → item.id ≡ id
      → restaurant_of id ≡ item.restaurant_id
      → 0 < quantity
      → Maintains IsConsistent (add_to id quantity item (or_empty user_id found))
  unfolding add_to save combinators
  add_to-Maintains user_id id quantity item found w eid er q =
      let cart = or_empty user_id found in
      elim (Bool-cases (has_items cart.items && is_other cart.restaurant_id item.restaurant_id)) [
        | inl other ↦ rw other tt
        | inr free ↦ rw free (λ s i. (
          set_cart-IsConsistent cart.user_id (added id quantity item cart) s
              (added-IsOneRestaurants restaurant_of id quantity item user_id found w eid er q free)
              i,
          tt,
        ))
      ]

  add_item-Maintains :
      (user_id id quantity : ℕ)
      → 0 < quantity
      → Maintains IsConsistent (add_item user_id id quantity)
  unfolding add_item get_item find combinators
  add_item-Maintains user_id id quantity q = λ s i. (i, fetched (s.menu id) (i.menu id))
    where
      fetched :
          (reply : Result MenuItemDetails)
          → ((item : MenuItemDetails)
              → reply ≡ ok item
              → (item.id ≡ id) × (restaurant_of id ≡ item.restaurant_id))
          → Maintains IsConsistent (
              done reply >>= λ item.
              throw_if (not item.available) bad_request
              >> (find user_id >>= λ found. add_to id quantity item (or_empty user_id found)))
      fetched (err e) f = tt
      fetched (ok item) f =
          Maintains-throw_if IsConsistent (not item.available) bad_request _ (λ _ s i. (
            i,
            add_to-Maintains user_id id quantity item (s.carts user_id) (i.carts user_id)
                ((f item refl).0) ((f item refl).1) q,
          ))

  update_item_quantity-Maintains :
      (user_id id quantity : ℕ) → Maintains IsConsistent (update_item_quantity user_id id quantity)
  unfolding update_item_quantity
  update_item_quantity-Maintains user_id id quantity = required-Maintains user_id _ (λ cart w.
      Maintains-throw_if IsConsistent (not (has_item id cart.items)) bad_request _ (λ _.
        persist_or_clear-Maintains (record cart { items = set_quantity id quantity cart.items })
          (changed-IsOneRestaurants restaurant_of cart (set_quantity id quantity cart.items) w
            (λ r. set_quantity-IsOf restaurant_of r id quantity cart.items)
            (set_quantity-HasDistinctItems id quantity cart.items w.distinct))))

  remove_item-Maintains : (user_id id : ℕ) → Maintains IsConsistent (remove_item user_id id)
  unfolding remove_item
  remove_item-Maintains user_id id = required-Maintains user_id _ (λ cart w.
      persist_or_clear-Maintains (record cart { items = without_item id cart.items })
        (changed-IsOneRestaurants restaurant_of cart (without_item id cart.items) w
          (λ r. without_item-IsOf restaurant_of r id cart.items)
          (without_item-HasDistinctItems id cart.items w.distinct)))

  handle-Maintains : (r : Request) → IsValid r → Maintains IsConsistent (handle r)
  unfolding handle get_cart find clear_cart delete combinators
  handle-Maintains (gets_cart user_id) v = λ s i. (i, tt)
  handle-Maintains (adds user_id id quantity) v =
      Maintains-bind IsConsistent (add_item user_id id quantity) (λ _. ret tt)
        (add_item-Maintains user_id id quantity v) (λ _. tt)
  handle-Maintains (updates user_id id quantity) v =
      Maintains-bind IsConsistent (update_item_quantity user_id id quantity) (λ _. ret tt)
        (update_item_quantity-Maintains user_id id quantity) (λ _. tt)
  handle-Maintains (removes user_id id) v =
      Maintains-bind IsConsistent (remove_item user_id id) (λ _. ret tt)
        (remove_item-Maintains user_id id) (λ _. tt)
  handle-Maintains (clears user_id) v = λ s i. (cleared-IsConsistent user_id s i, tt)

-- Where menu-service answers with the item that was asked for and an item stays with its restaurant:
-- whatever a valid request and others that keep this do, in any interleaving of their steps, every
-- stored cart holds items of one restaurant, the one that it names, each item once and in a positive
-- quantity.
pub handle-IsConsistent :
    (restaurant_of : ℕ → ℕ) (r : Request) (others : List (Redis → Redis)) (s : Redis)
    → IsValid restaurant_of r
    → Respects (IsConsistent restaurant_of) others
    → IsConsistent restaurant_of s
    → IsConsistent restaurant_of (run (handle r) others s).1
handle-IsConsistent restaurant_of r others s v =
    run-Maintains (IsConsistent restaurant_of) (handle r) others s
      (handle-Maintains restaurant_of r v)
