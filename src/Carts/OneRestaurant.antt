-- ===== src/Carts/OneRestaurant.antt =====
-- A cart holds items of one restaurant, each once and in a positive quantity.
use delivery_plus.Prelude.{
  ℕ, ◌<◌, ◌≡◌, refl, ◌∙◌, subst, true, false, ◌&&◌, Option, none, some, List, [], ◌∷◌, ◌++◌, ◌==◌,
  arith, All, Bool-cases, inl, inr,
}
use delivery_plus.Carts.Service.{
  CartItem, UserCart, MenuItemDetails, empty_cart, or_empty, is_other, has_items, has_item,
  increase, with_item, added, set_quantity, without_item,
}

-- No item is in the list twice.
abbrev pub HasDistinctItems : List CartItem → Type 0
HasDistinctItems [] = Unit
HasDistinctItems (i ∷ items) = (has_item i.menu_item_id items ≡ false) × HasDistinctItems items

-- `restaurant_of` says which restaurant's menu has an item.
module _ (restaurant_of : ℕ → ℕ) where
  abbrev pub IsOf : ℕ → CartItem → Type 0
  IsOf r i = (restaurant_of i.menu_item_id ≡ r) × (0 < i.quantity)

  pub record IsOneRestaurants (cart : UserCart) : Type 0 where
    pub restaurant : ℕ
    pub known : cart.restaurant_id ≡ some restaurant
    pub theirs : All (IsOf restaurant) cart.items
    pub distinct : HasDistinctItems cart.items

has_item-increase :
    (j id quantity : ℕ) (items : List CartItem)
    → has_item j (increase id quantity items) ≡ has_item j items
unfolding has_item increase
has_item-increase j id quantity [] = refl
has_item-increase j id quantity (i ∷ items) = ground (arith, has_item-increase j id quantity items)

increase-HasDistinctItems :
    (id quantity : ℕ) (items : List CartItem)
    → HasDistinctItems items
    → HasDistinctItems (increase id quantity items)
unfolding increase
increase-HasDistinctItems id quantity [] h = tt
increase-HasDistinctItems id quantity (i ∷ items) (new, h) =
    elim (Bool-cases (i.menu_item_id == id)) [
      | inl eq ↦ rw eq (new, h)
      | inr ne ↦ rw ne (
        has_item-increase i.menu_item_id id quantity items ∙ new,
        increase-HasDistinctItems id quantity items h,
      )
    ]

has_item-snoc :
    (j : ℕ) (i : CartItem) (items : List CartItem)
    → has_item j items ≡ false
    → (i.menu_item_id == j) ≡ false
    → has_item j (items ++ i ∷ []) ≡ false
unfolding has_item
has_item-snoc j i [] h k = ground arith
has_item-snoc j i (x ∷ items) h k = ground (arith, has_item-snoc j i items)

snoc-HasDistinctItems :
    (i : CartItem) (items : List CartItem)
    → has_item i.menu_item_id items ≡ false
    → HasDistinctItems items
    → HasDistinctItems (items ++ i ∷ [])
unfolding has_item
snoc-HasDistinctItems i [] new h = (refl, tt)
snoc-HasDistinctItems i (x ∷ items) new (fresh, h) = (
  has_item-snoc x.menu_item_id i items fresh (ground arith),
  snoc-HasDistinctItems i items (ground arith) h,
)

has_item-set_quantity :
    (j id quantity : ℕ) (items : List CartItem)
    → has_item j items ≡ false
    → has_item j (set_quantity id quantity items) ≡ false
unfolding has_item set_quantity
has_item-set_quantity j id quantity [] h = refl
has_item-set_quantity j id quantity (i ∷ items) h =
    ground (arith, has_item-set_quantity j id quantity items)

pub set_quantity-HasDistinctItems :
    (id quantity : ℕ) (items : List CartItem)
    → HasDistinctItems items
    → HasDistinctItems (set_quantity id quantity items)
unfolding set_quantity
set_quantity-HasDistinctItems id quantity [] h = tt
set_quantity-HasDistinctItems id quantity (i ∷ items) (new, h) =
    elim (Bool-cases (i.menu_item_id == id)) [
      | inr ne ↦ rw ne (
        has_item-set_quantity i.menu_item_id id quantity items new,
        set_quantity-HasDistinctItems id quantity items h,
      )
      | inl eq ↦ elim (Bool-cases (quantity == 0)) [
        | inl zero ↦ rw (eq, zero) h
        | inr some_left ↦ rw (eq, some_left) (new, h)
      ]
    ]

has_item-without_item :
    (j id : ℕ) (items : List CartItem)
    → has_item j items ≡ false
    → has_item j (without_item id items) ≡ false
unfolding has_item without_item
has_item-without_item j id [] h = refl
has_item-without_item j id (i ∷ items) h = ground (arith, has_item-without_item j id items)

pub without_item-HasDistinctItems :
    (id : ℕ) (items : List CartItem)
    → HasDistinctItems items
    → HasDistinctItems (without_item id items)
unfolding without_item
without_item-HasDistinctItems id [] h = tt
without_item-HasDistinctItems id (i ∷ items) (new, h) = elim (Bool-cases (i.menu_item_id == id)) [
  | inl eq ↦ rw eq (without_item-HasDistinctItems id items h)
  | inr ne ↦
      rw ne (
        has_item-without_item i.menu_item_id id items new,
        without_item-HasDistinctItems id items h,
      )
]

module _ (restaurant_of : ℕ → ℕ) (r : ℕ) where
  increase-IsOf :
      (id quantity : ℕ) (items : List CartItem)
      → All (IsOf restaurant_of r) items
      → All (IsOf restaurant_of r) (increase id quantity items)
  unfolding increase
  increase-IsOf id quantity [] h = tt
  increase-IsOf id quantity (i ∷ items) ((t, q), h) = elim (Bool-cases (i.menu_item_id == id)) [
    | inl eq ↦ rw eq ((t, omega arith), h)
    | inr ne ↦ rw ne ((t, q), increase-IsOf id quantity items h)
  ]

  snoc-IsOf :
      (i : CartItem) (items : List CartItem)
      → All (IsOf restaurant_of r) items
      → IsOf restaurant_of r i
      → All (IsOf restaurant_of r) (items ++ i ∷ [])
  snoc-IsOf i [] h k = (k, tt)
  snoc-IsOf i (x ∷ items) (hx, h) k = (hx, snoc-IsOf i items h k)

  pub set_quantity-IsOf :
      (id quantity : ℕ) (items : List CartItem)
      → All (IsOf restaurant_of r) items
      → All (IsOf restaurant_of r) (set_quantity id quantity items)
  unfolding set_quantity
  set_quantity-IsOf id quantity [] h = tt
  set_quantity-IsOf id quantity (i ∷ items) ((t, q), h) = elim (Bool-cases (i.menu_item_id == id)) [
    | inr ne ↦ rw ne ((t, q), set_quantity-IsOf id quantity items h)
    | inl eq ↦ elim (Bool-cases (quantity == 0)) [
      | inl zero ↦ rw (eq, zero) h
      | inr some_left ↦ rw (eq, some_left) ((t, ground arith), h)
    ]
  ]

  pub without_item-IsOf :
      (id : ℕ) (items : List CartItem)
      → All (IsOf restaurant_of r) items
      → All (IsOf restaurant_of r) (without_item id items)
  unfolding without_item
  without_item-IsOf id [] h = tt
  without_item-IsOf id (i ∷ items) (hi, h) = elim (Bool-cases (i.menu_item_id == id)) [
    | inl eq ↦ rw eq (without_item-IsOf id items h)
    | inr ne ↦ rw ne (hi, without_item-IsOf id items h)
  ]

module _ (restaurant_of : ℕ → ℕ) where
  -- `addItem` passes its check on a cart of the item's restaurant, or on an empty one.
  same_restaurant :
      (cart : UserCart) (w : IsOneRestaurants restaurant_of cart) (item : MenuItemDetails)
      → has_items cart.items && is_other cart.restaurant_id item.restaurant_id ≡ false
      → has_items cart.items ≡ true
      → w.restaurant ≡ item.restaurant_id
  same_restaurant cart w item free full = ground (arith, w.known)

  rehomed :
      (r r' : ℕ) (items : List CartItem)
      → (has_items items ≡ true → r ≡ r')
      → All (IsOf restaurant_of r) items
      → All (IsOf restaurant_of r') items
  rehomed r r' [] e h = tt
  rehomed r r' (i ∷ items) e h = subst (λ x. All (IsOf restaurant_of x) (i ∷ items)) (e refl) h

  -- What `addItem` saves, where it does not refuse.
  pub added-IsOneRestaurants :
      (id quantity : ℕ) (item : MenuItemDetails) (user_id : ℕ) (found : Option UserCart)
      → ((cart : UserCart) → found ≡ some cart → IsOneRestaurants restaurant_of cart)
      → item.id ≡ id
      → restaurant_of id ≡ item.restaurant_id
      → 0 < quantity
      → has_items (or_empty user_id found).items
          && is_other (or_empty user_id found).restaurant_id item.restaurant_id
        ≡ false
      → IsOneRestaurants restaurant_of (added id quantity item (or_empty user_id found))
  unfolding with_item empty_cart has_item
  added-IsOneRestaurants id quantity item user_id none ok_cart eid er q free = record {
    restaurant = item.restaurant_id;
    known = refl;
    theirs = ((rw eid er, q), tt);
    distinct = (refl, tt);
  }
  added-IsOneRestaurants id quantity item user_id (some cart) ok_cart eid er q free =
      let w = ok_cart cart refl in
      let r = item.restaurant_id in
      let theirs = rehomed w.restaurant r cart.items (same_restaurant cart w item free) w.theirs in
      elim (Bool-cases (has_item id cart.items)) [
        | inl already ↦ rw already (record {
          restaurant = r;
          known = refl;
          theirs = increase-IsOf restaurant_of r id quantity cart.items theirs;
          distinct = increase-HasDistinctItems id quantity cart.items w.distinct;
        })
        | inr new ↦ rw new (record {
          restaurant = r;
          known = refl;
          theirs = snoc-IsOf restaurant_of r _ cart.items theirs (rw eid er, q);
          distinct = snoc-HasDistinctItems _ cart.items (rw eid new) w.distinct;
        })
      ]

  pub changed-IsOneRestaurants :
      (cart : UserCart) (items : List CartItem)
      → IsOneRestaurants restaurant_of cart
      → ((r : ℕ) → All (IsOf restaurant_of r) cart.items → All (IsOf restaurant_of r) items)
      → HasDistinctItems items
      → IsOneRestaurants restaurant_of (record cart { items = items })
  changed-IsOneRestaurants cart items w kept distinct = record {
    restaurant = w.restaurant;
    known = w.known;
    theirs = kept w.restaurant w.theirs;
    distinct = distinct;
  }
