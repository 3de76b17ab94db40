-- ===== src/Carts/Tests.antt =====
-- cart-service with one stored cart, to which an item of the same restaurant is added.
use delivery_plus.Prelude.{
  ℕ, ◌≡◌, refl, true, none, some, [], ◌∷◌, ◌==◌, if◌then◌else◌, arith, Bool-cases, inl, inr, subst,
}
use delivery_plus.Shared.Text.{text}
use delivery_plus.Proc.{ok, run}
use delivery_plus.Carts.Service.{UserCart, Redis, adds, handle, has_item}
use delivery_plus.Carts.OneRestaurant.{IsOneRestaurants}
use delivery_plus.Carts.Invariant.{IsConsistent, handle-IsConsistent}

-- All items are of restaurant 4.
abbrev owner : ℕ → ℕ
owner id = 4

abbrev a_cart : UserCart
a_cart = record {
  user_id = 7;
  restaurant_id = some 4;
  items = record { menu_item_id = 6; name = text "Koshari"; price = 4500; quantity = 2 } ∷ [];
}

abbrev redis : Redis
redis = record {
  carts = λ u. if u == 7 then some a_cart else none;
  menu = λ id.
      ok (record { id = id; restaurant_id = 4; name = text "Tea"; price = 1000; available = true });
}

a_cart-IsOneRestaurants : (cart : UserCart) → a_cart ≡ cart → IsOneRestaurants owner cart
unfolding has_item
a_cart-IsOneRestaurants cart e = subst (IsOneRestaurants owner) e (record {
  restaurant = 4;
  known = refl;
  theirs = ((refl, omega arith), tt);
  distinct = (refl, tt);
})

redis-IsConsistent : IsConsistent owner redis
redis-IsConsistent = record {
  menu = λ id item e. (ground arith, ground arith);
  carts = λ u cart e. elim (Bool-cases (u == 7)) [
    | inl eq ↦ a_cart-IsOneRestaurants cart (ground (arith, eq))
    | inr ne ↦ absurd (ground (arith, ne))
  ];
}

handle-IsConsistent_example : IsConsistent owner (run (handle (adds 7 8 2)) [] redis).1
handle-IsConsistent_example =
    handle-IsConsistent owner (adds 7 8 2) [] redis (omega arith) tt redis-IsConsistent
