-- ===== src/Orders/Listing/Pages.antt =====
-- What a page of a customer's orders holds, in whatever order the table lists them.
use delivery_plus.Prelude.{
  ℕ, zero, suc, ◌+◌, ◌-◌, ◌*◌, ◌<◌, ◌≤◌, ◌≡◌, refl, ◌∙◌, ap, Bool, true, false, Option, List, [],
  ◌∷◌, ◌==◌, ==_iff, ◌⊎◌, inl, inr, if◌then◌else◌, ltb, arith, All, All-mono, length, take, drop,
  Bool-cases,
}
use delivery_plus.Shared.Enums.{OrderStatus}
use delivery_plus.Shared.Paging.{
  PaginatedResult, page_rows, total_pages_of-enough, total_pages_of-least,
}
use delivery_plus.Orders.Rules.{OrderListFilter}
use delivery_plus.Orders.Store.{Order, without_fee_split}
use delivery_plus.Orders.Listing.{is_in, customer_orders, filter_statuses, customer_page}

-- The order is one of the list, without its fee split.
abbrev pub IsFrom : List Order → Order → Type 0
IsFrom [] i = ⊥
IsFrom (o ∷ orders) i = (i ≡ without_fee_split o) ⊎ IsFrom orders i

-- An item of a customer's page: an order of the table, of the customer, with a status of the filter.
pub record IsItem (customer_id : ℕ) (statuses : Option (List OrderStatus)) (orders : List Order)
    (i : Order) : Type 0 where
  pub listed : IsFrom orders i
  pub owned : i.customer_id ≡ customer_id
  pub filtered : is_in statuses i.status ≡ true

abbrev one_if : Bool → ℕ
one_if true = 1
one_if false = 0

-- How many orders of the table are the customer's, with a status of the filter.
abbrev pub tally : ℕ → Option (List OrderStatus) → List Order → ℕ
tally customer_id statuses [] = 0
tally customer_id statuses (o ∷ orders) =
    (if o.customer_id == customer_id then one_if (is_in statuses o.status) else 0)
    + tally customer_id statuses orders

abbrev pub least : ℕ → ℕ → ℕ
least a b = if ltb a b then a else b

pub record IsPage (customer_id page limit : ℕ) (filter : Option OrderListFilter)
    (orders : List Order) (r : PaginatedResult Order) : Type 0 where
  pub items : All (IsItem customer_id (filter_statuses filter) orders) r.items
  pub total : r.total ≡ tally customer_id (filter_statuses filter) orders
  pub filled : length r.items ≡ least limit (r.total - (page - 1) * limit)
  pub enough : r.total ≤ r.total_pages * limit
  pub least_pages : ((r.total_pages - 1) * limit < r.total) ⊎ (r.total_pages ≡ 1)

All-take {ℓ} : {A : Type 0} (P : A → Type ℓ) (n : ℕ) (xs : List A) → All P xs → All P (take n xs)
All-take P zero xs h = tt
All-take P (suc n) [] h = tt
All-take P (suc n) (x ∷ xs) (h, hs) = (h, All-take P n xs hs)

All-drop {ℓ} : {A : Type 0} (P : A → Type ℓ) (n : ℕ) (xs : List A) → All P xs → All P (drop n xs)
All-drop P zero xs h = h
All-drop P (suc n) [] h = tt
All-drop P (suc n) (x ∷ xs) (h, hs) = All-drop P n xs hs

length-take : {A : Type 0} (n : ℕ) (xs : List A) → length (take n xs) ≡ least n (length xs)
length-take zero [] = refl
length-take zero (x ∷ xs) = ground arith
length-take (suc n) [] = ground arith
length-take (suc n) (x ∷ xs) = ground (arith, length-take n xs)

length-drop : {A : Type 0} (n : ℕ) (xs : List A) → length (drop n xs) ≡ length xs - n
length-drop zero xs = omega arith
length-drop (suc n) [] = omega arith
length-drop (suc n) (x ∷ xs) = omega (arith, length-drop n xs)

later :
    (customer_id : ℕ) (statuses : Option (List OrderStatus)) (o : Order) (orders : List Order)
    (i : Order)
    → IsItem customer_id statuses orders i
    → IsItem customer_id statuses (o ∷ orders) i
later customer_id statuses o orders i h = record {
  listed = inr h.listed;
  owned = h.owned;
  filtered = h.filtered;
}

customer_orders-items :
    (customer_id : ℕ) (statuses : Option (List OrderStatus)) (orders : List Order)
    → All (IsItem customer_id statuses orders) (customer_orders customer_id statuses orders)
unfolding customer_orders without_fee_split
customer_orders-items customer_id statuses [] = tt
customer_orders-items customer_id statuses (o ∷ orders) =
    let rest = customer_orders customer_id statuses orders in
    let known =
      All-mono _ _ rest (later customer_id statuses o orders)
        (customer_orders-items customer_id statuses orders) in
    elim (Bool-cases (o.customer_id == customer_id)) [
      | inl mine ↦ elim (Bool-cases (is_in statuses o.status)) [
        | inl shown ↦
            rw (mine, shown)
              (
                record {
                  listed = inl refl;
                  owned = (==_iff o.customer_id customer_id).0 mine;
                  filtered = shown;
                },
                known,
              )
        | inr hidden ↦ rw (mine, hidden) known
      ]
      | inr other ↦ rw other known
    ]

length-customer_orders :
    (customer_id : ℕ) (statuses : Option (List OrderStatus)) (orders : List Order)
    → length (customer_orders customer_id statuses orders) ≡ tally customer_id statuses orders
unfolding customer_orders
length-customer_orders customer_id statuses [] = refl
length-customer_orders customer_id statuses (o ∷ orders) =
    ground (arith, length-customer_orders customer_id statuses orders)

-- For a positive limit and whatever the order of the table: a page of a customer's orders holds only
-- orders of the table that are the customer's and under the filter; its `total` counts all of those;
-- it has as many items as there are from its first row on, up to the limit; and `totalPages` pages
-- hold them all, and one page less does not, where there is more than one.
pub customer_page-IsPage :
    (customer_id page limit : ℕ) (filter : Option OrderListFilter) (orders : List Order)
    → 0 < limit
    → IsPage customer_id page limit filter orders
        (customer_page customer_id page limit filter orders)
unfolding page_rows
customer_page-IsPage customer_id page limit filter orders h =
    let statuses = filter_statuses filter in
    let rows = customer_orders customer_id statuses orders in
    let skipped = (page - 1) * limit in
    let P = IsItem customer_id statuses orders in
    record {
      items =
          All-take P limit (drop skipped rows)
            (All-drop P skipped rows (customer_orders-items customer_id statuses orders));
      total = length-customer_orders customer_id statuses orders;
      filled = length-take limit (drop skipped rows) ∙ ap (least limit) (length-drop skipped rows);
      enough = total_pages_of-enough (length rows) limit h;
      least_pages = total_pages_of-least (length rows) limit h;
    }
