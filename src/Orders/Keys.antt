-- ===== src/Orders/Keys.antt =====
-- The unique index over the customer and the idempotency key: at most one order for each.
use delivery_plus.Prelude.{
  ℕ, ◌≡◌, refl, sym, ◌∙◌, Bool, true, false, ◌&&◌, Option, none, some, List, [], ◌∷◌, arith, ◌==◌,
  Option-cases, inl, inr, if◌then◌else◌,
}
use delivery_plus.Shared.Enums.{OrderStatus}
use delivery_plus.Orders.Outcome.{OrderPaymentStatus, OrderOutcome, outcome_for}
use delivery_plus.Orders.Store.{
  Order, OrderEventType, find_by_id, put, set_status, new_order, is_key_taken,
  record_payment_status, find_by_customer_and_idempotency_key,
}
use delivery_plus.Orders.Store.Laws.{update_status_cases, create_cases}
use delivery_plus.Orders.Server.{Config, Server, order_event, order_status_event}
use delivery_plus.Orders.Steps.{
  Step, reads, kicks, clears, moves, places, pays, drains, crashes, turns, Reach,
}
use delivery_plus.Orders.Schedule.{Pick, serve, serve-Reach}

-- No order has the customer and the key of one behind it in the table.
abbrev pub HasUniqueKeys : List Order → Type 0
HasUniqueKeys [] = Unit
HasUniqueKeys (o ∷ orders) =
    (is_key_taken o.customer_id o.idempotency_key orders ≡ false) × HasUniqueKeys orders

-- The index entries of the table.
abbrev entries : List Order → List (ℕ × Option ℕ)
entries [] = []
entries (o ∷ orders) = (o.customer_id, o.idempotency_key) ∷ entries orders

has_entry : ℕ → ℕ → List (ℕ × Option ℕ) → Bool
has_entry customer key [] = false
has_entry customer key ((i, none) ∷ es) = has_entry customer key es
has_entry customer key ((i, some k) ∷ es) =
    if i == customer && k == key then true else has_entry customer key es

is_key_taken-entries :
    (customer key : ℕ) (orders : List Order)
    → is_key_taken customer (some key) orders ≡ has_entry customer key (entries orders)
unfolding find_by_customer_and_idempotency_key has_entry
is_key_taken-entries customer key [] = refl
is_key_taken-entries customer key (o ∷ orders) = elim (Option-cases o.idempotency_key) [
  | inl without ↦ ground (arith, is_key_taken-entries customer key orders)
  | inr (k, with_key) ↦ ground (arith, is_key_taken-entries customer key orders)
]

entries-put :
    (id : ℕ) (o o' : Order) (orders : List Order)
    → find_by_id id orders ≡ some o
    → o'.customer_id ≡ o.customer_id
    → o'.idempotency_key ≡ o.idempotency_key
    → entries (put id o' orders) ≡ entries orders
unfolding find_by_id put
entries-put id o o' [] h k e = cc
entries-put id o o' (x ∷ orders) h k e = ground (arith, entries-put id o o' orders)

entries-record_payment_status :
    (id : ℕ) (status : OrderPaymentStatus) (orders : List Order)
    → entries (record_payment_status id status orders) ≡ entries orders
unfolding record_payment_status
entries-record_payment_status id status [] = refl
entries-record_payment_status id status (o ∷ orders) =
    ground (arith, entries-record_payment_status id status orders)

-- The rows may differ in all else.
same_entries :
    (customer customer' : ℕ) (key key' : Option ℕ) (xs ys : List Order)
    → entries xs ≡ entries ys
    → customer ≡ customer'
    → key ≡ key'
    → is_key_taken customer key xs ≡ is_key_taken customer' key' ys
same_entries customer customer' none none xs ys e c k = refl
same_entries customer customer' none (some i) xs ys e c k = absurd (cc)
same_entries customer customer' (some i) none xs ys e c k = absurd (cc)
same_entries customer customer' (some i) (some j) xs ys e c k =
    rw (is_key_taken-entries customer i xs, is_key_taken-entries customer' j ys, e, c)
      (ground arith)

unique_entries :
    (xs ys : List Order) → entries xs ≡ entries ys → HasUniqueKeys xs → HasUniqueKeys ys
unique_entries xs [] e u = tt
unique_entries [] (y ∷ ys) e u = absurd (cc)
unique_entries (x ∷ xs) (y ∷ ys) e (free, u) =
    let tails : entries xs ≡ entries ys = cc in
    (
      sym (
            same_entries x.customer_id y.customer_id x.idempotency_key y.idempotency_key xs ys tails
              (cc) (cc))
          ∙ free,
      unique_entries xs ys tails u,
    )

moved_keys :
    (id : ℕ) (to : OrderStatus) (outcome : Option OrderOutcome) (o : Order) (orders : List Order)
    → find_by_id id orders ≡ some o
    → HasUniqueKeys orders
    → HasUniqueKeys (put id (set_status to outcome o) orders)
moved_keys id to none o orders found =
    unique_entries orders (put id (set_status to none o) orders)
      (sym (entries-put id o (set_status to none o) orders found refl refl))
moved_keys id to (some x) o orders found =
    unique_entries orders (put id (set_status to (some x) o) orders)
      (sym (entries-put id o (set_status to (some x) o) orders found refl refl))

module _ (c : Config) where
  Step-HasUniqueKeys :
      {s t : Server} → Step c s t → HasUniqueKeys s.db.orders → HasUniqueKeys t.db.orders
  unfolding new_order
  Step-HasUniqueKeys (reads s) u = u
  Step-HasUniqueKeys (kicks s) u = u
  Step-HasUniqueKeys (clears s token) u = u
  Step-HasUniqueKeys (moves s id from to role reason m r) u =
      update_status_cases (λ db. HasUniqueKeys db.orders) id from to
        (order_event c (order_status_event to)) (outcome_for to role reason) s.db u
        (λ o found status. moved_keys id to (outcome_for to role reason) o s.db.orders found u)
  Step-HasUniqueKeys (places s n) u =
      create_cases (λ db. HasUniqueKeys db.orders) n (order_event c OrderEventType.created) s.db u
        (λ free. (free, u))
  Step-HasUniqueKeys (pays s id status) u =
      unique_entries s.db.orders (record_payment_status id status s.db.orders)
        (sym (entries-record_payment_status id status s.db.orders)) u
  Step-HasUniqueKeys (drains s batch_size answers) u = u
  Step-HasUniqueKeys (crashes s batch_size answers) u = u
  Step-HasUniqueKeys (turns s w day) u = u

  Reach-HasUniqueKeys :
      {s t : Server} → Reach c s t → HasUniqueKeys s.db.orders → HasUniqueKeys t.db.orders
  Reach-HasUniqueKeys Reach.here u = u
  Reach-HasUniqueKeys (Reach.next r st) u = Step-HasUniqueKeys st (Reach-HasUniqueKeys r u)

-- Over any interleaving of requests and events, also of checkouts that a client repeats or sends at
-- once: a customer never has two orders of one idempotency key.
pub keys_stay_unique :
    (c : Config) (picks : List Pick) (s : Server)
    → HasUniqueKeys s.db.orders
    → HasUniqueKeys (serve c picks s).db.orders
keys_stay_unique c picks s = Reach-HasUniqueKeys c (serve-Reach c picks s)
