-- ===== src/Orders/History.antt =====
-- What may happen to an order once it is placed, over any interleaving of requests and events.
use delivery_plus.Prelude.{
  ℕ, suc, ◌<◌, ◌≡◌, ◌≢◌, refl, sym, ◌∙◌, ap, subst, ==_iff, All-mono, true, Option, none, some,
  List, ◌∷◌, arith, ◌==◌, All, Bool-cases, inl, inr,
}
use delivery_plus.Shared.Enums.{UserRole, OrderStatus}
use delivery_plus.Shared.Text.{Text}
use delivery_plus.Shared.Lifecycle.{OrderMoves, OrderPath, OrderPath-trans, here, move}
use delivery_plus.Orders.Outcome.{OrderPaymentStatus, OrderOutcome, outcome_for}
use delivery_plus.Orders.Store.{
  Order, OrderEventType, Database, NewOrder, find_by_id, put, set_status, new_order,
  record_payment_status, is_replaceable,
}
use delivery_plus.Orders.Store.Laws.{
  find_by_id-id, find_by_id-put, find_by_id-All, put-All, pay, set_status-id,
  record_payment_status-All, find_by_id-record_payment_status, update_status_cases, create_cases,
}
use delivery_plus.Orders.Server.{Config, Server, order_event, order_status_event}
use delivery_plus.Orders.Steps.{
  moved, placed, Step, reads, kicks, clears, moves, places, pays, drains, crashes, turns, Reach,
}
use delivery_plus.Orders.Schedule.{Pick, serve, serve-Reach}

-- An order without what may change after checkout.
unfoldable pub snapshot : Order → Order
snapshot o = record o {
  status = OrderStatus.created;
  cancelled_by = none;
  cancellation_reason = none;
  payment_status = none;
}

-- A payment status gives way to itself; PENDING to an outcome; unknown to any.
abbrev pub PaymentAdvances : Option OrderPaymentStatus → Option OrderPaymentStatus → Type 0
PaymentAdvances none q = Unit
PaymentAdvances (some OrderPaymentStatus.pending) q = q ≢ none
PaymentAdvances (some OrderPaymentStatus.completed) q = q ≡ some OrderPaymentStatus.completed
PaymentAdvances (some OrderPaymentStatus.failed) q = q ≡ some OrderPaymentStatus.failed

pub record Advances (o o' : Order) : Type 0 where
  pub unchanged : snapshot o' ≡ snapshot o
  pub path : OrderPath o.status o'.status
  pub payment : PaymentAdvances o.payment_status o'.payment_status

PaymentAdvances-refl : (p : Option OrderPaymentStatus) → PaymentAdvances p p
PaymentAdvances-refl none = tt
PaymentAdvances-refl (some OrderPaymentStatus.pending) = λ e. cc
PaymentAdvances-refl (some OrderPaymentStatus.completed) = refl
PaymentAdvances-refl (some OrderPaymentStatus.failed) = refl

PaymentAdvances-trans :
    (p q r : Option OrderPaymentStatus)
    → PaymentAdvances p q
    → PaymentAdvances q r
    → PaymentAdvances p r
PaymentAdvances-trans none q r h k = tt
PaymentAdvances-trans (some OrderPaymentStatus.pending) q r h k = ground arith
PaymentAdvances-trans (some OrderPaymentStatus.completed) q r h k = ground arith
PaymentAdvances-trans (some OrderPaymentStatus.failed) q r h k = ground arith

pub Advances-refl : (o : Order) → Advances o o
Advances-refl o = record {
  unchanged = refl;
  path = here o.status;
  payment = PaymentAdvances-refl o.payment_status;
}

pub Advances-trans : (o p q : Order) → Advances o p → Advances p q → Advances o q
Advances-trans o p q h k = record {
  unchanged = k.unchanged ∙ h.unchanged;
  path = OrderPath-trans h.path k.path;
  payment =
      PaymentAdvances-trans o.payment_status p.payment_status q.payment_status h.payment k.payment;
}

-- The table holds the order, advanced.
abbrev pub HasAdvanced : ℕ → Order → List Order → Type 0
HasAdvanced id o orders' = (o' : Order) × (find_by_id id orders' ≡ some o') × Advances o o'

-- Every order of the first table is in the second, and has advanced.
abbrev Evolves : List Order → List Order → Type 0
Evolves orders orders' =
    (id : ℕ) (o : Order) → find_by_id id orders ≡ some o → HasAdvanced id o orders'

Evolves-refl : (orders : List Order) → Evolves orders orders
Evolves-refl orders id o e = (o, e, Advances-refl o)

pub set_status-Advances :
    (o : Order) (to : OrderStatus) (outcome : Option OrderOutcome)
    → OrderMoves o.status to
    → Advances o (set_status to outcome o)
unfolding snapshot
set_status-Advances o to none m = record {
  unchanged = refl;
  path = move m (here to);
  payment = PaymentAdvances-refl o.payment_status;
}
set_status-Advances o to (some outcome) m = record {
  unchanged = refl;
  path = move m (here to);
  payment = PaymentAdvances-refl o.payment_status;
}

read_twice :
    (id j : ℕ) (o p : Order) (orders : List Order)
    → find_by_id id orders ≡ some o
    → find_by_id j orders ≡ some p
    → (id == j) ≡ true
    → o ≡ p
read_twice id j o p orders e h k = ground (arith, ap (λ i. find_by_id i orders) ((==_iff id j).0 k))

put-Evolves :
    (id : ℕ) (o o' : Order) (orders : List Order)
    → find_by_id id orders ≡ some o
    → o'.id ≡ id
    → Advances o o'
    → Evolves orders (put id o' orders)
put-Evolves id o o' orders e k adv j p h = elim (Bool-cases (id == j)) [
  | inl same_id ↦ (
    o',
    rw (find_by_id-put id j o o' orders e k, same_id),
    subst (λ x. Advances x o') (read_twice id j o p orders e h same_id) adv,
  )
  | inr other ↦ (p, rw (find_by_id-put id j o o' orders e k, other) h, Advances-refl p)
]

replaceable-PaymentAdvances :
    (status : OrderPaymentStatus) (known : Option OrderPaymentStatus)
    → is_replaceable status known ≡ true
    → PaymentAdvances known (some status)
replaceable-PaymentAdvances status none h = tt
replaceable-PaymentAdvances status (some OrderPaymentStatus.pending) h = λ e. cc
replaceable-PaymentAdvances status (some OrderPaymentStatus.completed) h = ground arith
replaceable-PaymentAdvances status (some OrderPaymentStatus.failed) h = ground arith

pub pay-Advances : (o : Order) (status : OrderPaymentStatus) → Advances o (pay status o)
unfolding snapshot
pay-Advances o status = elim (Bool-cases (is_replaceable status o.payment_status)) [
  | inl open_still ↦ rw open_still (record {
    unchanged = refl;
    path = here o.status;
    payment = replaceable-PaymentAdvances status o.payment_status open_still;
  })
  | inr settled ↦ rw settled (Advances-refl o)
]

record_payment_status-Evolves :
    (id : ℕ) (status : OrderPaymentStatus) (orders : List Order)
    → Evolves orders (record_payment_status id status orders)
record_payment_status-Evolves id status orders j p h = elim (Bool-cases (id == j)) [
  | inl same_id ↦ (
    pay status p,
    rw (find_by_id-record_payment_status id j status orders, same_id, h),
    pay-Advances p status,
  )
  | inr other ↦
      (p, rw (find_by_id-record_payment_status id j status orders, other) h, Advances-refl p)
]

-- No order has the id that the next one gets.
abbrev pub IsFresh : Database → Type 0
IsFresh db = All (λ o. o.id < db.next_id) db.orders

-- A step keeps ids fresh and orders advancing.
abbrev Keeps : Server → Server → Type 0
Keeps s t = IsFresh s.db → IsFresh t.db × Evolves s.db.orders t.db.orders

create-Evolves :
    (o : Order) (db : Database) → IsFresh db → o.id ≡ db.next_id → Evolves db.orders (o ∷ db.orders)
unfolding find_by_id
create-Evolves o db f k id p h =
    let known = find_by_id-All (λ x. x.id < db.next_id) id db.orders p f h in
    (p, ground (arith, find_by_id-id id db.orders p h), Advances-refl p)

module _ (c : Config) where
  moved-Keeps :
      (s : Server) (id : ℕ) (from to : OrderStatus) (role : UserRole) (reason : Option Text)
      → OrderMoves from to
      → Keeps s (moved c id from to role reason s)
  moved-Keeps s id from to role reason m f =
      update_status_cases (λ db. IsFresh db × Evolves s.db.orders db.orders) id from to
        (order_event c (order_status_event to)) (outcome_for to role reason) s.db
        (f, Evolves-refl s.db.orders)
        (λ o found status.
          let o' = set_status to (outcome_for to role reason) o in
          let same_id = set_status-id to (outcome_for to role reason) o in
          (
            put-All (λ x. x.id < s.db.next_id) id o' s.db.orders f
                (subst (λ i. i < s.db.next_id) (sym same_id)
                  (find_by_id-All (λ x. x.id < s.db.next_id) id s.db.orders o f found)),
            put-Evolves id o o' s.db.orders found (same_id ∙ find_by_id-id id s.db.orders o found) (
                set_status-Advances o to (outcome_for to role reason)
                  (subst (λ x. OrderMoves x to) (sym status) m)),
          ))

  placed-Keeps : (s : Server) (n : NewOrder) → Keeps s (placed c n s)
  unfolding new_order
  placed-Keeps s n f =
      create_cases (λ db. IsFresh db × Evolves s.db.orders db.orders) n
        (order_event c OrderEventType.created) s.db (f, Evolves-refl s.db.orders)
        (λ free. (
          (
            omega arith,
            All-mono (λ x. x.id < s.db.next_id) (λ x. x.id < suc s.db.next_id) s.db.orders
                (λ x h. omega arith) f,
          ),
          create-Evolves (new_order n s.db) s.db f refl,
        ))

  Step-Keeps : {s t : Server} → Step c s t → Keeps s t
  Step-Keeps (reads s) f = (f, Evolves-refl s.db.orders)
  Step-Keeps (kicks s) f = (f, Evolves-refl s.db.orders)
  Step-Keeps (clears s token) f = (f, Evolves-refl s.db.orders)
  Step-Keeps (moves s id from to role reason m r) f = moved-Keeps s id from to role reason m f
  Step-Keeps (places s n) f = placed-Keeps s n f
  Step-Keeps (pays s id status) f = (
    record_payment_status-All (λ x. x.id < s.db.next_id) id status s.db.orders (λ o h. ground arith)
        f,
    record_payment_status-Evolves id status s.db.orders,
  )
  Step-Keeps (drains s batch_size answers) f = (f, Evolves-refl s.db.orders)
  Step-Keeps (crashes s batch_size answers) f = (f, Evolves-refl s.db.orders)
  Step-Keeps (turns s w day) f = (f, Evolves-refl s.db.orders)

Evolves-trans : (x y z : List Order) → Evolves x y → Evolves y z → Evolves x z
Evolves-trans x y z h k id o e =
    let (p, ep, op) = h id o e in let (q, eq, pq) = k id p ep in (q, eq, Advances-trans o p q op pq)

Reach-Keeps : (c : Config) {s t : Server} → Reach c s t → Keeps s t
Reach-Keeps c {s} Reach.here f = (f, Evolves-refl s.db.orders)
Reach-Keeps c {s} (Reach.next {t = t} {u = u} r st) f =
    let (ft, e) = Reach-Keeps c r f in
    let (fu, e') = Step-Keeps c st ft in
    (fu, Evolves-trans s.db.orders t.db.orders u.db.orders e e')

-- From a table whose ids are below the next one, whatever requests and events are interleaved, and
-- however the other services answer: an order once placed stays in the table; its customer, restaurant, items, prices, fee split, address and
-- idempotency key never change; its status only moves along the table of transitions; and a payment
-- outcome once recorded is final.
pub orders_evolve :
    (c : Config) (picks : List Pick) (s : Server) (id : ℕ) (o : Order)
    → IsFresh s.db
    → find_by_id id s.db.orders ≡ some o
    → HasAdvanced id o (serve c picks s).db.orders
orders_evolve c picks s id o fresh = (Reach-Keeps c (serve-Reach c picks s) fresh).1 id o
