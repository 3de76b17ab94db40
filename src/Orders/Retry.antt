-- ===== src/Orders/Retry.antt =====
-- A checkout that a client sends again, with the same idempotency key.
use delivery_plus.Prelude.{
  ℕ, ◌≡◌, sym, ◌∙◌, ap, ==_iff, subst, Bool, true, false, ◌&&◌, Option, none, some, List, [], ◌∷◌,
  arith, ◌==◌, Bool-cases, inl, inr,
}
use delivery_plus.Shared.Lifecycle.{OrderMoves}
use delivery_plus.Proc.{ok, ret, combinators}
use delivery_plus.Proc.Alone.{run_alone}
use delivery_plus.Orders.Outcome.{OrderPaymentStatus, outcome_for}
use delivery_plus.Orders.Store.{
  Order, OrderEventType, Database, NewOrder, find_by_id, put, set_status, new_order, has_key,
  is_key_taken, record_payment_status, find_by_customer_and_idempotency_key, without_fee_split,
  selected,
}
use delivery_plus.Orders.Store.Laws.{pay, update_status_cases, create_cases}
use delivery_plus.Orders.Server.{Config, Server, order_event, order_status_event}
use delivery_plus.Orders.Checkout.{CreateOrderDto, checkout_anew, create_from_cart, find_prior}
use delivery_plus.Orders.Steps.{
  Step, reads, kicks, clears, moves, places, pays, drains, crashes, turns, Reach,
}
use delivery_plus.Orders.Schedule.{Pick, serve, serve-Reach}
use delivery_plus.Orders.History.{
  snapshot, Advances, Advances-refl, Advances-trans, set_status-Advances, pay-Advances,
}

module _ (customer key : ℕ) where
  abbrev matches : Order → Bool
  matches o = o.customer_id == customer && has_key key o

  abbrev find : List Order → Option Order
  find = find_by_customer_and_idempotency_key customer key

  -- The order of the key in the table is this one, advanced.
  abbrev pub HasOrderOfKey : Order → List Order → Type 0
  HasOrderOfKey o orders = (o' : Order) × (find orders ≡ some o') × Advances o o'

  matches-Advances : (o o' : Order) → Advances o o' → matches o' ≡ matches o
  unfolding snapshot
  matches-Advances o o' a = ap (λ x. x.customer_id == customer && has_key key x) a.unchanged

  find_here : (o : Order) (orders : List Order) → matches o ≡ true → find (o ∷ orders) ≡ some o
  unfolding find_by_customer_and_idempotency_key
  find_here o orders m = rw m

  find_later :
      (o : Order) (orders : List Order) → matches o ≡ false → find (o ∷ orders) ≡ find orders
  unfolding find_by_customer_and_idempotency_key
  find_later o orders m = rw m

  -- The first row advances.
  head-Advances :
      (x x' o : Order) (orders : List Order)
      → Advances x x'
      → find (x ∷ orders) ≡ some o
      → HasOrderOfKey o (x' ∷ orders)
  head-Advances x x' o orders a h = elim (Bool-cases (matches x)) [
    | inl here ↦
        let same_order : x ≡ o = ground (arith, find_here x orders here) in
        (
          x',
          find_here x' orders (matches-Advances x x' a ∙ here),
          subst (λ y. Advances y x') same_order a,
        )
    | inr later ↦ (
      o,
      find_later x' orders (matches-Advances x x' a ∙ later) ∙ sym (find_later x orders later) ∙ h,
      Advances-refl o,
    )
  ]

  -- A row behind the first one advances.
  tail-HasOrderOfKey :
      (x o : Order) (orders orders' : List Order)
      → ((p : Order) → find orders ≡ some p → HasOrderOfKey p orders')
      → find (x ∷ orders) ≡ some o
      → HasOrderOfKey o (x ∷ orders')
  tail-HasOrderOfKey x o orders orders' f h = elim (Bool-cases (matches x)) [
    | inl here ↦ (o, find_here x orders' here ∙ sym (find_here x orders here) ∙ h, Advances-refl o)
    | inr later ↦
        let (o', found, a) = f o (sym (find_later x orders later) ∙ h) in
        (o', find_later x orders' later ∙ found, a)
  ]

  put-HasOrderOfKey :
      (id : ℕ) (x x' o : Order) (orders : List Order)
      → find_by_id id orders ≡ some x
      → Advances x x'
      → find orders ≡ some o
      → HasOrderOfKey o (put id x' orders)
  unfolding find_by_id put
  put-HasOrderOfKey id x x' o [] e a h = absurd (cc)
  put-HasOrderOfKey id x x' o (y ∷ orders) e a h = elim (Bool-cases (y.id == id)) [
    | inl eq ↦
        let same_order : x ≡ y = ground arith in
        rw eq (head-Advances y x' o orders (subst (λ z. Advances z x') same_order a) h)
    | inr ne ↦ rw ne (
        tail-HasOrderOfKey y o orders (put id x' orders)
          (λ p k. put-HasOrderOfKey id x x' p orders (ground arith) a k) h)
  ]

  paid-HasOrderOfKey :
      (id : ℕ) (status : OrderPaymentStatus) (o : Order) (orders : List Order)
      → find orders ≡ some o
      → HasOrderOfKey o (record_payment_status id status orders)
  unfolding record_payment_status
  paid-HasOrderOfKey id status o [] h = (o, h, Advances-refl o)
  paid-HasOrderOfKey id status o (y ∷ orders) h = elim (Bool-cases (y.id == id)) [
    | inl eq ↦ rw eq (head-Advances y (pay status y) o orders (pay-Advances y status) h)
    | inr ne ↦ rw ne (
        tail-HasOrderOfKey y o orders (record_payment_status id status orders)
          (λ p k. paid-HasOrderOfKey id status p orders k) h)
  ]

  -- The insert of another order of the key would have failed.
  free_differs :
      (i : ℕ) (k : Option ℕ) (orders : List Order) (o : Order)
      → is_key_taken i k orders ≡ false
      → find orders ≡ some o
      → (i == customer && (elim k [ none ↦ false | some j ↦ j == key ])) ≡ false
  free_differs i none orders o free h = ground arith
  free_differs i (some j) orders o free h = elim (Bool-cases (i == customer && j == key)) [
    | inr other ↦ other
    | inl same_key ↦
        absurd (taken ((==_iff i customer).0 (ground arith)) ((==_iff j key).0 (ground arith)))
  ]
    where
      taken : i ≡ customer → j ≡ key → ⊥
      taken e f = ground (
        arith,
        ap (λ u. find_by_customer_and_idempotency_key u j orders) e,
        ap (λ k. find_by_customer_and_idempotency_key customer k orders) f,
      )

  not_taken :
      (n : NewOrder) (db : Database) (o : Order)
      → is_key_taken n.customer_id n.idempotency_key db.orders ≡ false
      → find db.orders ≡ some o
      → matches (new_order n db) ≡ false
  unfolding new_order
  not_taken n db o free h = free_differs n.customer_id n.idempotency_key db.orders o free h

  module _ (c : Config) where
    Step-HasOrderOfKey :
        {s t : Server} (o : Order)
        → Step c s t
        → find s.db.orders ≡ some o
        → HasOrderOfKey o t.db.orders
    Step-HasOrderOfKey o (reads s) h = (o, h, Advances-refl o)
    Step-HasOrderOfKey o (kicks s) h = (o, h, Advances-refl o)
    Step-HasOrderOfKey o (clears s token) h = (o, h, Advances-refl o)
    Step-HasOrderOfKey o (moves s id from to role reason m r) h =
        update_status_cases (λ db. HasOrderOfKey o db.orders) id from to
          (order_event c (order_status_event to)) (outcome_for to role reason) s.db
          (o, h, Advances-refl o)
          (λ x found status.
            put-HasOrderOfKey id x (set_status to (outcome_for to role reason) x) o s.db.orders
              found
              (set_status-Advances x to (outcome_for to role reason)
                (subst (λ y. OrderMoves y to) (sym status) m))
              h)
    Step-HasOrderOfKey o (places s n) h =
        create_cases (λ db. HasOrderOfKey o db.orders) n (order_event c OrderEventType.created) s.db
          (o, h, Advances-refl o)
          (λ free. (
            o,
            find_later (new_order n s.db) s.db.orders (not_taken n s.db o free h) ∙ h,
            Advances-refl o,
          ))
    Step-HasOrderOfKey o (pays s id status) h = paid-HasOrderOfKey id status o s.db.orders h
    Step-HasOrderOfKey o (drains s batch_size answers) h = (o, h, Advances-refl o)
    Step-HasOrderOfKey o (crashes s batch_size answers) h = (o, h, Advances-refl o)
    Step-HasOrderOfKey o (turns s w day) h = (o, h, Advances-refl o)

    Reach-HasOrderOfKey :
        {s t : Server} (o : Order)
        → Reach c s t
        → find s.db.orders ≡ some o
        → HasOrderOfKey o t.db.orders
    Reach-HasOrderOfKey o Reach.here h = (o, h, Advances-refl o)
    Reach-HasOrderOfKey o (Reach.next r st) h =
        let (p, found, a) = Reach-HasOrderOfKey o r h in
        let (q, found', b) = Step-HasOrderOfKey p st found in (q, found', Advances-trans o p q a b)

    repeated :
        (token : ℕ) (checkout : CreateOrderDto) (o : Order) (s : Server)
        → find s.db.orders ≡ some o
        → run_alone (create_from_cart c customer token (some key) checkout) s
          ≡ (ok (without_fee_split o), s)
    unfolding create_from_cart find_prior combinators
    repeated token checkout o s h =
        ap
          (λ f.
            run_alone
              (elim (selected f) [
                | some order ↦ ret order
                | none ↦ checkout_anew c customer token (some key) checkout
              ])
              s)
          h

-- The checkout answers with the order, advanced, and leaves the service as it is.
abbrev pub AnswersWith : Config → ℕ → ℕ → ℕ → CreateOrderDto → Order → Server → Type 0
AnswersWith c customer token key checkout o t =
    (o' : Order) × Advances o o'
    × (run_alone (create_from_cart c customer token (some key) checkout) t
        ≡ (ok (without_fee_split o'), t))

-- Once an order of a customer and an idempotency key is placed: after any interleaving of requests and
-- events, a checkout of the customer with that key, whatever it asks for, is answered with that order,
-- as it has come along since, and changes nothing: it places no second order, asks for no cart and
-- publishes nothing.
pub retry_answers_first :
    (c : Config) (picks : List Pick) (s : Server) (customer token key : ℕ)
    (checkout : CreateOrderDto) (o : Order)
    → find_by_customer_and_idempotency_key customer key s.db.orders ≡ some o
    → AnswersWith c customer token key checkout o (serve c picks s)
retry_answers_first c picks s customer token key checkout o h =
    let (o', found, a) = Reach-HasOrderOfKey customer key c o (serve-Reach c picks s) h in
    (o', a, repeated customer key c token checkout o' (serve c picks s) found)
