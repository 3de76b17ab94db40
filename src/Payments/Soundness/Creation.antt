-- ===== src/Payments/Soundness/Creation.antt =====
-- `createPayment` gives a payment of the caller for the order, and keeps the table sound.
use delivery_plus.Prelude.{
  ℕ, ◌≡◌, refl, sym, ◌∙◌, Bool, true, false, not, Option, none, some, ◌==◌, same, if◌then◌else◌,
  arith,
}
use delivery_plus.Shared.Enums.{OrderStatus, OrderStatus-discrete}
use delivery_plus.Shared.Events.{PaymentEventType}
use delivery_plus.Shared.Errors.{Error-discrete, conflict, forbidden, unique_violation}
use delivery_plus.Proc.{Result, ok, err, ret, throw, gets}
use delivery_plus.Proc.Secures.{
  Secures, at_end, at_step, Returns, Secures-bind, Secures-catch, Secures-mono, Secures-checked,
  Secures-gets, Secures-request,
}
use delivery_plus.Payments.Store.{
  Payment, find_by_idempotency_key, find_latest_by_order, CreatePaymentData, new_payment,
  is_refused,
}
use delivery_plus.Payments.Store.Laws.{find_by_idempotency_key_lem}
use delivery_plus.Payments.Server.{Server, OrderDto, inserted, create}
use delivery_plus.Payments.SideEffects.{OnBusy, complete_side_effects}
use delivery_plus.Payments.Service.{
  find_prior, is_active_payment, Inserted, made, lost_to, won_by, after_failed_insert, insert,
  replay_create, after_insert, create_anew, create_given, create_payment,
}
use delivery_plus.Payments.Evolution.{Evolves-refl}
use delivery_plus.Payments.Soundness.{
  Known, Advances, Advances-refl, IsSound, inserted_step, find_by_id-inserted,
}
use delivery_plus.Payments.Soundness.Effects.{Follows, SecuresPayments}
use delivery_plus.Payments.Soundness.Completion.{complete_side_effects_lem}

-- A payment of the customer for the order.
abbrev pub IsOf : (customer_id order_id : ℕ) → Payment → Server → Type 0
IsOf customer_id order_id p s = Known p s × (p.customer_id ≡ customer_id) × (p.order_id ≡ order_id)

module _ (payment_event_id : ℕ → PaymentEventType → ℕ) where
  abbrev MaybeOf : ℕ → Option Payment → Server → Type 0
  MaybeOf customer_id none s = Unit
  MaybeOf customer_id (some p) s = Known p s × (p.customer_id ≡ customer_id)

  find_prior_lem :
      (customer_id : ℕ) (key : Option ℕ) (w : Server)
      → SecuresPayments payment_event_id (MaybeOf customer_id) (find_prior customer_id key) w
  unfolding find_prior gets
  find_prior_lem customer_id none w = at_end tt
  find_prior_lem customer_id (some key) w =
      at_step (λ s a i. (Advances-refl s, i))
        (λ s a i. at_end (found s i (find_by_idempotency_key customer_id key s.payments) refl))
    where
      found :
          (s : Server)
          → IsSound payment_event_id s
          → (o : Option Payment) → find_by_idempotency_key customer_id key s.payments ≡ o
          → MaybeOf customer_id o s
      found s i none e = tt
      found s i (some p) e =
          let facts =
            find_by_idempotency_key_lem s.next_id customer_id key s.payments p (i.fresh) e in
          ((p, facts.2, Evolves-refl p), facts.1)

  -- A payment, completed: it is still the customer's, for the order.
  completed_lem :
      (customer_id order_id : ℕ) (p : Payment) (w : Server)
      → IsOf customer_id order_id p w
      → SecuresPayments payment_event_id
          (IsOf customer_id order_id)
          (complete_side_effects payment_event_id p OnBusy.returns)
          w
  completed_lem customer_id order_id p w (k, c, o) =
      Secures-mono (Returns (Follows p)) later
        (complete_side_effects_lem payment_event_id p OnBusy.returns w k)
    where
      later :
          (r : Result Payment) (t : Server)
          → Returns (Follows p) r t
          → Returns (IsOf customer_id order_id) r t
      later (ok q) t (k', e) = (k', sym e.same_customer ∙ c, sym e.same_order ∙ o)
      later (err x) t h = tt

  replay_create_lem :
      (customer_id order_id : ℕ) (p : Payment) (w : Server)
      → Known p w
      → p.customer_id ≡ customer_id
      → SecuresPayments payment_event_id
          (IsOf customer_id order_id)
          (replay_create payment_event_id order_id p)
          w
  unfolding replay_create
  replay_create_lem customer_id order_id p w k c =
      Secures-checked (not (p.order_id == order_id)) conflict
        (λ same_order. completed_lem customer_id order_id p w (k, c, ground arith))

  create_lem :
      (d : CreatePaymentData) (w : Server)
      → Secures Advances
          (IsSound payment_event_id)
          (Returns (IsOf d.customer_id d.order_id))
          (create d)
          w
  unfolding create
  create_lem d w =
      at_step (λ s a i. moves s i (is_refused d s.payments) refl)
        (λ s a i. answers s (is_refused d s.payments))
    where
      moves :
          (s : Server)
          → IsSound payment_event_id s
          → (b : Bool) → is_refused d s.payments ≡ b
          → Advances s (if b then s else inserted d s)
            × IsSound payment_event_id (if b then s else inserted d s)
      moves s i true e = (Advances-refl s, i)
      moves s i false e = inserted_step payment_event_id d s i e

      answers :
          (s : Server) (b : Bool)
          → SecuresPayments payment_event_id
              (IsOf d.customer_id d.order_id)
              (if b then throw unique_violation else ret (new_payment s.next_id d))
              (if b then s else inserted d s)
      answers s true = at_end tt
      answers s false = at_end (
        (new_payment s.next_id d, find_by_id-inserted d s, Evolves-refl (new_payment s.next_id d)),
        refl,
        refl,
      )

  abbrev InsertedFor : CreatePaymentData → Inserted → Server → Type 0
  InsertedFor d (made p) s = IsOf d.customer_id d.order_id p s
  InsertedFor d (lost_to p) s = Known p s × (p.customer_id ≡ d.customer_id)

  won_by_lem :
      (d : CreatePaymentData) (o : Option Payment) (w : Server)
      → MaybeOf d.customer_id o w
      → SecuresPayments payment_event_id (InsertedFor d) (won_by o) w
  won_by_lem d none w h = at_end tt
  won_by_lem d (some p) w h = at_end h

  insert_lem :
      (d : CreatePaymentData) (w : Server)
      → SecuresPayments payment_event_id (InsertedFor d) (insert d) w
  unfolding insert after_failed_insert
  insert_lem d w =
      Secures-catch (Returns (InsertedFor d))
        (Secures-bind (IsOf d.customer_id d.order_id) (create_lem d w) (λ p t h. at_end h))
        (λ p t h. h)
        (λ e t _. Secures-checked (not (same Error-discrete e unique_violation)) e (λ _.
          Secures-bind (MaybeOf d.customer_id) (find_prior_lem d.customer_id d.idempotency_key t)
            (λ o u h. won_by_lem d o u h)))

  after_insert_lem :
      (d : CreatePaymentData) (o : Inserted) (w : Server)
      → InsertedFor d o w
      → SecuresPayments payment_event_id
          (IsOf d.customer_id d.order_id)
          (after_insert payment_event_id d.order_id o)
          w
  after_insert_lem d (made p) w h = completed_lem d.customer_id d.order_id p w h
  after_insert_lem d (lost_to p) w (k, c) = replay_create_lem d.customer_id d.order_id p w k c

  create_anew_lem :
      (customer_id order_id auth : ℕ) (key : Option ℕ) (w : Server)
      → SecuresPayments payment_event_id
          (IsOf customer_id order_id)
          (create_anew payment_event_id customer_id order_id auth key)
          w
  unfolding create_anew
  create_anew_lem customer_id order_id auth key w =
      Secures-bind (λ _ _. Unit)
        (Secures-request Advances-refl (λ _ _. Unit) (λ s. s.order_seen order_id auth)
          (λ s a o. tt))
        (λ order t _. Secures-checked (not (order.customer_id == customer_id)) forbidden (λ _.
          Secures-checked (not (same OrderStatus-discrete order.status OrderStatus.created))
            conflict
            (λ _.
              Secures-bind (λ _ _. Unit)
                (Secures-gets Advances-refl (λ _ _. Unit)
                  (λ s. find_latest_by_order order_id s.payments) (λ s a. tt))
                (λ existing u _. Secures-checked (is_active_payment existing) conflict (λ _.
                  Secures-bind (InsertedFor (wanted order)) (insert_lem (wanted order) u)
                    (λ o v h. after_insert_lem (wanted order) o v h))))))
    where
      wanted : OrderDto → CreatePaymentData
      wanted order = record {
        order_id = order_id;
        customer_id = customer_id;
        amount = order.total_amount;
        idempotency_key = key;
      }

  pub create_payment_lem :
      (customer_id order_id auth : ℕ) (key : Option ℕ) (w : Server)
      → SecuresPayments payment_event_id
          (IsOf customer_id order_id)
          (create_payment payment_event_id customer_id order_id auth key)
          w
  unfolding create_payment
  create_payment_lem customer_id order_id auth key w =
      Secures-bind (MaybeOf customer_id) (find_prior_lem customer_id key w) (λ o t h. given o t h)
    where
      given :
          (o : Option Payment) (t : Server)
          → MaybeOf customer_id o t
          → SecuresPayments payment_event_id
              (IsOf customer_id order_id)
              (create_given payment_event_id customer_id order_id auth key o)
              t
      given none t h = create_anew_lem customer_id order_id auth key t
      given (some p) t (k, c) = replay_create_lem customer_id order_id p t k c
