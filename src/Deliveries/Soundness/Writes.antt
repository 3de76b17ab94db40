-- ===== src/Deliveries/Soundness/Writes.antt =====
-- The transactions of delivery-service's handlers, and what a move earns.
use mathlib.Core.Option.{some-injective}
use delivery_plus.Prelude.{
  ℕ, ◌≡◌, refl, sym, subst, true, Option, none, some, Bool-cases, inl, inr, arith,
}
use delivery_plus.Shared.Enums.{DeliveryStatus}
use delivery_plus.Shared.Text.{Text}
use delivery_plus.Proc.{Result, ok, err}
use delivery_plus.Proc.Secures.{at_end, at_step, Returns, Secures-bind, Secures-if, Secures-request}
use delivery_plus.Deliveries.Store.{Delivery, DeliveryEvent, Earning, create, transition}
use delivery_plus.Deliveries.Dispatch.{
  OrderFeeSplitDto, Server, Config, is_move_allowed, moved, stage_time, assigned, transaction,
}
use delivery_plus.Deliveries.Service.{
  Ending, delivering, cancelling, status_of, type_of, share_of, is_positive, earned, earns_nothing,
  earning_for,
}
use delivery_plus.Deliveries.Evolution.{ending_of, Evolves-refl, move-assigned}
use delivery_plus.Deliveries.Soundness.{Known, Known-stable, IsMove}
use delivery_plus.Deliveries.Soundness.Moves.{transition_step, Wrote, transition-Wrote}
use delivery_plus.Deliveries.Soundness.Creation.{create_step, Created, create-Created}
use delivery_plus.Deliveries.Soundness.Steps.{Moves, Sound, SecuresDeliveries, Moves-refl}

-- The delivery that a write gives back.
abbrev pub IsWritten : ℕ → DeliveryStatus → Option Delivery → Server → Type 0
IsWritten id to none s = Unit
IsWritten id to (some u) s = Known u s.db × (u.id ≡ id) × (u.status ≡ to)

Wrote-IsWritten :
    (id : ℕ) (to : DeliveryStatus) (r : Result (Option Delivery)) (s : Server)
    → Wrote id to r s.db
    → Returns (IsWritten id to) r s
Wrote-IsWritten id to (ok none) s h = tt
Wrote-IsWritten id to (ok (some u)) s (found, same_id, status) =
    ((u, found, Evolves-refl u), same_id, status)
Wrote-IsWritten id to (err e) s h = tt

pub transition_lem :
    (d : Delivery) (from to : DeliveryStatus) (change : ℕ → Delivery → Delivery)
    (event : Delivery → DeliveryEvent) (earning : Option Earning) (w : Server)
    → ((now : ℕ) → IsMove from to (change now) earning)
    → Known d w.db
    → SecuresDeliveries
        (λ o s. Known d s.db × IsWritten d.id to o s)
        (transaction (λ now. transition d.id from (change now) event now earning))
        w
unfolding transaction
transition_lem d from to change event earning w is_move k =
    at_step (λ s m i. step s i) (λ s m i. at_end (both _ _ (known s m i) (written s i)))
  where
    after : Server → Server
    after s = record s { db = (transition d.id from (change s.now) event s.now earning s.db).1 }

    step : (s : Server) → Sound s → Moves s (after s) × Sound (after s)
    step s i =
        transition_step d.id from to (change s.now) earning event s.now s.db (is_move s.now) i

    known : (s : Server) → Moves w s → Sound s → Known d (after s).db
    known s m i = Known-stable d s.db (after s).db (Known-stable d w.db s.db k m) ((step s i).0)

    written :
        (s : Server)
        → Sound s
        → Returns
            (IsWritten d.id to)
            (transition d.id from (change s.now) event s.now earning s.db).0
            (after s)
    written s i =
        Wrote-IsWritten d.id to (transition d.id from (change s.now) event s.now earning s.db).0
          (after s)
          (transition-Wrote d.id from to (change s.now) earning event s.now s.db (is_move s.now) i)

    both :
        (r : Result (Option Delivery)) (t : Server)
        → Known d t.db
        → Returns (IsWritten d.id to) r t
        → Returns (λ o s. Known d s.db × IsWritten d.id to o s) r t
    both (ok o) t k' h = (k', h)
    both (err e) t k' h = tt

pub create_lem :
    (order_id : ℕ) (customer_id : Option ℕ) (event : Delivery → DeliveryEvent) (w : Server)
    → SecuresDeliveries
        (λ d s. Known d s.db × (d.order_id ≡ order_id))
        (transaction (λ now. create now order_id customer_id event))
        w
unfolding transaction
create_lem order_id customer_id event w =
    at_step (λ s m i. create_step s.now order_id customer_id event s.db i)
      (λ s m i. at_end (created _ _ (create-Created s.now order_id customer_id event s.db)))
  where
    created :
        (r : Result Delivery) (t : Server)
        → Created order_id r t.db
        → Returns (λ d s. Known d s.db × (d.order_id ≡ order_id)) r t
    created (ok d) t (found, order) = ((d, found, Evolves-refl d), order)
    created (err e) t h = tt

pub assigned-IsMove :
    (from : DeliveryStatus) (driver_id now : ℕ)
    → is_move_allowed from DeliveryStatus.driver_assigned ≡ true
    → IsMove from DeliveryStatus.driver_assigned (assigned driver_id now) none
assigned-IsMove from driver_id now allowed = record {
  keeps_id = λ d. refl;
  keeps_order = λ d. refl;
  keeps_customer = λ d. refl;
  keeps_driver = λ d other status unassigned had.
      let free : d.driver_id ≡ none =
        unassigned (subst (λ s. d.status ≡ s) (move-assigned from allowed) status) in
      absurd (cc);
  reaches = λ d. refl;
  allowed = allowed;
  earns = λ e h. absurd (cc);
}

pub moved-lem :
    (target : DeliveryStatus) (now : ℕ) (d : Delivery)
    → ((moved target now d).id ≡ d.id)
      × ((moved target now d).order_id ≡ d.order_id)
      × ((moved target now d).customer_id ≡ d.customer_id)
      × ((moved target now d).driver_id ≡ d.driver_id)
unfolding moved stage_time
moved-lem DeliveryStatus.created now d = (refl, refl, refl, refl)
moved-lem DeliveryStatus.driver_assigned now d = (refl, refl, refl, refl)
moved-lem DeliveryStatus.picked_up now d = (refl, refl, refl, refl)
moved-lem DeliveryStatus.in_transit now d = (refl, refl, refl, refl)
moved-lem DeliveryStatus.delivered now d = (refl, refl, refl, refl)
moved-lem DeliveryStatus.cancelled now d = (refl, refl, refl, refl)

-- What is earned is of the type that the ending pays.
abbrev pub Earns : DeliveryStatus → Option Earning → Type 0
Earns to earning = (e : Earning) → earning ≡ some e → ending_of e.type ≡ some to

pub moved-IsMove :
    (from target : DeliveryStatus) (earning : Option Earning) (now : ℕ)
    → is_move_allowed from target ≡ true
    → Earns target earning
    → IsMove from target (moved target now) earning
unfolding moved
moved-IsMove from target earning now allowed earns = record {
  keeps_id = λ d. (moved-lem target now d).0;
  keeps_order = λ d. (moved-lem target now d).1;
  keeps_customer = λ d. (moved-lem target now d).2;
  keeps_driver =
      λ d driver_id _ _ had. subst (λ o. o ≡ some driver_id) (sym ((moved-lem target now d).3)) had;
  reaches = λ d. refl;
  allowed = allowed;
  earns = earns;
}

pub none-Earns : (to : DeliveryStatus) → Earns to none
none-Earns to e h = absurd (cc)

module _ (c : Config) where
  earned_type :
      (ending : Ending) (amount : Text) (e : Earning)
      → record { type = type_of ending; amount = amount; settlement = c.settlement } ≡ e
      → ending_of e.type ≡ some (status_of ending)
  earned_type delivering amount e h =
      subst (λ (x : Earning). ending_of x.type ≡ some DeliveryStatus.delivered) h refl
  earned_type cancelling amount e h =
      subst (λ (x : Earning). ending_of x.type ≡ some DeliveryStatus.cancelled) h refl

  pub earned-Earns :
      (ending : Ending) (split : OrderFeeSplitDto)
      → Earns (status_of ending) (earned c ending split)
  earned-Earns ending split e h = elim (Bool-cases (is_positive (share_of ending split))) [
    | inl pays ↦ earned_type ending (share_of ending split) e (some-injective _ e (ground arith))
    | inr nothing ↦ absurd (cc)
  ]

  pub earning_for_lem :
      (d : Delivery) (ending : Ending) (w : Server)
      → Known d w.db
      → SecuresDeliveries
          (λ earning s. Known d s.db × Earns (status_of ending) earning)
          (earning_for c d ending)
          w
  unfolding earning_for
  earning_for_lem d ending w k =
      Secures-if (earns_nothing d ending) (λ _. at_end (k, none-Earns (status_of ending)))
        (λ _.
          Secures-bind (λ _ s. Known d s.db)
            (Secures-request Moves-refl (λ _ s. Known d s.db) (λ s. s.world.fee_split d.order_id)
              (λ s m _. Known-stable d w.db s.db k m))
            (λ split t k'. at_end (k', earned-Earns ending split)))
