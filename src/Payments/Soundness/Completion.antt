-- ===== src/Payments/Soundness/Completion.antt =====
-- `completeSideEffects` keeps the table sound, and its events are true.
use delivery_plus.Prelude.{
  ℕ, ◌+◌, ◌≡◌, refl, Bool, true, false, not, ◌||◌, Option, none, some, same, includes,
}
use delivery_plus.Shared.Enums.{
  OrderStatus, OrderStatus-discrete, PaymentStatus, PaymentStatus-discrete,
}
use delivery_plus.Shared.Events.{PaymentEventType}
use delivery_plus.Shared.Errors.{Error, Error-discrete, conflict}
use delivery_plus.Proc.{Proc, Result, ok, err, ◌>>=◌}
use delivery_plus.Proc.Secures.{
  Secures, at_end, at_step, Returns, Secures-bind, Secures-catch, Secures-throw_if, Secures-if,
  Secures-request,
}
use delivery_plus.Payments.Store.{Payment, any_row, is_free, leased, published, synced}
use delivery_plus.Payments.Server.{
  PaymentEvent, Server, BrokerReply, finally, acquire_side_effects_lease,
  release_side_effects_lease, mark_event_published, mark_order_synced, publish, answer,
  update_order_status, update,
}
use delivery_plus.Payments.SideEffects.{
  terminal_order_statuses, side_effects, side_effects_lease_ms, OnBusy, is_status,
  has_owed_side_effects, after_refused_sync, sync_order, payment_event, publish_owed, sync_owed,
  perform_side_effects, under_lease, returned_or_read, with_lease, complete_side_effects,
}
use delivery_plus.Payments.Soundness.{
  Known, Known-stable, Known-earlier, updated, updated-Advances, updated-IsSound, Advances,
  Advances-refl, IsSound, published_step,
}
use delivery_plus.Payments.Soundness.Effects.{
  Follows, Follows-start, SecuresPayments, leased-IsTame, published-IsTame, synced-IsTame, quiet,
  quiet_unit, later_read,
}

module _ (payment_event_id : ℕ → PaymentEventType → ℕ) where
  publish_lem :
      (p : Payment) (event_type : PaymentEventType) (order_status : OrderStatus) (w : Server)
      → side_effects p.status ≡ some (event_type, order_status)
      → Known p w
      → SecuresPayments payment_event_id
          (λ _ s. Known p s)
          (publish (payment_event payment_event_id event_type p))
          w
  unfolding publish
  publish_lem p event_type order_status w owed k =
      at_step
        (λ s a i. (
          Advances-refl s,
          published_step payment_event_id (s.broker (event s)) (event s) s i
              (p, event_type, order_status, owed, refl, Known-stable p w s k a),
        ))
        (λ s a i. at_end (answered (s.broker (event s)) _ (Known-stable p w s k a)))
    where
      event : Server → PaymentEvent
      event s = payment_event payment_event_id event_type p

      answered :
          (reply : BrokerReply) (t : Server)
          → Known p t
          → Returns (λ (_ : Unit {0}) s. Known p s) (answer reply) t
      answered BrokerReply.accepted t h = h
      answered BrokerReply.refused t h = tt
      answered BrokerReply.lost t h = tt

  publish_owed_lem :
      (p : Payment) (event_type : PaymentEventType) (order_status : OrderStatus) (w : Server)
      → side_effects p.status ≡ some (event_type, order_status)
      → Known p w
      → SecuresPayments payment_event_id
          (λ _ s. Known p s)
          (publish_owed payment_event_id p event_type)
          w
  unfolding publish_owed mark_event_published
  publish_owed_lem p event_type order_status w owed k =
      Secures-if (is_status p.status p.published_event_status) (λ _. at_end k)
        (λ _.
          Secures-bind (λ _ s. Known p s) (publish_lem p event_type order_status w owed k)
            (λ _ t k'.
              quiet_unit payment_event_id p p.id (λ _. any_row) (λ _. published p.status) t
                (λ _. published-IsTame p.status) k'))

  update_order_status_lem :
      (p : Payment) (order_id : ℕ) (status : OrderStatus) (w : Server)
      → Known p w
      → Secures Advances
          (IsSound payment_event_id)
          (λ _ s. Known p s)
          (update_order_status order_id status)
          w
  update_order_status_lem p order_id status w k =
      at_step
        (λ s a i. (
          Advances-refl s,
          record { fresh = i.fresh; one_active = i.one_active; backed = i.backed },
        ))
        (λ s a i. at_end (Known-stable p w s k a))

  after_refused_sync_lem :
      (p : Payment) (e : Error) (w : Server)
      → Known p w
      → SecuresPayments payment_event_id (λ _ s. Known p s) (after_refused_sync p e) w
  unfolding after_refused_sync
  after_refused_sync_lem p e w k =
      Secures-if
        (not (same Error-discrete e conflict)
          || not (same PaymentStatus-discrete p.status PaymentStatus.failed))
        (λ _. at_end tt)
        (λ _.
          Secures-bind (λ _ s. Known p s)
            (Secures-request Advances-refl (λ _ s. Known p s) (λ s. s.order_as_system p.order_id)
              (λ s a _. Known-stable p w s k a))
            (λ order u k'.
              Secures-throw_if
                (not (includes OrderStatus-discrete order.status terminal_order_statuses)) e k'))

  sync_order_lem :
      (p : Payment) (status : OrderStatus) (w : Server)
      → Known p w
      → SecuresPayments payment_event_id (λ _ s. Known p s) (sync_order p status) w
  unfolding sync_order
  sync_order_lem p status w k =
      Secures-catch (λ _ s. Known p s) (update_order_status_lem p p.order_id status w k)
        (λ _ t h. h) (λ e t h. after_refused_sync_lem p e t h)

  sync_owed_lem :
      (p : Payment) (order_status : OrderStatus) (w : Server)
      → Known p w
      → SecuresPayments payment_event_id
          (λ _ s. Known p s)
          (sync_owed payment_event_id p order_status)
          w
  unfolding sync_owed mark_order_synced
  sync_owed_lem p order_status w k =
      Secures-if (is_status p.status p.order_synced_status) (λ _. at_end k)
        (λ _.
          Secures-bind (λ _ s. Known p s) (sync_order_lem p order_status w k)
            (λ _ t k'.
              quiet_unit payment_event_id p p.id (λ _. any_row) (λ _. synced p.status) t
                (λ _. synced-IsTame p.status) k'))

  -- What the `try` gives: the payment where it returns early.
  abbrev Tried : Payment → Option Payment → Server → Type 0
  Tried p none s = Known p s
  Tried p (some q) s = Follows p q s

  Tried-stable :
      (p : Payment) (o : Option Payment) (s t : Server) → Tried p o s → Advances s t → Tried p o t
  Tried-stable p none s t h a = Known-stable p s t h a
  Tried-stable p (some q) s t (k, e) a = (Known-stable q s t k a, e)

  perform_lem :
      (p q : Payment) (effects : Option (PaymentEventType × OrderStatus)) (w : Server)
      → side_effects q.status ≡ effects
      → Follows p q w
      → SecuresPayments payment_event_id
          (Tried p)
          (perform_side_effects payment_event_id q effects)
          w
  unfolding perform_side_effects
  perform_lem p q none w owed f = at_end f
  perform_lem p q (some (event_type, order_status)) w owed f =
      Secures-bind (λ _ s. Known q s) (publish_owed_lem q event_type order_status w owed (f.0))
        (λ _ t k'.
          Secures-bind (λ _ s. Known q s) (sync_owed_lem q order_status t k')
            (λ _ u k''. at_end (Known-earlier p q u (f.1) k'')))

  under_lease_lem :
      (p : Payment) (w : Server)
      → Known p w
      → SecuresPayments payment_event_id (Tried p) (under_lease payment_event_id p.id) w
  unfolding under_lease
  under_lease_lem p w k =
      Secures-bind (Follows p) (later_read payment_event_id p p.id w refl k)
        (λ q t f. perform_lem p q (side_effects q.status) t refl f)

  -- `finally`: the lease is released, whatever came before.
  release_lem :
      {A : Type 0} (id : ℕ) (X : A → Server → Type 0) {body : Proc Server A} {w : Server}
      → ((a : A) (s t : Server) → X a s → Advances s t → X a t)
      → SecuresPayments payment_event_id X body w
      → SecuresPayments payment_event_id X (finally (release_side_effects_lease id) body) w
  unfolding finally release_side_effects_lease update ◌>>=◌
  release_lem {A} id X stable (at_end {r = r} {w = w} h) =
      at_step
        (λ s a i. (
          updated-Advances id any_row (leased none) (leased-IsTame any_row none) s,
          updated-IsSound id any_row (leased none) (leased-IsTame any_row none) payment_event_id s
              i,
        ))
        (λ s a i. at_end (
          later r s (updated id any_row (leased none) s) (later r w s h a)
            (updated-Advances id any_row (leased none) (leased-IsTame any_row none) s)))
    where
      later : (r : Result A) (s t : Server) → Returns X r s → Advances s t → Returns X r t
      later (ok a) s t h b = stable a s t h b
      later (err e) s t h b = tt
  release_lem id X stable (at_step h rest) =
      at_step h (λ s a i. release_lem id X stable (rest s a i))

  with_lease_lem :
      (p : Payment) (on_busy : OnBusy) (got : Bool) (w : Server)
      → Known p w
      → SecuresPayments payment_event_id (Follows p) (with_lease payment_event_id p on_busy got) w
  unfolding with_lease
  with_lease_lem p OnBusy.returns false w k = at_end (Follows-start p w k)
  with_lease_lem p OnBusy.conflicts false w k = at_end tt
  with_lease_lem p on_busy true w k =
      Secures-bind (Tried p) (release_lem p.id (Tried p) (Tried-stable p) (under_lease_lem p w k))
        (λ o t h. read o t h)
    where
      read :
          (o : Option Payment) (t : Server)
          → Tried p o t
          → SecuresPayments payment_event_id
              (Follows p)
              (returned_or_read payment_event_id p.id o)
              t
      read none t h = later_read payment_event_id p p.id t refl h
      read (some q) t h = at_end h

  -- The payment that it returns is the one that it was given, later.
  pub complete_side_effects_lem :
      (p : Payment) (on_busy : OnBusy) (w : Server)
      → Known p w
      → SecuresPayments payment_event_id
          (Follows p)
          (complete_side_effects payment_event_id p on_busy)
          w
  unfolding complete_side_effects acquire_side_effects_lease
  complete_side_effects_lem p on_busy w k =
      Secures-if (has_owed_side_effects p)
        (λ _.
          Secures-bind (λ _ s. Known p s)
            (quiet payment_event_id p p.id is_free
              (λ now. leased (some (now + side_effects_lease_ms))) w
              (λ now. leased-IsTame (is_free now) (some (now + side_effects_lease_ms))) k)
            (λ got t k'. with_lease_lem p on_busy got t k'))
        (λ _. at_end (Follows-start p w k))
