-- ===== src/Payments/Soundness/Handlers.antt =====
-- payment-service as a whole: any requests, whose steps interleave in any order.
use delivery_plus.Prelude.{
  ℕ, ◌≡◌, sym, subst, Bool, true, Option, some, List, [], ◌∷◌, All, All-mono,
}
use delivery_plus.Shared.Enums.{UserRole, PaymentStatus}
use delivery_plus.Shared.Events.{PaymentEventType}
use delivery_plus.Proc.{Result, ok, err}
use delivery_plus.Proc.Secures.{Secures, Returns}
use delivery_plus.Proc.Pool.{
  Pick, arrives, runs, elsewhere, Pool, serve, IsCooperative, InCourse, serve-InCourse, Answered,
  InCourse-Answered,
}
use delivery_plus.Payments.Store.{Payment, is_active, find_by_id}
use delivery_plus.Payments.Store.Laws.{Below, OneActive, OneActive-unique}
use delivery_plus.Payments.Server.{Server, Handler}
use delivery_plus.Payments.Service.{create_payment, process_payment, get_status, refund}
use delivery_plus.Payments.Evolution.{Evolves-refl}
use delivery_plus.Payments.Soundness.Events.{IsReport, Backed-IsReport}
use delivery_plus.Payments.Soundness.{
  Known, Known-stable, Advances, Advances-refl, Advances-trans, IsSound, Backed,
}
use delivery_plus.Payments.Soundness.Creation.{IsOf, create_payment_lem}
use delivery_plus.Payments.Soundness.Processing.{
  IsSettledOf, process_payment_lem, get_status_lem, refund_lem,
}

-- The routes of the service.
pub data Request : Type 0 where
  creates : (customer_id order_id auth : ℕ) → Option ℕ → Request
  processes : (id requester : ℕ) → (simulate_failure : Option Bool) → Request
  reads : (id requester : ℕ) → UserRole → Request
  refunds : (id : ℕ) → UserRole → Request

-- What the other services, the broker and the clock do: the table and the topic are the service's own.
pub record IsElsewhere (f : Server → Server) : Type 0 where
  pub same_payments : (s : Server) → (f s).payments ≡ s.payments
  pub same_next_id : (s : Server) → (f s).next_id ≡ s.next_id
  pub same_events : (s : Server) → (f s).events ≡ s.events

abbrev pub AreElsewhere : List (Pick Server Request) → Type 0
AreElsewhere [] = Unit
AreElsewhere (elsewhere f ∷ picks) = IsElsewhere f × AreElsewhere picks
AreElsewhere (_ ∷ picks) = AreElsewhere picks

module _ (payment_event_id : ℕ → PaymentEventType → ℕ) where
  unfoldable pub handle : Request → Handler Payment
  handle (creates customer_id order_id auth key) =
      create_payment payment_event_id customer_id order_id auth key
  handle (processes id requester simulate_failure) =
      process_payment payment_event_id id requester simulate_failure
  handle (reads id requester role) = get_status id requester role
  handle (refunds id role) = refund id role

  -- What the payment of an answer satisfies, in the table.
  abbrev pub IsAnswer : Request → Payment → Server → Type 0
  IsAnswer (creates customer_id order_id auth key) p s = IsOf customer_id order_id p s
  IsAnswer (processes id requester simulate_failure) p s = IsSettledOf requester p s
  IsAnswer (reads id requester role) p s = Known p s × (p.id ≡ id)
  IsAnswer (refunds id role) p s = Known p s × (p.status ≡ PaymentStatus.refunded)

  handle_lem :
      (q : Request) (w : Server)
      → Secures Advances (IsSound payment_event_id) (Returns (IsAnswer q)) (handle q) w
  unfolding handle
  handle_lem (creates customer_id order_id auth key) w =
      create_payment_lem payment_event_id customer_id order_id auth key w
  handle_lem (processes id requester simulate_failure) w =
      process_payment_lem payment_event_id requester id simulate_failure w
  handle_lem (reads id requester role) w = get_status_lem payment_event_id id requester role w
  handle_lem (refunds id role) w = refund_lem payment_event_id id role w

  IsAnswer-stable :
      (q : Request) (p : Payment) (s t : Server) → IsAnswer q p s → Advances s t → IsAnswer q p t
  IsAnswer-stable (creates customer_id order_id auth key) p s t (k, c, o) a =
      (Known-stable p s t k a, c, o)
  IsAnswer-stable (processes id requester simulate_failure) p s t (k, c, f) a =
      (Known-stable p s t k a, c, f)
  IsAnswer-stable (reads id requester role) p s t (k, h) a = (Known-stable p s t k a, h)
  IsAnswer-stable (refunds id role) p s t (k, h) a = (Known-stable p s t k a, h)

  stable :
      (q : Request) (r : Result Payment) (s t : Server)
      → Returns (IsAnswer q) r s
      → Advances s t
      → Returns (IsAnswer q) r t
  stable q (ok p) s t h a = IsAnswer-stable q p s t h a
  stable q (err e) s t h a = tt

  elsewhere-Advances : (f : Server → Server) (s : Server) → IsElsewhere f → Advances s (f s)
  elsewhere-Advances f s e p found = (
    p,
    subst (λ payments. find_by_id p.id payments ≡ some p) (sym (e.same_payments s)) found,
    Evolves-refl p,
  )

  elsewhere-IsSound :
      (f : Server → Server) (s : Server)
      → IsElsewhere f
      → IsSound payment_event_id s
      → IsSound payment_event_id (f s)
  elsewhere-IsSound f s e i = record {
    fresh =
        subst (λ n. Below n (f s).payments) (sym (e.same_next_id s))
          (subst (λ payments. Below s.next_id payments) (sym (e.same_payments s)) (i.fresh));
    one_active = subst OneActive (sym (e.same_payments s)) (i.one_active);
    backed = subst (All (λ x. Backed payment_event_id x (f s))) (sym (e.same_events s)) (
        All-mono _ _ s.events
          (λ x b.
            (b.0, b.1, b.2, b.3, b.4, Known-stable b.0 s (f s) (b.5) (elsewhere-Advances f s e)))
          (i.backed));
  }

  cooperative :
      (picks : List (Pick Server Request))
      → AreElsewhere picks
      → All (IsCooperative Advances (IsSound payment_event_id)) picks
  cooperative [] h = tt
  cooperative (arrives q ∷ picks) h = (tt, cooperative picks h)
  cooperative (runs n ∷ picks) h = (tt, cooperative picks h)
  cooperative (elsewhere f ∷ picks) (e, h) =
      (λ s i. (elsewhere-Advances f s e, elsewhere-IsSound f s e i), cooperative picks h)

  module _ (picks : List (Pick Server Request)) (s : Server) (others : AreElsewhere picks)
      (sound : IsSound payment_event_id s) where
    -- The requests that have been served, and the server, at the end.
    abbrev end : Pool Server Payment Request × Server
    end = serve handle picks ([], s)

    served :
        Advances s end.1
        × IsSound payment_event_id end.1
        × All
            (InCourse Advances
              (IsSound payment_event_id)
              (λ q. Returns (IsAnswer q))
              Advances-refl
              Advances-trans
              end.1)
            end.0
    served =
        serve-InCourse Advances (IsSound payment_event_id) (λ q. Returns (IsAnswer q)) Advances-refl
          Advances-trans handle handle_lem picks [] s (cooperative picks others) sound tt

    -- Whatever requests are served from a sound server, and however their steps and those of the other
    -- services, which leave its table alone, interleave, every payment stays in the table, for the same order, customer and amount,
    -- and its status moves only along the table of transitions.
    pub payments_advance : Advances s end.1
    payments_advance = served.0

    -- Whatever requests are served from a sound server, while the other services leave its table alone, two
    -- payments of one order that are both active (PENDING, PROCESSING or
    -- COMPLETED) are one and the same payment.
    pub one_active_payment :
        (p q : Payment)
        → find_by_id p.id end.1.payments ≡ some p
        → find_by_id q.id end.1.payments ≡ some q
        → p.order_id ≡ q.order_id
        → is_active p.status ≡ true
        → is_active q.status ≡ true
        → p.id ≡ q.id
    one_active_payment p q = OneActive-unique p.id q.id end.1.payments p q (served.1).one_active

    -- Whatever requests are served from a sound server, while the other services leave its table and topic
    -- alone, each event on the topic has the id, order, customer, amount and status of a payment as it
    -- was at some time, the type that announces that status (created PENDING, completed COMPLETED,
    -- failed FAILED) and an event id that is a function of the payment and the type; and the payment is
    -- in the table, for the same order, customer and amount, its status moved along the table of
    -- transitions, if at all.
    pub events_are_true : All (λ e. IsReport payment_event_id e end.1) end.1.events
    events_are_true =
        All-mono _ _ end.1.events (λ e. Backed-IsReport payment_event_id e end.1) (served.1).backed

    -- Whatever requests are served from a sound server, while the other services leave its table alone,
    -- what a finished one has answered, if not with an error, is a payment in
    -- the table: after a create, of the caller for the order; after a process, of the caller and
    -- COMPLETED, FAILED or by now REFUNDED; after a read, the one asked for; after a refund,
    -- REFUNDED.
    pub answers_are_true : All (Answered (λ q. Returns (IsAnswer q)) end.1) end.0
    answers_are_true =
        InCourse-Answered Advances (IsSound payment_event_id) (λ q. Returns (IsAnswer q))
          Advances-refl Advances-trans end.1 end.0 stable (served.2)
