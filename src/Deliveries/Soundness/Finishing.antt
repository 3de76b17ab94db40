-- ===== src/Deliveries/Soundness/Finishing.antt =====
-- The completion of a delivery, step by step, and what becomes of it among other requests.
use delivery_plus.Prelude.{
  ℕ, ◌≡◌, refl, sym, subst, ◌∙◌, ap, Bool, true, false, not, Option, none, some, List, same,
  same-eq, Bool-cases, inl, inr,
}
use delivery_plus.Shared.Enums.{
  UserRole, UserRole-discrete, OrderStatus, DeliveryStatus, DeliveryStatus-discrete,
}
use delivery_plus.Shared.Errors.{Error, not_found, invalid_state_transition}
use delivery_plus.Shared.Events.{DeliveryEventType}
use delivery_plus.Shared.Table.Laws.{find_row-id}
use delivery_plus.Proc.{Result, ok, ◌>>=◌, gets, or_throw, throw_if, run}
use delivery_plus.Proc.Secures.{
  at_end, at_step, Fulfils, Fulfils-bind, Secures-if, Cooperates, run-Secures,
}
use delivery_plus.Deliveries.Store.{
  Delivery, DriverLedgerEntry, DeliveryEvent, Database, Earning, find_by_id, delivery_id_of,
  is_finished, pay, transition,
}
use delivery_plus.Deliveries.Dispatch.{
  Server, Config, Handler, delivery_event, is_move_allowed, moved, transaction, kick, find_or_throw,
  release_driver_of, sync_order_along_delivery,
}
use delivery_plus.Deliveries.Service.{
  assert_assigned_driver, written_or_read, move_on, advance, complete,
}
use delivery_plus.Deliveries.Evolution.{path-finished}
use delivery_plus.Deliveries.Soundness.{Known, Known-stable, IsSound, IsMove}
use delivery_plus.Deliveries.Soundness.Moves.{transition_step, Wrote, transition-Wrote}
use delivery_plus.Deliveries.Soundness.Steps.{Moves, Moves-refl, Moves-trans, present}
use delivery_plus.Deliveries.Soundness.Writes.{Earns, moved-IsMove, moved-lem}
use delivery_plus.Deliveries.Soundness.Completion.{
  IsOnWay, still, over, IsCarried, IsUnderWay, Succeeds, Sure, fulfilled, found_or_thrown,
  released_of, synced, earning_found,
}

module _ (id driver_id : ℕ) where
  passed :
      {A : Type 0} {X : A → Server → Type 0} (b : Bool) (e : Error) {p : Handler A} {w : Server}
      → b ≡ false
      → Succeeds id driver_id X p w
      → Succeeds id driver_id X (throw_if b e >>= λ _. p) w
  unfolding throw_if ◌>>=◌
  passed true e is h = absurd (cc)
  passed false e is h = h

  pay_ok :
      (now : ℕ) (d : Delivery) (earning : Option Earning) (ledger : List DriverLedgerEntry)
      → (l : List DriverLedgerEntry) × (pay now d (some driver_id) earning ledger ≡ ok l)
  pay_ok now d none ledger = (ledger, refl)
  pay_ok now d (some earning) ledger = (_, refl)

  module _ (from : DeliveryStatus) (event : Delivery → DeliveryEvent) (earning : Option Earning)
      (now : ℕ) (db : Database) (i : ℕ) where
    abbrev written : Result (Option Delivery) × Database
    written = transition i from (moved DeliveryStatus.delivered now) event now earning db

    won :
        (e : Delivery)
        → find_by_id i db.deliveries ≡ some e
        → same DeliveryStatus-discrete e.status from ≡ true
        → e.driver_id ≡ some driver_id
        → written.0 ≡ ok (some (moved DeliveryStatus.delivered now e))
    unfolding transition
    won e found met driver =
        let carries : (moved DeliveryStatus.delivered now e).driver_id ≡ some driver_id =
          (moved-lem DeliveryStatus.delivered now e).3 ∙ driver in
        let (l, paid) = pay_ok now (moved DeliveryStatus.delivered now e) earning db.ledger in
        let pays =
          ap (λ o. pay now (moved DeliveryStatus.delivered now e) o earning db.ledger) carries
          ∙ paid in
        rw (found, met, pays) refl

    lost :
        (e : Delivery)
        → find_by_id i db.deliveries ≡ some e
        → same DeliveryStatus-discrete e.status from ≡ false
        → written ≡ (ok none, db)
    unfolding transition
    lost e found unmet = rw (found, unmet) refl

  module _ (c : Config) where
    delivered_allowed : is_move_allowed DeliveryStatus.in_transit DeliveryStatus.delivered ≡ true
    unfolding is_move_allowed
    delivered_allowed = refl

    in_transit-delivered :
        {st : DeliveryStatus}
        → IsOnWay st
        → same DeliveryStatus-discrete st DeliveryStatus.in_transit ≡ false
        → st ≡ DeliveryStatus.delivered
    unfolding DeliveryStatus-discrete
    in_transit-delivered still h = absurd (cc)
    in_transit-delivered over h = refl

    delivered-in_transit :
        {st : DeliveryStatus}
        → IsOnWay st
        → same DeliveryStatus-discrete st DeliveryStatus.delivered ≡ false
        → st ≡ DeliveryStatus.in_transit
    unfolding DeliveryStatus-discrete
    delivered-in_transit still h = refl
    delivered-in_transit over h = absurd (cc)

    same-delivered :
        (st : DeliveryStatus)
        → st ≡ DeliveryStatus.delivered
        → not (same DeliveryStatus-discrete st DeliveryStatus.delivered) ≡ false
    unfolding DeliveryStatus-discrete
    same-delivered st e =
        subst (λ x. not (same DeliveryStatus-discrete x DeliveryStatus.delivered) ≡ false) (sym e)
          refl

    -- A delivered delivery of the id, in the table.
    abbrev IsOver : Server → Type 0
    IsOver s =
        (e : Delivery) × (find_by_id id s.db.deliveries ≡ some e)
        × (e.status ≡ DeliveryStatus.delivered)

    abbrev pub IsDone : Delivery → Server → Type 0
    IsDone d s = (d.id ≡ id) × (d.status ≡ DeliveryStatus.delivered)

    abbrev Wins : Option Delivery → Server → Type 0
    Wins none s = IsOver s
    Wins (some u) s = IsDone u s

    -- The compare-and-set wins, or another completion was first.
    written_lem :
        (d : Delivery) (event : Delivery → DeliveryEvent) (earning : Option Earning) (w : Server)
        → d.id ≡ id
        → d.status ≡ DeliveryStatus.in_transit
        → Earns DeliveryStatus.delivered earning
        → Succeeds id driver_id Wins
            (transaction (λ now.
              transition d.id d.status (moved DeliveryStatus.delivered now) event now earning))
            w
    unfolding transaction
    written_lem d event earning w same_id status earns =
        at_step (λ s m i. (step s i).0) (λ s m i. at_end ((step s i).1))
      where
        after : Server → Server
        after s = record s { db = (written d.status event earning s.now s.db d.id).1 }

        is_move :
            (now : ℕ)
            → IsMove d.status DeliveryStatus.delivered (moved DeliveryStatus.delivered now) earning
        is_move now =
            moved-IsMove d.status DeliveryStatus.delivered earning now
              (subst (λ x. is_move_allowed x DeliveryStatus.delivered ≡ true) (sym status)
                delivered_allowed)
              earns

        kept : (s : Server) → IsUnderWay id driver_id s → Moves s (after s) × IsSound (after s).db
        kept s i =
            transition_step d.id d.status DeliveryStatus.delivered
              (moved DeliveryStatus.delivered s.now) earning event s.now s.db (is_move s.now)
              (i.sound)

        step :
            (s : Server)
            → IsUnderWay id driver_id s
            → (Moves s (after s) × IsUnderWay id driver_id (after s))
              × Fulfils Wins (written d.status event earning s.now s.db d.id).0 (after s)
        step s i =
            let (e, found, (this_id, on_way, driver)) = i.carried in
            let found' : find_by_id d.id s.db.deliveries ≡ some e =
              subst (λ j. find_by_id j s.db.deliveries ≡ some e) (sym same_id) found in
            elim (Bool-cases (same DeliveryStatus-discrete e.status d.status)) [
              | inl met ↦ first s i e found' met driver
              | inr unmet ↦ second s i e found found' on_way unmet
            ]
          where
            first :
                (s : Server)
                → IsUnderWay id driver_id s
                → (e : Delivery) → find_by_id d.id s.db.deliveries ≡ some e
                → same DeliveryStatus-discrete e.status d.status ≡ true
                → e.driver_id ≡ some driver_id
                → (Moves s (after s) × IsUnderWay id driver_id (after s))
                  × Fulfils Wins (written d.status event earning s.now s.db d.id).0 (after s)
            first s i e found met driver =
                let u = moved DeliveryStatus.delivered s.now e in
                let gives = won d.status event earning s.now s.db d.id e found met driver in
                let wrote : Wrote d.id DeliveryStatus.delivered (ok (some u)) (after s).db =
                  subst (λ r. Wrote d.id DeliveryStatus.delivered r (after s).db) gives
                    (transition-Wrote d.id d.status DeliveryStatus.delivered
                      (moved DeliveryStatus.delivered s.now) earning event s.now s.db
                      (is_move s.now) (i.sound)) in
                let u_id : u.id ≡ id = wrote.1 ∙ same_id in
                (
                  (
                    (kept s i).0,
                    record {
                      sound = (kept s i).1;
                      accepts = i.accepts;
                      carried = (
                        u,
                        subst (λ j. find_by_id j (after s).db.deliveries ≡ some u) u_id (wrote.0),
                        (
                          u_id,
                          subst IsOnWay (sym (wrote.2)) over,
                          (moved-lem DeliveryStatus.delivered s.now e).3 ∙ driver,
                        ),
                      );
                    },
                  ),
                  fulfilled id driver_id Wins (written d.status event earning s.now s.db d.id).0
                      (some u) (after s) gives (u_id, wrote.2),
                )

            second :
                (s : Server)
                → IsUnderWay id driver_id s
                → (e : Delivery) → find_by_id id s.db.deliveries ≡ some e
                → find_by_id d.id s.db.deliveries ≡ some e
                → IsOnWay e.status
                → same DeliveryStatus-discrete e.status d.status ≡ false
                → (Moves s (after s) × IsUnderWay id driver_id (after s))
                  × Fulfils Wins (written d.status event earning s.now s.db d.id).0 (after s)
            second s i e found found' on_way unmet =
                let gives = lost d.status event earning s.now s.db d.id e found' unmet in
                subst
                  (λ (x : Result (Option Delivery) × Database).
                    (Moves s (record s { db = x.1 })
                      × IsUnderWay id driver_id (record s { db = x.1 }))
                    × Fulfils Wins x.0 (record s { db = x.1 }))
                  (sym gives)
                  (
                    (Moves-refl s, i),
                    (
                      e,
                      found,
                      in_transit-delivered on_way (
                          subst (λ x. same DeliveryStatus-discrete e.status x ≡ false) status
                            unmet),
                    ),
                  )

    -- A delivery that is over is read as such.
    read_over :
        (i : ℕ) (w : Server) → i ≡ id → IsOver w → Succeeds id driver_id IsDone (find_or_throw i) w
    unfolding find_or_throw gets or_throw ◌>>=◌
    read_over i w same_id (e, found, over_now) =
        at_step (λ s m i'. (Moves-refl s, i'))
          (λ s m i'. later s (Known-stable e w.db s.db (present id w.db e found) m))
      where
        later :
            (s : Server)
            → Known e s.db
            → Succeeds id driver_id IsDone (or_throw not_found (find_by_id i s.db.deliveries)) s
        later s (x, found', ev) =
            let e_id : e.id ≡ id = find_row-id delivery_id_of id w.db.deliveries e found in
            let there : find_by_id i s.db.deliveries ≡ some x =
              subst (λ j. find_by_id j s.db.deliveries ≡ some x) (e_id ∙ sym same_id) found' in
            subst (λ o. Succeeds id driver_id IsDone (or_throw not_found o) s) (sym there)
              (at_end (
                sym ev.same_id ∙ e_id,
                sym (
                      path-finished (ev.path)
                        (subst (λ x. is_finished x ≡ true) (sym over_now) refl))
                    ∙ over_now,
              ))

    written_or_read_lem :
        (i : ℕ) (o : Option Delivery) (w : Server)
        → i ≡ id
        → Wins o w
        → Succeeds id driver_id IsDone (written_or_read i o) w
    unfolding kick
    written_or_read_lem i none w same_id h = read_over i w same_id h
    written_or_read_lem i (some u) w same_id h =
        Fulfils-bind (λ _ s. IsDone u s)
          (at_step
            (λ s m i'. (
              Moves-refl s,
              record { sound = i'.sound; accepts = i'.accepts; carried = i'.carried },
            ))
            (λ s m i'. at_end h))
          (λ _ t h'. at_end h')

    move_on_lem :
        (d : Delivery) (event_type : DeliveryEventType) (earning : Option Earning) (w : Server)
        → d.id ≡ id
        → d.status ≡ DeliveryStatus.in_transit
        → Earns DeliveryStatus.delivered earning
        → Succeeds id driver_id IsDone (move_on c d DeliveryStatus.delivered event_type earning) w
    unfolding move_on
    move_on_lem d event_type earning w same_id status earns =
        passed (not (is_move_allowed d.status DeliveryStatus.delivered)) invalid_state_transition
          (subst (λ x. not (is_move_allowed x DeliveryStatus.delivered) ≡ false) (sym status)
            (ap not delivered_allowed))
          (Fulfils-bind Wins
            (written_lem d (delivery_event c event_type) earning w same_id status earns)
            (λ updated t h.
              Fulfils-bind IsDone (written_or_read_lem d.id updated t same_id h)
                (λ current u done_now.
                  passed
                    (not (same DeliveryStatus-discrete current.status DeliveryStatus.delivered))
                    invalid_state_transition (same-delivered current.status (done_now.1))
                    (at_end done_now))))

    admin_passes :
        (d : Delivery) (requester : ℕ)
        → Sure id driver_id (assert_assigned_driver d requester UserRole.admin)
    unfolding assert_assigned_driver UserRole-discrete
    admin_passes d requester w = at_end tt

    pub complete_succeeds :
        (requester : ℕ) (w : Server)
        → Succeeds id driver_id IsDone (complete c id requester UserRole.admin) w
    unfolding complete advance
    complete_succeeds requester w =
        Fulfils-bind (λ d s. IsCarried id driver_id d) (found_or_thrown id driver_id w)
          (λ d t (same_id, on_way, driver).
            Fulfils-bind (λ _ _. Unit) (admin_passes d requester t)
              (λ _ u _.
                Fulfils-bind (λ earning s. Earns DeliveryStatus.delivered earning)
                  (earning_found id driver_id c d u)
                  (λ earning v earns.
                    Fulfils-bind IsDone
                      (Secures-if (same DeliveryStatus-discrete d.status DeliveryStatus.delivered)
                        (λ is. at_end (
                          same_id,
                          same-eq DeliveryStatus-discrete d.status DeliveryStatus.delivered is,
                        ))
                        (λ is_not.
                          move_on_lem d DeliveryEventType.completed earning v same_id
                            (delivered-in_transit on_way is_not) earns))
                      (λ current x done_now.
                        Fulfils-bind (λ _ _. Unit) (effects current x)
                          (λ _ y _. at_end done_now)))))
      where
        effects :
            (d : Delivery)
            → Sure id driver_id (
                release_driver_of d >>= λ _.
                sync_order_along_delivery d.order_id OrderStatus.delivered)
        effects d w' =
            Fulfils-bind (λ _ _. Unit) (released_of id driver_id d w')
              (λ _ t _. synced id driver_id d.order_id OrderStatus.delivered t)

    -- Where a delivery is on its way, or delivered already, with its driver, in sound tables, and the
    -- other services answer and accept what they are asked for, and whatever others do between the
    -- steps, by which deliveries advance and all this stays so: completing the delivery as an admin
    -- answers with it DELIVERED, never with an error, and all this is so at the end.
    pub completion_succeeds :
        (requester : ℕ) (others : List (Server → Server)) (s : Server)
        → Cooperates Moves (IsUnderWay id driver_id) others
        → IsUnderWay id driver_id s
        → IsUnderWay id driver_id (run (complete c id requester UserRole.admin) others s).1
          × Fulfils IsDone
              (run (complete c id requester UserRole.admin) others s).0
              (run (complete c id requester UserRole.admin) others s).1
    completion_succeeds requester others s cooperate i =
        let end =
          run-Secures Moves-refl Moves-trans (Fulfils IsDone) others s
            (complete_succeeds requester s) cooperate i in
        (end.1, end.2)
