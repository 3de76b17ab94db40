-- ===== src/Deliveries/Ratings/Handlers.antt =====
-- Each handler of ratings keeps the ratings and their summaries in step.
use delivery_plus.Prelude.{
  ℕ, suc, ◌+◌, ◌≡◌, refl, subst, ◌∙◌, ap, true, false, not, ◌&&◌, Option, none, some, [], ◌==◌,
  same, same-eq, if◌then◌else◌, All, Bool-cases, inl, inr,
}
use delivery_plus.Shared.Enums.{
  UserRole, UserRole-discrete, DeliveryStatus, DeliveryStatus-discrete,
}
use delivery_plus.Shared.Errors.{
  Error, Error-discrete, forbidden, unique_violation, rating_not_allowed, not_found,
  upstream_failure,
}
use delivery_plus.Shared.Text.{Text}
use delivery_plus.Proc.{Result, ok, err, ret, gets, request, or_throw, ◌>>=◌}
use delivery_plus.Proc.Secures.{
  Secures, Returns, Secures-bind, Secures-catch, Secures-checked, Secures-if,
}
use delivery_plus.Proc.Rules.{
  Guarantees, at_end, Guarantees-bind, Guarantees-if, Guarantees-or_throw, Guarantees-throw_if,
  Guarantees-gets, Guarantees-request,
}
use delivery_plus.Deliveries.Store.{Delivery, find_by_id}
use delivery_plus.Deliveries.Dispatch.{DriverDto}
use delivery_plus.Deliveries.Soundness.{Known, Known-stable}
use delivery_plus.Deliveries.Soundness.Steps.{Moves, Moves-refl, Moves-trans, present}
use delivery_plus.Deliveries.Ratings.{
  DeliveryRating, RatingServer, RatingHandler, RatingReply, Rater, find_by_delivery_id, is_rated,
  stored, create_rating, ineligibility, is_ineligible, comment_of, same_comment, replay_or_conflict,
  find_delivery, customer_of, assert_order_customer, new_rating, view, store_rating,
  after_failed_rating, rate_anew, replay_or_rate, rate, get_rating_status, summary_for,
  get_summary_for_driver, DriverRatingSummaryDto,
}
use delivery_plus.Deliveries.Ratings.Summary.{
  count_of, sum_of, count_in, sum_in, count_in-add_to_summary, sum_in-add_to_summary,
  OnePerDelivery,
}

-- The rating is of a delivery that was delivered, and of the driver who delivered it.
abbrev pub IsEarned : DeliveryRating → RatingServer → Type 0
IsEarned r s =
    (d : Delivery) × (d.id ≡ r.delivery_id)
    × Known d s.base.db
    × (d.status ≡ DeliveryStatus.delivered)
    × (d.driver_id ≡ some r.driver_id)

pub record IsRated (s : RatingServer) : Type 0 where
  pub counts : (driver_id : ℕ) → count_in driver_id s.summaries ≡ count_of driver_id s.ratings
  pub sums : (driver_id : ℕ) → sum_in driver_id s.summaries ≡ sum_of driver_id s.ratings
  pub one_per_delivery : OnePerDelivery s.ratings
  pub earned : All (λ r. IsEarned r s) s.ratings

-- Deliveries move as delivery-service moves them.
abbrev pub BaseMoves : RatingServer → RatingServer → Type 0
BaseMoves s t = Moves s.base t.base

pub BaseMoves-refl : (s : RatingServer) → BaseMoves s s
BaseMoves-refl s = Moves-refl s.base

pub BaseMoves-trans : (s t u : RatingServer) → BaseMoves s t → BaseMoves t u → BaseMoves s u
BaseMoves-trans s t u = Moves-trans s.base t.base u.base

abbrev pub SecuresRatings :
    {A : Type 0} → (A → RatingServer → Type 0) → RatingHandler A → RatingServer → Type 0
SecuresRatings X = Secures BaseMoves IsRated (Returns X)

abbrev pub Keeps : {A : Type 0} → RatingHandler A → RatingServer → Type 0
Keeps p w = SecuresRatings (λ _ _. Unit {0}) p w

-- Reads and calls.
abbrev pub Same : RatingServer → RatingServer → Type 0
Same s t = s ≡ t

abbrev pub Reads : {A : Type 0} → RatingHandler A → Type 0
Reads p = Guarantees Same p

kept :
    {A : Type 0} (r : Result A) (Y : RatingServer → Type 0) (s : RatingServer)
    → Y s
    → Returns (λ (_ : A) t. Y t) r s
kept (ok a) Y s y = y
kept (err e) Y s y = tt

unwritten :
    {A : Type 0} {p : RatingHandler A} (Y : RatingServer → Type 0) (w : RatingServer)
    → ((s t : RatingServer) → Y s → BaseMoves s t → Y t)
    → Reads p
    → Y w
    → SecuresRatings (λ _ s. Y s) p w
unwritten Y w stable (Guarantees.at_end r) y = Secures.at_end (kept r Y w y)
unwritten Y w stable (Guarantees.at_step {u = u} h hs) y =
    Secures.at_step (λ s m i. (subst (BaseMoves s) (h s) (BaseMoves-refl s), subst IsRated (h s) i))
      (λ s m i. unwritten Y (u s) stable (hs s) (subst Y (h s) (stable w s y m)))

unchanged :
    {A : Type 0} {p : RatingHandler A} (d : Delivery) (w : RatingServer)
    → Reads p
    → Known d w.base.db
    → SecuresRatings (λ _ s. Known d s.base.db) p w
unchanged d w h k =
    unwritten (λ s. Known d s.base.db) w (λ s t k m. Known-stable d s.base.db t.base.db k m) h k

pub harmless : {A : Type 0} {p : RatingHandler A} (w : RatingServer) → Reads p → Keeps p w
harmless w h = unwritten (λ _. Unit) w (λ s t _ _. tt) h tt

gets-Reads : {A : Type 0} (f : RatingServer → A) → Reads (gets f)
gets-Reads f = Guarantees-gets (λ s. refl) f

request-Reads : {A : Type 0} (f : RatingServer → Result A) → Reads (request f)
request-Reads f = Guarantees-request (λ s. refl) f

replay-Reads :
    (existing : DeliveryRating) (score : ℕ) (comment : Option Text)
    → Reads (replay_or_conflict existing score comment)
unfolding replay_or_conflict
replay-Reads existing score comment =
    Guarantees-if ((existing.score == score) && same_comment existing.comment comment)
      (λ _. at_end _) (λ _. at_end _)

customer_of-Reads : (d : Delivery) → Reads (customer_of d)
customer_of-Reads d = by_copy d.customer_id
  where
    by_copy :
        (o : Option ℕ)
        → Reads (elim o [
          | none ↦ request (λ (s : RatingServer). s.base.world.order_seen d.order_id) >>= λ order.
              ret order.customer_id
          | some customer_id ↦ ret (some customer_id)
        ])
    by_copy none = Guarantees-bind (request-Reads _) (λ order. at_end _)
    by_copy (some customer_id) = at_end _

assert_order_customer-Reads : (d : Delivery) (rater : Rater) → Reads (assert_order_customer d rater)
unfolding assert_order_customer
assert_order_customer-Reads d rater =
    Guarantees-bind (Guarantees-throw_if _ forbidden)
      (λ _. Guarantees-bind (customer_of-Reads d) (λ customer. Guarantees-throw_if _ forbidden))

after_failed-Reads :
    (delivery_id score : ℕ) (comment : Option Text) (e : Error)
    → Reads (after_failed_rating delivery_id score comment e)
unfolding after_failed_rating
after_failed-Reads delivery_id score comment e =
    Guarantees-if (not (same Error-discrete e unique_violation)) (λ _. at_end _)
      (λ _. Guarantees-bind (gets-Reads _) (λ found.
        Guarantees-bind (Guarantees-or_throw e found)
          (λ winner. replay-Reads winner score comment)))

find_delivery_lem :
    (id : ℕ) (w : RatingServer) → SecuresRatings (λ d s. Known d s.base.db) (find_delivery id) w
unfolding find_delivery gets or_throw ◌>>=◌
find_delivery_lem id w =
    Secures.at_step (λ s m i. (BaseMoves-refl s, i))
      (λ s m i. found s (find_by_id id s.base.db.deliveries) refl)
  where
    found :
        (s : RatingServer) (o : Option Delivery)
        → find_by_id id s.base.db.deliveries ≡ o
        → SecuresRatings (λ d t. Known d t.base.db) (or_throw not_found o) s
    found s none e = Secures.at_end tt
    found s (some d) e = Secures.at_end (present id s.base.db d e)

-- A rating of a delivery without one keeps the tables in step.
stored-IsRated :
    (r : DeliveryRating) (s : RatingServer)
    → IsRated s
    → is_rated (find_by_delivery_id r.delivery_id s.ratings) ≡ false
    → IsEarned r s
    → IsRated (stored r s)
stored-IsRated r s i free earned = record {
  counts = λ driver_id.
      count_in-add_to_summary r.driver_id driver_id r.score s.summaries
      ∙ ap (λ n. if r.driver_id == driver_id then suc n else n) (i.counts driver_id);
  sums = λ driver_id.
      sum_in-add_to_summary r.driver_id driver_id r.score s.summaries
      ∙ ap (λ n. if r.driver_id == driver_id then n + r.score else n) (i.sums driver_id);
  one_per_delivery = (free, i.one_per_delivery);
  earned = (earned, i.earned);
}

create_rating_lem :
    (d : Delivery) (driver_id : ℕ) (rating : ℕ → DeliveryRating) (w : RatingServer)
    → ((at : ℕ) → d.id ≡ (rating at).delivery_id)
    → ((at : ℕ) → d.driver_id ≡ some (rating at).driver_id)
    → d.status ≡ DeliveryStatus.delivered
    → Known d w.base.db
    → Keeps (create_rating rating) w
unfolding create_rating
create_rating_lem d driver_id rating w of_delivery of_driver delivered k =
    Secures.at_step (λ s m i. step s m i)
      (λ s m i.
        Secures-if (is_rated (find_by_delivery_id (rating s.base.now).delivery_id s.ratings))
          (λ _. Secures.at_end tt) (λ _. Secures.at_end tt))
  where
    step :
        (s : RatingServer)
        → BaseMoves w s
        → IsRated s
        → BaseMoves s (
            if is_rated (find_by_delivery_id (rating s.base.now).delivery_id s.ratings)
            then s
            else stored (rating s.base.now) s)
          × IsRated (
              if is_rated (find_by_delivery_id (rating s.base.now).delivery_id s.ratings)
              then s
              else stored (rating s.base.now) s)
    step s m i =
        elim (Bool-cases
          (is_rated (find_by_delivery_id (rating s.base.now).delivery_id s.ratings))) [
            | inl taken ↦ rw taken (BaseMoves-refl s, i)
            | inr free ↦ rw free (
              BaseMoves-refl s,
              stored-IsRated (rating s.base.now) s i free (
                d,
                of_delivery s.base.now,
                Known-stable d w.base.db s.base.db k m,
                delivered,
                of_driver s.base.now,
              ),
            )
          ]

store_rating_lem :
    (d : Delivery) (rater : Rater) (score : ℕ) (comment : Option Text) (w : RatingServer)
    → d.status ≡ DeliveryStatus.delivered
    → Known d w.base.db
    → Keeps (store_rating d rater score comment) w
unfolding store_rating or_throw ◌>>=◌
store_rating_lem d rater score comment w delivered k = given d.driver_id refl
  where
    given :
        (o : Option ℕ)
        → d.driver_id ≡ o
        → Keeps {A = RatingReply}
            (or_throw upstream_failure o >>= λ driver_id.
              create_rating (new_rating d rater score comment driver_id) >>= λ saved.
              ret (record { rating = view saved; created = true }))
            w
    given none e = Secures.at_end tt
    given (some driver_id) e =
        Secures-bind (λ _ _. Unit)
          (create_rating_lem d driver_id (new_rating d rater score comment driver_id) w (λ at. refl)
            (λ at. e) delivered k)
          (λ saved t _. Secures.at_end tt)

eligible-delivered :
    (d : Delivery) (now : ℕ)
    → is_ineligible (ineligibility d now) ≡ false
    → d.status ≡ DeliveryStatus.delivered
unfolding ineligibility
eligible-delivered d now h =
    elim (Bool-cases (same DeliveryStatus-discrete d.status DeliveryStatus.delivered)) [
      | inl is ↦ same-eq DeliveryStatus-discrete d.status DeliveryStatus.delivered is
      | inr is_not ↦ absurd (cc (rw is_not at h))
    ]

rate_anew_lem :
    (d : Delivery) (rater : Rater) (score : ℕ) (comment : Option Text) (now : ℕ) (w : RatingServer)
    → Known d w.base.db
    → Keeps (rate_anew d rater score comment now) w
unfolding rate_anew
rate_anew_lem d rater score comment now w k =
    Secures-checked (is_ineligible (ineligibility d now)) rating_not_allowed (λ eligible.
      Secures-catch (Returns (λ _ _. Unit))
        (store_rating_lem d rater score comment w (eligible-delivered d now eligible) k)
        (λ _ t h. h) (λ e t _. harmless t (after_failed-Reads d.id score comment e)))

pub rate_lem :
    (id : ℕ) (rater : Rater) (score : ℕ) (comment : Option Text) (now : ℕ) (w : RatingServer)
    → Keeps (rate id rater score comment now) w
unfolding rate
rate_lem id rater score comment now w =
    Secures-bind (λ d s. Known d s.base.db) (find_delivery_lem id w)
      (λ d t k.
        Secures-bind (λ _ s. Known d s.base.db)
          (unchanged d t (assert_order_customer-Reads d rater) k)
          (λ _ u k'.
            Secures-bind (λ _ s. Known d s.base.db) (unchanged d u (gets-Reads _) k')
              (λ existing v k''. replayed d existing v k'')))
  where
    replayed :
        (d : Delivery) (o : Option DeliveryRating) (v : RatingServer)
        → Known d v.base.db
        → Keeps (replay_or_rate d rater score (comment_of comment) now o) v
    replayed d (some existing) v k = harmless v (replay-Reads existing score (comment_of comment))
    replayed d none v k = rate_anew_lem d rater score (comment_of comment) now v k

get_rating_status-Reads :
    (d : Delivery) (reader : Rater)
    → Reads (
        if same UserRole-discrete reader.role UserRole.admin
        then ret tt
        else assert_order_customer d reader)
get_rating_status-Reads d reader =
    Guarantees-if (same UserRole-discrete reader.role UserRole.admin) (λ _. at_end _)
      (λ _. assert_order_customer-Reads d reader)

pub get_rating_status_lem :
    (id : ℕ) (reader : Rater) (now : ℕ) (w : RatingServer)
    → Keeps (get_rating_status id reader now) w
unfolding get_rating_status
get_rating_status_lem id reader now w =
    Secures-bind (λ d s. Known d s.base.db) (find_delivery_lem id w)
      (λ d t k.
        Secures-bind (λ _ _. Unit) (harmless t (get_rating_status-Reads d reader))
          (λ _ u _.
            Secures-bind (λ _ _. Unit) (harmless u (gets-Reads _))
              (λ existing v _. Secures.at_end tt)))

pub summary-Reads : (auth : ℕ) → Reads (get_summary_for_driver auth)
unfolding get_summary_for_driver
summary-Reads auth = Guarantees-bind (request-Reads _) (λ driver. given driver)
  where
    given :
        (o : Option DriverDto)
        → Reads {A = DriverRatingSummaryDto} (elim o [
          | none ↦ ret (record { average = none; count = 0; comments = [] })
          | some profile ↦ summary_for profile.id
        ])
    given none = at_end _
    given (some profile) =
        Guarantees-bind (gets-Reads _)
          (λ summary. Guarantees-bind (gets-Reads _) (λ recent. at_end _))
