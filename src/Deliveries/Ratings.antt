-- ===== src/Deliveries/Ratings.antt =====
-- Ratings of drivers (services/ratings.service.ts, repositories/ratings.repository.ts,
-- entities/delivery-rating.entity.ts, entities/driver-rating-summary.entity.ts). The newest rating is
-- first. A score is what the request was validated for, 1 to 5.
pub mod Summary
pub mod Handlers
pub mod Earned
pub mod Tests
use delivery_plus.Prelude.{
  ℕ, suc, ◌+◌, ◌*◌, ◌/◌, Bool, true, false, not, ◌&&◌, ◌||◌, Option, none, some, List, [], ◌∷◌,
  ◌==◌, ltb, same, take, if◌then◌else◌,
}
use delivery_plus.Shared.Enums.{
  UserRole, UserRole-discrete, DeliveryStatus, DeliveryStatus-discrete,
}
use delivery_plus.Shared.Errors.{
  Error, Error-discrete, forbidden, not_found, conflict, unique_violation, upstream_failure,
  rating_not_allowed,
}
use delivery_plus.Shared.Text.{Text, is_truthy}
use delivery_plus.Proc.{
  Proc, act, done, Result, ok, err, ret, throw, gets, request, or_throw, catch, ◌>>=◌, ◌>>◌,
  throw_if,
}
use delivery_plus.Deliveries.Store.{Delivery, find_by_id, is_assigned}
use delivery_plus.Deliveries.Dispatch.{Server}

pub record DeliveryRating : Type 0 where
  pub delivery_id : ℕ
  pub driver_id : ℕ
  pub customer_id : ℕ
  pub score : ℕ
  pub comment : Option Text
  pub created_at : ℕ

pub record DriverRatingSummary : Type 0 where
  pub driver_id : ℕ
  pub rating_count : ℕ
  pub rating_sum : ℕ

-- The tables of ratings beside the rest of the service.
pub record RatingServer : Type 0 where
  pub base : Server
  pub ratings : List DeliveryRating
  pub summaries : List DriverRatingSummary

abbrev pub RatingHandler : Type 0 → Type 0
RatingHandler A = Proc RatingServer A

unfoldable pub find_by_delivery_id : ℕ → List DeliveryRating → Option DeliveryRating
find_by_delivery_id delivery_id [] = none
find_by_delivery_id delivery_id (r ∷ ratings) =
    if r.delivery_id == delivery_id then some r else find_by_delivery_id delivery_id ratings

-- INSERT … ON CONFLICT ("driverId") DO UPDATE: one more rating, and its score.
unfoldable pub add_to_summary : ℕ → ℕ → List DriverRatingSummary → List DriverRatingSummary
add_to_summary driver_id score [] =
    record { driver_id = driver_id; rating_count = 1; rating_sum = score } ∷ []
add_to_summary driver_id score (s ∷ summaries) =
    let rest = add_to_summary driver_id score summaries in
    if s.driver_id == driver_id
    then record s { rating_count = s.rating_count + 1; rating_sum = s.rating_sum + score }
      ∷ summaries
    else s ∷ rest

abbrev pub is_rated : Option DeliveryRating → Bool
is_rated none = false
is_rated (some r) = true

abbrev pub stored : DeliveryRating → RatingServer → RatingServer
stored r s = record s {
  ratings = r ∷ s.ratings;
  summaries = add_to_summary r.driver_id r.score s.summaries;
}

-- The rating and the summary in one transaction. It fails on the unique index over deliveries.
unfoldable pub create_rating : (ℕ → DeliveryRating) → RatingHandler DeliveryRating
create_rating rating =
    act
      (λ s.
        if is_rated (find_by_delivery_id (rating s.base.now).delivery_id s.ratings)
        then s
        else stored (rating s.base.now) s)
      (λ s.
        if is_rated (find_by_delivery_id (rating s.base.now).delivery_id s.ratings)
        then throw unique_violation
        else ret (rating s.base.now))

pub record Rater : Type 0 where
  pub user_id : ℕ
  pub role : UserRole

pub record RatingDto : Type 0 where
  pub score : ℕ
  pub comment : Option Text
  pub created_at : ℕ

abbrev pub view : DeliveryRating → RatingDto
view r = record { score = r.score; comment = r.comment; created_at = r.created_at }

-- The answer to a rating, and whether this request stored it.
pub record RatingReply : Type 0 where
  pub rating : RatingDto
  pub created : Bool

abbrev pub rating_window_ms : ℕ
rating_window_ms = 14 * 24 * 60 * 60 * 1000

abbrev pub delivered_at_of : Delivery → Option ℕ
delivered_at_of d =
    if not (same DeliveryStatus-discrete d.status DeliveryStatus.delivered)
    then none
    else elim d.delivered_at [ none ↦ some d.updated_at | some at ↦ some at ]

pub data Ineligibility : Type 0 where
  not_delivered window_closed : Ineligibility

unfoldable pub ineligibility : Delivery → ℕ → Option Ineligibility
ineligibility d now =
    if not (same DeliveryStatus-discrete d.status DeliveryStatus.delivered) || not (is_assigned d)
    then some not_delivered
    else elim (delivered_at_of d) [
      | none ↦ none
      | some at ↦ if ltb (at + rating_window_ms) now then some window_closed else none
    ]

abbrev pub is_ineligible : Option Ineligibility → Bool
is_ineligible none = false
is_ineligible (some reason) = true

abbrev pub same_text : Text → Text → Bool
same_text [] [] = true
same_text (c ∷ t) (d ∷ u) = (c == d) && same_text t u
same_text _ _ = false

abbrev pub same_comment : Option Text → Option Text → Bool
same_comment none none = true
same_comment (some t) (some u) = same_text t u
same_comment _ _ = false

-- `dto.comment ? dto.comment : null`
abbrev pub comment_of : Option Text → Option Text
comment_of none = none
comment_of (some t) = if is_truthy t then some t else none

unfoldable pub replay_or_conflict : DeliveryRating → ℕ → Option Text → RatingHandler RatingReply
replay_or_conflict existing score comment =
    if (existing.score == score) && same_comment existing.comment comment
    then ret (record { rating = view existing; created = false })
    else throw conflict

unfoldable pub find_delivery : ℕ → RatingHandler Delivery
find_delivery id = do d ← gets (λ s. find_by_id id s.base.db.deliveries); or_throw not_found d

abbrev pub is_user : ℕ → Option ℕ → Bool
is_user user_id none = false
is_user user_id (some customer_id) = customer_id == user_id

abbrev pub customer_of : Delivery → RatingHandler (Option ℕ)
customer_of d = elim d.customer_id [
  | none ↦ request (λ s. s.base.world.order_seen d.order_id) >>= λ order. ret order.customer_id
  | some customer_id ↦ ret (some customer_id)
]

unfoldable pub assert_order_customer : Delivery → Rater → RatingHandler (Unit {0})
assert_order_customer d rater = do
  throw_if (not (same UserRole-discrete rater.role UserRole.customer)) forbidden
  customer ← customer_of d
  throw_if (not (is_user rater.user_id customer)) forbidden

abbrev pub new_rating : Delivery → Rater → ℕ → Option Text → ℕ → ℕ → DeliveryRating
new_rating d rater score comment driver_id at = record {
  delivery_id = d.id;
  driver_id = driver_id;
  customer_id = rater.user_id;
  score = score;
  comment = comment;
  created_at = at;
}

-- The driver of a delivered delivery is never null; a null would fail in the database.
unfoldable pub store_rating : Delivery → Rater → ℕ → Option Text → RatingHandler RatingReply
store_rating d rater score comment = do
  driver_id ← or_throw upstream_failure d.driver_id
  saved ← create_rating (new_rating d rater score comment driver_id)
  ret (record { rating = view saved; created = true })

-- A concurrent request stored a rating first.
unfoldable pub after_failed_rating : ℕ → ℕ → Option Text → Error → RatingHandler RatingReply
after_failed_rating delivery_id score comment e =
    if not (same Error-discrete e unique_violation) then throw e else (do
      found ← gets (λ s. find_by_delivery_id delivery_id s.ratings)
      winner ← or_throw e found
      replay_or_conflict winner score comment)

unfoldable pub rate_anew : Delivery → Rater → ℕ → Option Text → ℕ → RatingHandler RatingReply
rate_anew d rater score comment now = do
  throw_if (is_ineligible (ineligibility d now)) rating_not_allowed
  catch (after_failed_rating d.id score comment) (store_rating d rater score comment)

abbrev pub replay_or_rate :
    Delivery → Rater → ℕ → Option Text → ℕ → Option DeliveryRating → RatingHandler RatingReply
replay_or_rate d rater score comment now (some existing) = replay_or_conflict existing score comment
replay_or_rate d rater score comment now none = rate_anew d rater score comment now

unfoldable pub rate : ℕ → Rater → ℕ → Option Text → ℕ → RatingHandler RatingReply
rate delivery_id rater score comment now = do
  d ← find_delivery delivery_id
  assert_order_customer d rater
  existing ← gets (λ s. find_by_delivery_id d.id s.ratings)
  replay_or_rate d rater score (comment_of comment) now existing

pub data Refusal : Type 0 where
  already_rated : Refusal
  because : Ineligibility → Refusal

pub record DeliveryRatingStatusDto : Type 0 where
  pub rating : Option RatingDto
  pub can_rate : Bool
  pub reason : Option Refusal
  pub closes_at : Option ℕ

abbrev pub closing : Option ℕ → Option ℕ
closing none = none
closing (some at) = some (at + rating_window_ms)

abbrev pub because_of : Option Ineligibility → Option Refusal
because_of none = none
because_of (some reason) = some (because reason)

unfoldable pub status_dto : Delivery → ℕ → Option DeliveryRating → DeliveryRatingStatusDto
status_dto d now (some existing) = record {
  rating = some (view existing);
  can_rate = false;
  reason = some already_rated;
  closes_at = closing (delivered_at_of d);
}
status_dto d now none = record {
  rating = none;
  can_rate = not (is_ineligible (ineligibility d now));
  reason = because_of (ineligibility d now);
  closes_at = closing (delivered_at_of d);
}

unfoldable pub get_rating_status : ℕ → Rater → ℕ → RatingHandler DeliveryRatingStatusDto
get_rating_status delivery_id reader now = do
  d ← find_delivery delivery_id
  if same UserRole-discrete reader.role UserRole.admin
      then ret tt
      else assert_order_customer d reader
  existing ← gets (λ s. find_by_delivery_id d.id s.ratings)
  ret (status_dto d now existing)

unfoldable pub find_summary : ℕ → List DriverRatingSummary → Option DriverRatingSummary
find_summary driver_id [] = none
find_summary driver_id (s ∷ summaries) =
    if s.driver_id == driver_id then some s else find_summary driver_id summaries

abbrev pub has_comment : Option Text → Bool
has_comment none = false
has_comment (some t) = is_truthy t

abbrev pub commented : ℕ → List DeliveryRating → List RatingDto
commented driver_id [] = []
commented driver_id (r ∷ ratings) =
    let rest = commented driver_id ratings in
    if (r.driver_id == driver_id) && has_comment r.comment then view r ∷ rest else rest

abbrev pub recent_comments : ℕ
recent_comments = 5

-- The average is in tenths of a star, rounded half up.
pub record DriverRatingSummaryDto : Type 0 where
  pub average : Option ℕ
  pub count : ℕ
  pub comments : List RatingDto

abbrev pub average_of : Option DriverRatingSummary → Option ℕ
average_of none = none
average_of (some s) =
    if s.rating_count == 0
    then none
    else some ((2 * 10 * s.rating_sum + s.rating_count) / (2 * s.rating_count))

abbrev pub count_of_summary : Option DriverRatingSummary → ℕ
count_of_summary none = 0
count_of_summary (some s) = s.rating_count

abbrev pub summary_for : ℕ → RatingHandler DriverRatingSummaryDto
summary_for driver_id = do
  summary ← gets (λ s. find_summary driver_id s.summaries)
  recent ← gets (λ s. take recent_comments (commented driver_id s.ratings))
  ret (record { average = average_of summary; count = count_of_summary summary; comments = recent })

unfoldable pub get_summary_for_driver : ℕ → RatingHandler DriverRatingSummaryDto
get_summary_for_driver auth = do
  driver ← request (λ s. s.base.world.own_profile auth)
  elim driver [
    | none ↦ ret (record { average = none; count = 0; comments = [] })
    | some profile ↦ summary_for profile.id
  ]
