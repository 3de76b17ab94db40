-- ===== src/Deliveries/Ratings/Tests.antt =====
-- Two ratings of one delivery at once, among changes of the rest of the service.
use delivery_plus.Prelude.{ℕ, ◌+◌, ◌≡◌, ◌≤◌, refl, none, some, List, [], ◌∷◌, arith, All}
use delivery_plus.Shared.Enums.{
  UserRole, UserRole-discrete, DeliveryStatus, DeliveryStatus-discrete,
}
use delivery_plus.Shared.Errors.{Error-discrete}
use delivery_plus.Shared.Table.{find_row}
use delivery_plus.Shared.Text.{text}
use delivery_plus.Proc.{combinators}
use delivery_plus.Proc.Pool.{Pick, arrives, runs, elsewhere, serve}
use delivery_plus.Deliveries.Store.{Delivery}
use delivery_plus.Deliveries.Tests.{a_delivery, server}
use delivery_plus.Deliveries.Soundness.{Advances-refl}
use delivery_plus.Deliveries.Ratings.{
  RatingServer, Rater, find_by_delivery_id, add_to_summary, create_rating, ineligibility,
  find_delivery, assert_order_customer, store_rating, after_failed_rating, replay_or_conflict,
  rate_anew, rate, get_rating_status, get_summary_for_driver,
}
use delivery_plus.Deliveries.Ratings.Summary.{count_of, count_in, sum_of, sum_in, count_rated}
use delivery_plus.Deliveries.Ratings.Handlers.{IsRated}
use delivery_plus.Deliveries.Ratings.Earned.{
  RatingRequest, rates, reads_status, reads_summary, handle_rating, IsBaseMove, IsOfDelivered,
  ratings_add_up, ratings_are_earned,
}

abbrev delivered : Delivery
delivered = record a_delivery { status = DeliveryStatus.delivered; delivered_at = some 100 }

abbrev rated_server : RatingServer
rated_server = record {
  base = record server { db = record server.db { deliveries = delivered ∷ [] } };
  ratings = [];
  summaries = record { driver_id = 9; rating_count = 0; rating_sum = 0 } ∷ [];
}

abbrev customer : Rater
customer = record { user_id = 3; role = UserRole.customer }

abbrev later : RatingServer → RatingServer
later s = record s { base = record s.base { now = s.base.now + 1 } }

abbrev picks : List (Pick RatingServer RatingRequest)
picks =
    arrives (rates 0 customer 5 (some (text "quick")) 200)
    ∷ arrives (rates 0 customer 4 none 200)
    ∷ arrives (reads_status 0 customer 210)
    ∷ arrives (reads_summary 5)
    ∷ runs 0
    ∷ runs 1
    ∷ runs 0
    ∷ runs 1
    ∷ elsewhere later
    ∷ runs 0
    ∷ runs 1
    ∷ runs 1
    ∷ runs 2
    ∷ runs 3
    ∷ []

later-IsBaseMove : IsBaseMove later
later-IsBaseMove = record {
  same_ratings = λ s. refl;
  same_summaries = λ s. refl;
  advances = λ s. Advances-refl s.base.db;
}

count_in_empty : (driver_id : ℕ) → count_in driver_id rated_server.summaries ≡ 0
count_in_empty driver_id = ground arith

sum_in_empty : (driver_id : ℕ) → sum_in driver_id rated_server.summaries ≡ 0
sum_in_empty driver_id = ground arith

rated_server-IsRated : IsRated rated_server
rated_server-IsRated = record {
  counts = count_in_empty;
  sums = sum_in_empty;
  one_per_delivery = tt;
  earned = tt;
}

ratings_add_up_example :
    (count_in 4 (serve handle_rating picks ([], rated_server)).1.summaries
      ≡ count_of 4 (serve handle_rating picks ([], rated_server)).1.ratings)
    × (sum_in 4 (serve handle_rating picks ([], rated_server)).1.summaries
        ≡ sum_of 4 (serve handle_rating picks ([], rated_server)).1.ratings)
ratings_add_up_example =
    ratings_add_up picks rated_server (later-IsBaseMove, tt) rated_server-IsRated 4

ratings_are_earned_example :
    All
      (λ r. IsOfDelivered r (serve handle_rating picks ([], rated_server)).1)
      (serve handle_rating picks ([], rated_server)).1.ratings
    × ((delivery_id : ℕ)
        → count_rated delivery_id (serve handle_rating picks ([], rated_server)).1.ratings ≤ 1)
ratings_are_earned_example =
    ratings_are_earned picks rated_server (later-IsBaseMove, tt) rated_server-IsRated

one_rating_is_stored : sum_in 4 (serve handle_rating picks ([], rated_server)).1.summaries ≡ 5
unfolding serve handle_rating combinators rate rate_anew find_delivery find_row
    assert_order_customer find_by_delivery_id ineligibility store_rating create_rating
    add_to_summary after_failed_rating replay_or_conflict get_rating_status get_summary_for_driver
    Error-discrete UserRole-discrete DeliveryStatus-discrete
one_rating_is_stored = refl
