-- ===== src/Deliveries/Ratings/Earned.antt =====
-- Ratings among each other and among the moves of deliveries.
use delivery_plus.Prelude.{
  ℕ, ◌≤◌, ◌≡◌, refl, sym, subst, ◌∙◌, true, Option, some, List, [], ◌∷◌, All, All-mono,
}
use delivery_plus.Shared.Enums.{DeliveryStatus}
use delivery_plus.Shared.Text.{Text}
use delivery_plus.Proc.{ret, ◌>>◌}
use delivery_plus.Proc.Secures.{Secures, Returns, Secures-bind}
use delivery_plus.Proc.Pool.{Pick, arrives, runs, elsewhere, serve, IsCooperative, serve-InCourse}
use delivery_plus.Deliveries.Store.{Delivery, find_by_id, is_finished}
use delivery_plus.Deliveries.Evolution.{path-finished}
use delivery_plus.Deliveries.Soundness.{Known-stable}
use delivery_plus.Deliveries.Ratings.{
  DeliveryRating, RatingServer, RatingHandler, Rater, rate, get_rating_status,
  get_summary_for_driver,
}
use delivery_plus.Deliveries.Ratings.Summary.{
  count_of, sum_of, count_in, sum_in, count_rated, OnePerDelivery, count_rated-once,
}
use delivery_plus.Deliveries.Ratings.Handlers.{
  IsEarned, IsRated, BaseMoves, BaseMoves-refl, BaseMoves-trans, Keeps, harmless, rate_lem,
  get_rating_status_lem, summary-Reads,
}

-- The routes of ratings.
pub data RatingRequest : Type 0 where
  rates : (id : ℕ) → Rater → (score : ℕ) → (comment : Option Text) → (now : ℕ) → RatingRequest
  reads_status : (id : ℕ) → Rater → (now : ℕ) → RatingRequest
  reads_summary : (auth : ℕ) → RatingRequest

unfoldable pub handle_rating : RatingRequest → RatingHandler (Unit {0})
handle_rating (rates id rater score comment now) = rate id rater score comment now >> ret tt
handle_rating (reads_status id reader now) = get_rating_status id reader now >> ret tt
handle_rating (reads_summary auth) = get_summary_for_driver auth >> ret tt

handle_rating_lem : (q : RatingRequest) (w : RatingServer) → Keeps (handle_rating q) w
unfolding handle_rating
handle_rating_lem (rates id rater score comment now) w =
    Secures-bind (λ _ _. Unit) (rate_lem id rater score comment now w) (λ _ t _. Secures.at_end tt)
handle_rating_lem (reads_status id reader now) w =
    Secures-bind (λ _ _. Unit) (get_rating_status_lem id reader now w) (λ _ t _. Secures.at_end tt)
handle_rating_lem (reads_summary auth) w =
    Secures-bind (λ _ _. Unit) (harmless w (summary-Reads auth)) (λ _ t _. Secures.at_end tt)

-- What the rest of the service does: the ratings are as they were, and deliveries move as its own
-- theorems say.
pub record IsBaseMove (f : RatingServer → RatingServer) : Type 0 where
  pub same_ratings : (s : RatingServer) → s.ratings ≡ (f s).ratings
  pub same_summaries : (s : RatingServer) → s.summaries ≡ (f s).summaries
  pub advances : (s : RatingServer) → BaseMoves s (f s)

abbrev pub AreBaseMoves : List (Pick RatingServer RatingRequest) → Type 0
AreBaseMoves [] = Unit
AreBaseMoves (elsewhere f ∷ picks) = IsBaseMove f × AreBaseMoves picks
AreBaseMoves (_ ∷ picks) = AreBaseMoves picks

base_move-IsRated :
    (f : RatingServer → RatingServer) (s : RatingServer) → IsBaseMove f → IsRated s → IsRated (f s)
base_move-IsRated f s b i = record {
  counts = λ driver_id.
      subst (λ x. count_in driver_id x ≡ count_of driver_id (f s).ratings) (b.same_summaries s)
        (subst (λ x. count_in driver_id s.summaries ≡ count_of driver_id x) (b.same_ratings s)
          (i.counts driver_id));
  sums = λ driver_id.
      subst (λ x. sum_in driver_id x ≡ sum_of driver_id (f s).ratings) (b.same_summaries s)
        (subst (λ x. sum_in driver_id s.summaries ≡ sum_of driver_id x) (b.same_ratings s)
          (i.sums driver_id));
  one_per_delivery = subst OnePerDelivery (b.same_ratings s) (i.one_per_delivery);
  earned = subst (All (λ r. IsEarned r (f s))) (b.same_ratings s) (
      All-mono _ _ s.ratings
        (λ r e. (e.0, e.1, Known-stable e.0 s.base.db (f s).base.db (e.2) (b.advances s), e.3, e.4))
        (i.earned));
}

cooperative :
    (picks : List (Pick RatingServer RatingRequest))
    → AreBaseMoves picks
    → All (IsCooperative BaseMoves IsRated) picks
cooperative [] h = tt
cooperative (arrives q ∷ picks) h = (tt, cooperative picks h)
cooperative (runs n ∷ picks) h = (tt, cooperative picks h)
cooperative (elsewhere f ∷ picks) (b, h) =
    (λ s i. (b.advances s, base_move-IsRated f s b i), cooperative picks h)

-- The delivery of the rating is delivered, by the driver who is rated.
abbrev pub IsOfDelivered : DeliveryRating → RatingServer → Type 0
IsOfDelivered r s =
    (d : Delivery) × (find_by_id r.delivery_id s.base.db.deliveries ≡ some d)
    × (d.status ≡ DeliveryStatus.delivered)
    × (d.driver_id ≡ some r.driver_id)

earned-IsOfDelivered : (r : DeliveryRating) (s : RatingServer) → IsEarned r s → IsOfDelivered r s
earned-IsOfDelivered r s (d, same_id, (e, found, ev), delivered, driver) = (
  e,
  subst (λ i. find_by_id i s.base.db.deliveries ≡ some e) same_id found,
  sym (path-finished (ev.path) (subst (λ x. is_finished x ≡ true) (sym delivered) refl))
      ∙ delivered,
  ev.keeps_driver r.driver_id driver,
)

module _ (picks : List (Pick RatingServer RatingRequest)) (s : RatingServer)
    (others : AreBaseMoves picks) (rated : IsRated s) where
  abbrev pub rated_end : RatingServer
  rated_end = (serve handle_rating picks ([], s)).1

  IsRated-served : IsRated rated_end
  IsRated-served =
      (serve-InCourse BaseMoves IsRated (λ q. Returns (λ _ _. Unit)) BaseMoves-refl BaseMoves-trans
        handle_rating handle_rating_lem picks [] s (cooperative picks others) rated tt).1

  -- From ratings and summaries that agree, whatever rating requests are served, and however their steps interleave with each other and with
  -- the rest of the service, the summary of each driver has the number and the sum of the scores of
  -- the ratings of that driver: none is missed, and none counts twice.
  pub ratings_add_up :
      (driver_id : ℕ)
      → (count_in driver_id rated_end.summaries ≡ count_of driver_id rated_end.ratings)
        × (sum_in driver_id rated_end.summaries ≡ sum_of driver_id rated_end.ratings)
  ratings_add_up driver_id = (IsRated-served.counts driver_id, IsRated-served.sums driver_id)

  -- From ratings that are earned and summaries that agree, whatever rating requests are served while
  -- deliveries advance as the rest of the service moves them, each rating is of a delivery in the table that is DELIVERED, and
  -- of its driver; and no delivery has two ratings.
  pub ratings_are_earned :
      All (λ r. IsOfDelivered r rated_end) rated_end.ratings
      × ((delivery_id : ℕ) → count_rated delivery_id rated_end.ratings ≤ 1)
  ratings_are_earned = (
    All-mono _ _ rated_end.ratings (λ r e. earned-IsOfDelivered r rated_end e)
        (IsRated-served.earned),
    λ delivery_id. count_rated-once delivery_id rated_end.ratings (IsRated-served.one_per_delivery),
  )
