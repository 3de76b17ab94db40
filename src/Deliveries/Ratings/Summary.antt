-- ===== src/Deliveries/Ratings/Summary.antt =====
-- The running count and sum of a driver against the ratings that they stand for.
use delivery_plus.Prelude.{
  ℕ, suc, subst, ◌+◌, ◌≤◌, ◌≡◌, refl, false, List, [], ◌∷◌, ◌==◌, ==_iff, if◌then◌else◌, arith,
  Bool-cases, inl, inr,
}
use delivery_plus.Deliveries.Ratings.{
  DeliveryRating, DriverRatingSummary, find_by_delivery_id, add_to_summary, is_rated,
}

-- What the ratings of a driver come to.
abbrev pub count_of : ℕ → List DeliveryRating → ℕ
count_of driver_id [] = 0
count_of driver_id (r ∷ ratings) =
    let rest = count_of driver_id ratings in if r.driver_id == driver_id then suc rest else rest

abbrev pub sum_of : ℕ → List DeliveryRating → ℕ
sum_of driver_id [] = 0
sum_of driver_id (r ∷ ratings) =
    let rest = sum_of driver_id ratings in if r.driver_id == driver_id then rest + r.score else rest

-- What the summaries say of a driver; nothing where there is none.
abbrev pub count_in : ℕ → List DriverRatingSummary → ℕ
count_in driver_id [] = 0
count_in driver_id (s ∷ summaries) =
    if s.driver_id == driver_id then s.rating_count else count_in driver_id summaries

abbrev pub sum_in : ℕ → List DriverRatingSummary → ℕ
sum_in driver_id [] = 0
sum_in driver_id (s ∷ summaries) =
    if s.driver_id == driver_id then s.rating_sum else sum_in driver_id summaries

pub count_in-add_to_summary :
    (driver_id other score : ℕ) (summaries : List DriverRatingSummary)
    → count_in other (add_to_summary driver_id score summaries)
      ≡ (if driver_id == other then suc (count_in other summaries) else count_in other summaries)
unfolding add_to_summary
count_in-add_to_summary driver_id other score [] = refl
count_in-add_to_summary driver_id other score (s ∷ summaries) =
    let rest = count_in-add_to_summary driver_id other score summaries in
    ground
      (arith, rest, ==_iff s.driver_id driver_id, ==_iff s.driver_id other, ==_iff driver_id other)

pub sum_in-add_to_summary :
    (driver_id other score : ℕ) (summaries : List DriverRatingSummary)
    → sum_in other (add_to_summary driver_id score summaries)
      ≡ (if driver_id == other then sum_in other summaries + score else sum_in other summaries)
unfolding add_to_summary
sum_in-add_to_summary driver_id other score [] = ground arith
sum_in-add_to_summary driver_id other score (s ∷ summaries) =
    let rest = sum_in-add_to_summary driver_id other score summaries in
    ground
      (arith, rest, ==_iff s.driver_id driver_id, ==_iff s.driver_id other, ==_iff driver_id other)

abbrev pub count_rated : ℕ → List DeliveryRating → ℕ
count_rated delivery_id [] = 0
count_rated delivery_id (r ∷ ratings) =
    let rest = count_rated delivery_id ratings in
    if r.delivery_id == delivery_id then suc rest else rest

abbrev pub OnePerDelivery : List DeliveryRating → Type 0
OnePerDelivery [] = Unit
OnePerDelivery (r ∷ ratings) =
    (is_rated (find_by_delivery_id r.delivery_id ratings) ≡ false) × OnePerDelivery ratings

unrated-count_rated :
    (delivery_id : ℕ) (ratings : List DeliveryRating)
    → is_rated (find_by_delivery_id delivery_id ratings) ≡ false
    → count_rated delivery_id ratings ≡ 0
unfolding find_by_delivery_id
unrated-count_rated delivery_id [] h = refl
unrated-count_rated delivery_id (r ∷ ratings) h = elim (Bool-cases (r.delivery_id == delivery_id)) [
  | inl mine ↦ absurd (cc (rw mine at h))
  | inr other ↦ rw other (unrated-count_rated delivery_id ratings (rw other at h))
]

pub count_rated-once :
    (delivery_id : ℕ) (ratings : List DeliveryRating)
    → OnePerDelivery ratings
    → count_rated delivery_id ratings ≤ 1
count_rated-once delivery_id [] h = omega arith
count_rated-once delivery_id (r ∷ ratings) (h, hs) =
    elim (Bool-cases (r.delivery_id == delivery_id)) [
      | inl mine ↦
          let none_left : count_rated delivery_id ratings ≡ 0 =
            subst (λ i. count_rated i ratings ≡ 0) ((==_iff r.delivery_id delivery_id).0 mine)
              (unrated-count_rated r.delivery_id ratings h) in
          rw mine (omega arith)
      | inr other ↦ rw other (count_rated-once delivery_id ratings hs)
    ]
