-- ===== src/Orders/Summary.antt =====
-- A restaurant's numbers of the day (repositories/orders.repository.ts, `todaySummary`). The amounts
-- are summed in piasters; an amount that cannot be read, which the column does not hold, counts as 0.
use delivery_plus.Prelude.{
  ℕ, suc, ◌+◌, ◌≡◌, Bool, not, ◌&&◌, none, some, List, [], ◌∷◌, ◌==◌, same, includes, if◌then◌else◌,
  arith, length,
}
use delivery_plus.Shared.Enums.{OrderStatus, OrderStatus-discrete}
use delivery_plus.Shared.Text.{Text}
use delivery_plus.Proc.{gets, ◌>>◌}
use delivery_plus.Orders.Pricing.{decimal, hundredths}
use delivery_plus.Orders.Store.{Order}
use delivery_plus.Orders.Server.{Handler, assert_ownership}

pub record TodaySummary : Type 0 where
  pub orders : ℕ
  pub active : ℕ
  pub delivered : ℕ
  pub cancelled : ℕ
  pub revenue : Text

-- The rows of the WHERE clause.
unfoldable pub todays : ℕ → ℕ → List Order → List Order
todays restaurant_id today [] = []
todays restaurant_id today (o ∷ orders) =
    let rest = todays restaurant_id today orders in
    if o.restaurant_id == restaurant_id && o.created_day == today then o ∷ rest else rest

-- COUNT(*) FILTER (WHERE …)
unfoldable pub count : (OrderStatus → Bool) → List Order → ℕ
count p [] = 0
count p (o ∷ orders) = if p o.status then suc (count p orders) else count p orders

abbrev pub is_ended : OrderStatus → Bool
is_ended s = includes OrderStatus-discrete s (OrderStatus.cancelled ∷ OrderStatus.failed ∷ [])

-- COALESCE("subtotalAmount", "totalAmount")
abbrev pub piasters_of : Order → ℕ
piasters_of o = elim (hundredths (elim o.subtotal_amount [ none ↦ o.total_amount | some t ↦ t ])) [
  | none ↦ 0
  | some p ↦ p
]

unfoldable pub revenue_of : List Order → ℕ
revenue_of [] = 0
revenue_of (o ∷ orders) =
    if is_ended o.status then revenue_of orders else piasters_of o + revenue_of orders

unfoldable pub summarise : ℕ → ℕ → List Order → TodaySummary
summarise restaurant_id today orders =
    let rows = todays restaurant_id today orders in
    record {
      orders = length rows;
      active =
          count
            (λ s. not (
              includes OrderStatus-discrete s
                (OrderStatus.delivered ∷ OrderStatus.cancelled ∷ OrderStatus.failed ∷ [])))
            rows;
      delivered = count (λ s. same OrderStatus-discrete s OrderStatus.delivered) rows;
      cancelled = count is_ended rows;
      revenue = decimal (revenue_of rows);
    }

unfoldable pub today_summary : ℕ → ℕ → Handler TodaySummary
today_summary restaurant_id requester = do
  assert_ownership restaurant_id requester
  gets (λ s. summarise restaurant_id s.db.today s.db.orders)

one_more :
    (s : OrderStatus) (a b c n : ℕ)
    → a + b + c ≡ n
    → (if not (
            includes OrderStatus-discrete s
              (OrderStatus.delivered ∷ OrderStatus.cancelled ∷ OrderStatus.failed ∷ []))
          then suc a
          else a)
        + (if same OrderStatus-discrete s OrderStatus.delivered then suc b else b)
        + (if is_ended s then suc c else c)
      ≡ suc n
unfolding OrderStatus-discrete
one_more OrderStatus.delivered a b c n h = omega arith
one_more OrderStatus.cancelled a b c n h = omega arith
one_more OrderStatus.failed a b c n h = omega arith
one_more s a b c n h = omega arith

parts :
    (rows : List Order)
    → count
          (λ s. not (
            includes OrderStatus-discrete s
              (OrderStatus.delivered ∷ OrderStatus.cancelled ∷ OrderStatus.failed ∷ [])))
          rows
        + count (λ s. same OrderStatus-discrete s OrderStatus.delivered) rows
        + count is_ended rows
      ≡ length rows
unfolding count
parts [] = omega arith
parts (o ∷ rows) = one_more o.status _ _ _ _ (parts rows)

-- Every order of the day is active, delivered or cancelled, and only one of them: the three counts of
-- the summary add up to the number of orders.
pub summary_adds_up :
    (restaurant_id today : ℕ) (orders : List Order)
    → let summary = summarise restaurant_id today orders in
      summary.active + summary.delivered + summary.cancelled ≡ summary.orders
unfolding summarise
summary_adds_up restaurant_id today orders = parts (todays restaurant_id today orders)
