-- ===== src/Orders/Pricing/Split.antt =====
-- The fee and its split: no piaster is made or lost, and no share exceeds the fee.
use delivery_plus.Prelude.{ℕ, ◌+◌, ◌-◌, ◌*◌, ◌/◌, ◌^◌, ◌<◌, ◌≤◌, ◌≡◌, ap, ◌∙◌, some, arith}
use delivery_plus.Shared.Numbers.{nearest, fraction, times, over, floor}
use delivery_plus.Shared.Numbers.Rounding.{nearest_lem, nearest-ge}
use delivery_plus.Orders.Pricing.{
  PricingPolicy, PricingSnapshot, to_piasters, percent_of, price_order,
}
use delivery_plus.Orders.Pricing.Amounts.{to_piasters-from_piasters, to_piasters_of_number-fraction}

-- What `pricingFromEnv` checks of a policy.
pub record IsValidPolicy (policy : PricingPolicy) : Type 0 where
  pub driver_share : policy.driver_share_percent ≤ 100
  pub driver_cancel : policy.driver_cancel_after_pickup_percent ≤ 100

-- A percentage of an amount below 2^40 is exact, rounded down.
percent_of_lem : (p k : ℕ) → p < 2 ^ 40 → k ≤ 100 → percent_of p k ≡ p * k / 100
unfolding percent_of times over floor
percent_of_lem p k h l =
    let m = p * k in
    let bound : m ≤ 100 * 2 ^ 40 = grind arith in
    ap (λ n. nearest (nearest n 1) 100 / 2 ^ 59) (grind arith) ∙ exact m bound
  where
    exact : (m : ℕ) → m ≤ 100 * 2 ^ 40 → nearest (nearest (m * 2 ^ 59) 1) 100 / 2 ^ 59 ≡ m / 100
    exact m bound =
        let x = nearest (m * 2 ^ 59) 1 in
        let (up, down) = nearest_lem (m * 2 ^ 59) 1 53 (omega arith) (omega (arith, bound)) in
        let ge =
          nearest-ge (m * 2 ^ 59) 1 53 m (omega arith) (omega (arith, bound)) (omega arith)
            (omega arith) in
        let (up', down') = nearest_lem x 100 47 (omega arith) (omega (arith, up, bound)) in
        let ge' =
          nearest-ge x 100 47 (m / 100) (omega arith) (omega (arith, up, bound)) (omega arith)
            (omega (arith, ge)) in
        omega (arith, up, ge, up', ge')

-- The amounts of a snapshot, read back.
pub record IsConserved (subtotal : ℕ) (policy : PricingPolicy) (s : PricingSnapshot) : Type 0 where
  pub driver : ℕ
  pub platform : ℕ
  pub compensation : ℕ
  pub subtotal_read : to_piasters s.subtotal_amount ≡ some subtotal
  pub fee_read : to_piasters s.delivery_fee ≡ some policy.delivery_fee_piasters
  pub total_read : to_piasters s.total_amount ≡ some (subtotal + policy.delivery_fee_piasters)
  pub driver_read : to_piasters s.driver_fee_share ≡ some driver
  pub platform_read : to_piasters s.platform_fee_share ≡ some platform
  pub compensation_read : to_piasters s.driver_cancel_fee_share ≡ some compensation
  pub shares : driver + platform ≡ policy.delivery_fee_piasters
  pub driver_le : driver * 100 ≤ policy.delivery_fee_piasters * policy.driver_share_percent
  pub driver_gt : policy.delivery_fee_piasters * policy.driver_share_percent < driver * 100 + 100
  pub compensation_le :
      compensation * 100 ≤ policy.delivery_fee_piasters * policy.driver_cancel_after_pickup_percent
  pub compensation_gt :
      policy.delivery_fee_piasters * policy.driver_cancel_after_pickup_percent
      < compensation * 100 + 100
  pub compensation_le_fee : compensation ≤ policy.delivery_fee_piasters

share_le : (p k : ℕ) → k ≤ 100 → p * k / 100 ≤ p
share_le p k h = grind arith

-- An order priced in the arithmetic of doubles, under a valid policy, for a subtotal and a fee below
-- 2^40 piasters, conserves its amounts: those written on the order are read back as they were, the
-- total is the items and the fee, the shares of driver and platform make up the fee, the driver's is
-- the driver's percentage of it and the compensation is that of a cancellation after pickup, both
-- rounded down to a whole piaster, and neither exceeds the fee.
pub price_order-IsConserved :
    (subtotal : ℕ) (policy : PricingPolicy)
    → subtotal < 2 ^ 40
    → policy.delivery_fee_piasters < 2 ^ 40
    → IsValidPolicy policy
    → IsConserved subtotal policy (price_order (fraction subtotal 100) policy)
unfolding price_order
price_order-IsConserved subtotal policy small small_fee v =
    let fee = policy.delivery_fee_piasters in
    let share = policy.driver_share_percent in
    let cancel = policy.driver_cancel_after_pickup_percent in
    let driver = fee * share / 100 in
    let compensation = fee * cancel / 100 in
    let driver_le = share_le fee share v.driver_share in
    let compensation_le = share_le fee cancel v.driver_cancel in
    rw
      (
        to_piasters_of_number-fraction subtotal (omega arith),
        percent_of_lem fee share small_fee v.driver_share,
        percent_of_lem fee cancel small_fee v.driver_cancel,
      )
      (record {
        driver = driver;
        platform = fee - driver;
        compensation = compensation;
        subtotal_read = to_piasters-from_piasters subtotal (omega arith);
        fee_read = to_piasters-from_piasters fee (omega arith);
        total_read = to_piasters-from_piasters (subtotal + fee) (omega arith);
        driver_read = to_piasters-from_piasters driver (omega (arith, driver_le));
        platform_read = to_piasters-from_piasters (fee - driver) (omega arith);
        compensation_read = to_piasters-from_piasters compensation (omega (arith, compensation_le));
        shares = omega (arith, driver_le);
        driver_le = omega arith;
        driver_gt = omega arith;
        compensation_le = omega arith;
        compensation_gt = omega arith;
        compensation_le_fee = compensation_le;
      })
