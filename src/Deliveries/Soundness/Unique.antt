-- ===== src/Deliveries/Soundness/Unique.antt =====
-- What sound tables say: a delivery is paid once at most, and an order has one delivery at most.
use mathlib.Core.Option.{some-injective}
use delivery_plus.Prelude.{
  ℕ, suc, ◌≤◌, ◌≡◌, refl, sym, subst, ◌∙◌, ap, false, none, some, List, [], ◌∷◌, ◌==◌, ==_iff, same,
  same-ne, if◌then◌else◌, arith, All, Bool-cases, inl, inr,
}
use delivery_plus.Shared.Table.{find_row}
use delivery_plus.Deliveries.Store.{
  Delivery, Database, DriverLedgerEntry, LedgerEntryType, LedgerEntryType-discrete, find_by_id,
  find_by_order_id, is_paid,
}
use delivery_plus.Deliveries.Evolution.{ending_of, ending-injective}
use delivery_plus.Deliveries.Soundness.{PaidFor, PaidOnce, OnePerOrder}

-- The number of entries of the delivery.
abbrev pub count_paid : ℕ → List DriverLedgerEntry → ℕ
count_paid id [] = 0
count_paid id (e ∷ ledger) =
    let rest = count_paid id ledger in if e.delivery_id == id then suc rest else rest

same_type :
    (db : Database) (d : Delivery) (id : ℕ) (type : LedgerEntryType) (e : DriverLedgerEntry)
    → find_by_id id db.deliveries ≡ some d
    → ending_of type ≡ some d.status
    → PaidFor e db
    → e.delivery_id ≡ id
    → e.type ≡ type
same_type db d id type e found ended (d', found', _, _, ended') mine =
    let same_row : d' ≡ d =
      some-injective d' d (sym found' ∙ ap (λ i. find_by_id i db.deliveries) mine ∙ found) in
    ending-injective e.type type d.status
      (subst (λ (x : Delivery). ending_of e.type ≡ some x.status) same_row ended') ended

-- Beside an entry of its type, a delivery has no other.
unpaid-count_paid :
    (db : Database) (d : Delivery) (id : ℕ) (type : LedgerEntryType)
    (ledger : List DriverLedgerEntry)
    → find_by_id id db.deliveries ≡ some d
    → ending_of type ≡ some d.status
    → All (λ e. PaidFor e db) ledger
    → is_paid id type ledger ≡ false
    → count_paid id ledger ≡ 0
unfolding is_paid
unpaid-count_paid db d id type [] found ended h unpaid = refl
unpaid-count_paid db d id type (e ∷ ledger) found ended (h, hs) unpaid =
    elim (Bool-cases (e.delivery_id == id)) [
      | inl mine ↦ elim (Bool-cases (same LedgerEntryType-discrete e.type type)) [
        | inl is ↦ absurd (cc (rw (mine, is) at unpaid))
        | inr is_not ↦ absurd (
            same-ne LedgerEntryType-discrete e.type type is_not
              (same_type db d id type e found ended h ((==_iff e.delivery_id id).0 mine)))
      ]
      | inr other ↦
          rw other (unpaid-count_paid db d id type ledger found ended hs (rw other at unpaid))
    ]

pub count_paid-once :
    (db : Database) (id : ℕ) (ledger : List DriverLedgerEntry)
    → All (λ e. PaidFor e db) ledger
    → PaidOnce ledger
    → count_paid id ledger ≤ 1
count_paid-once db id [] h once = omega arith
count_paid-once db id (e ∷ ledger) ((d, found, driver, order, ended), hs) (unpaid, once) =
    elim (Bool-cases (e.delivery_id == id)) [
      | inl mine ↦
          let none_left : count_paid id ledger ≡ 0 =
            subst (λ i. count_paid i ledger ≡ 0) ((==_iff e.delivery_id id).0 mine)
              (unpaid-count_paid db d e.delivery_id e.type ledger found ended hs unpaid) in
          rw mine (omega arith)
      | inr other ↦ rw other (count_paid-once db id ledger hs once)
    ]

-- A row that is found keeps its order from being free.
find_by_order-found :
    (id : ℕ) (deliveries : List Delivery) (d : Delivery)
    → find_by_id id deliveries ≡ some d
    → find_by_order_id d.order_id deliveries ≡ none
    → ⊥
unfolding find_row find_by_order_id
find_by_order-found id [] d found free = cc
find_by_order-found id (x ∷ deliveries) d found free = elim (Bool-cases (x.id == id)) [
  | inl hit ↦
      let same_row : x ≡ d = some-injective x d (rw hit at found) in
      let free' : find_by_order_id x.order_id (x ∷ deliveries) ≡ none =
        subst (λ (y : Delivery). find_by_order_id y.order_id (x ∷ deliveries) ≡ none) (sym same_row)
          free in
      cc (rw ((==_iff x.order_id x.order_id).1 refl) at free')
  | inr miss ↦ find_by_order-found id deliveries d (rw miss at found) (ground arith)
]

pub OnePerOrder-unique :
    (i j : ℕ) (deliveries : List Delivery) (d e : Delivery)
    → OnePerOrder deliveries
    → find_by_id i deliveries ≡ some d
    → find_by_id j deliveries ≡ some e
    → d.order_id ≡ e.order_id
    → i ≡ j
unfolding find_row
OnePerOrder-unique i j [] d e one f g same_order = absurd (cc)
OnePerOrder-unique i j (x ∷ deliveries) d e (h, hs) f g same_order = elim (Bool-cases (x.id == i)) [
  | inl first ↦ elim (Bool-cases (x.id == j)) [
    | inl second ↦ ground (arith, ==_iff x.id i, ==_iff x.id j)
    | inr no_second ↦
        absurd (clash d e j (some-injective x d (rw first at f)) (rw no_second at g) same_order)
  ]
  | inr no_first ↦ elim (Bool-cases (x.id == j)) [
    | inl second ↦
        absurd
          (clash e d i (some-injective x e (rw second at g)) (rw no_first at f) (sym same_order))
    | inr no_second ↦
        OnePerOrder-unique i j deliveries d e hs (rw no_first at f) (rw no_second at g) same_order
  ]
]
  where
    clash :
        (p q : Delivery) (k : ℕ)
        → x ≡ p
        → find_row (λ (r : Delivery). r.id) k deliveries ≡ some q
        → p.order_id ≡ q.order_id
        → ⊥
    clash p q k same_row found same = find_by_order-found k deliveries q found (
        subst (λ o. find_by_order_id o deliveries ≡ none)
          (ap (λ (y : Delivery). y.order_id) same_row ∙ same) h)
