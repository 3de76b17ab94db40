-- ===== src/Payments/Store/Laws.antt =====
-- The payments table after an insert or an update.
use delivery_plus.Prelude.{
  ℕ, ◌<◌, ◌≤◌, ◌≡◌, refl, sym, subst, ◌∙◌, ap, Bool, true, false, Option, none, some, List, [], ◌∷◌,
  ◌==◌, ==_iff, if◌then◌else◌, ◌&&◌, arith, Bool-cases, inl, inr,
}
use mathlib.Core.Option.{some-injective}
use delivery_plus.Payments.Store.{
  Payment, is_active, find_by_id, find_active_by_order, find_by_idempotency_key, has_key,
  update_where,
}

pub find_by_id-id :
    (id : ℕ) (payments : List Payment) (p : Payment) → find_by_id id payments ≡ some p → p.id ≡ id
unfolding find_by_id
find_by_id-id id [] p h = cc
find_by_id-id id (x ∷ payments) p h = ground (arith, find_by_id-id id payments p)

-- A row as an update leaves it.
abbrev pub changed : (Payment → Bool) → (Payment → Payment) → Payment → Payment
changed test change p = if test p then change p else p

abbrev pub changed_row :
    Bool → (Payment → Bool) → (Payment → Payment) → Option Payment → Option Payment
changed_row mine test change none = none
changed_row mine test change (some p) = some (if mine then changed test change p else p)

module _ (id : ℕ) (test : Payment → Bool) (change : Payment → Payment)
    (keeps_id : (p : Payment) → (change p).id ≡ p.id) where
  pub find_by_id-update_where :
      (j : ℕ) (payments : List Payment)
      → find_by_id j (update_where id test change payments).1
        ≡ changed_row (id == j) test change (find_by_id j payments)
  unfolding find_by_id update_where
  find_by_id-update_where j [] = refl
  find_by_id-update_where j (p ∷ payments) =
      ground (arith, keeps_id p, find_by_id-update_where j payments)

  -- Whether a row was affected.
  pub update_where-affected :
      (payments : List Payment)
      → (update_where id test change payments).0 ≡ true
      → (p : Payment) × (find_by_id id payments ≡ some p) × (test p ≡ true)
  unfolding find_by_id update_where
  update_where-affected [] h = absurd (cc)
  update_where-affected (p ∷ payments) h = elim (Bool-cases (p.id == id)) [
    | inl mine ↦ (p, rw mine, ground arith)
    | inr other ↦
        let found = update_where-affected payments (ground arith) in
        (found.0, rw other (found.1), found.2)
  ]

-- Ids fall along the list, and are below the next one.
abbrev pub Below : ℕ → List Payment → Type 0
Below n [] = Unit
Below n (p ∷ payments) = (p.id < n) × Below p.id payments

pub Below-mono : (m n : ℕ) (payments : List Payment) → m ≤ n → Below m payments → Below n payments
Below-mono m n [] h b = tt
Below-mono m n (p ∷ payments) h b = (omega arith, b.1)

pub update_where-Below :
    (id : ℕ) (test : Payment → Bool) (change : Payment → Payment)
    → ((p : Payment) → (change p).id ≡ p.id)
    → (n : ℕ) (payments : List Payment) → Below n payments
    → Below n (update_where id test change payments).1
unfolding update_where
update_where-Below id test change keeps n [] b = tt
update_where-Below id test change keeps n (p ∷ payments) b = elim (Bool-cases (p.id == id)) [
  | inl mine ↦ elim (Bool-cases (test p)) [
    | inl met ↦ rw (mine, met, keeps p) b
    | inr unmet ↦ rw (mine, unmet) b
  ]
  | inr other ↦ rw other (b.0, update_where-Below id test change keeps p.id payments (b.1))
]

pub find_by_id-Below :
    (n id : ℕ) (payments : List Payment) (p : Payment)
    → Below n payments
    → find_by_id id payments ≡ some p
    → id < n
unfolding find_by_id
find_by_id-Below n id [] p b found = absurd (cc)
find_by_id-Below n id (x ∷ payments) p b found =
    ground (arith, find_by_id-Below x.id id payments p (b.1))

-- Who has the key, and where the row is found by its id.
pub find_by_idempotency_key_lem :
    (n customer_id key : ℕ) (payments : List Payment) (p : Payment)
    → Below n payments
    → find_by_idempotency_key customer_id key payments ≡ some p
    → (p.id < n) × (p.customer_id ≡ customer_id) × (find_by_id p.id payments ≡ some p)
unfolding find_by_idempotency_key find_by_id
find_by_idempotency_key_lem n customer_id key [] p b found = absurd (cc)
find_by_idempotency_key_lem n customer_id key (x ∷ payments) p b found =
    elim (Bool-cases (x.customer_id == customer_id && has_key key x)) [
      | inl hit ↦
          subst
            (λ y.
              (y.id < n)
              × (y.customer_id ≡ customer_id)
              × (find_by_id y.id (x ∷ payments) ≡ some y))
            (some-injective x p (rw hit at found))
            (b.0, ground arith, rw ((==_iff x.id x.id).1 refl) refl)
      | inr miss ↦
          let rest =
            find_by_idempotency_key_lem x.id customer_id key payments p (b.1) (rw miss at found) in
          (omega (arith, rest.0, b.0), rest.1, ground (arith, rest.0, rest.2))
    ]

-- At most one payment of an order is active.
abbrev pub OneActive : List Payment → Type 0
OneActive [] = Unit
OneActive (p ∷ payments) =
    (is_active p.status ≡ true → find_active_by_order p.order_id payments ≡ none)
    × OneActive payments

module _ (id : ℕ) (test : Payment → Bool) (change : Payment → Payment)
    (keeps_order : (p : Payment) → (change p).order_id ≡ p.order_id)
    (stays_inactive : (p : Payment)
      → test p ≡ true
      → is_active p.status ≡ false
      → is_active (change p).status ≡ false) where
  find_active-update_where :
      (order_id : ℕ) (payments : List Payment)
      → find_active_by_order order_id payments ≡ none
      → find_active_by_order order_id (update_where id test change payments).1 ≡ none
  unfolding find_active_by_order update_where
  find_active-update_where order_id [] h = refl
  find_active-update_where order_id (p ∷ payments) h =
      ground (arith, keeps_order p, stays_inactive p, find_active-update_where order_id payments)

  pub update_where-OneActive :
      (payments : List Payment)
      → OneActive payments
      → OneActive (update_where id test change payments).1
  unfolding update_where
  update_where-OneActive [] h = tt
  update_where-OneActive (p ∷ payments) (h, hs) = elim (Bool-cases (p.id == id)) [
    | inl mine ↦ elim (Bool-cases (test p)) [
      | inl met ↦ rw (mine, met) (kept met, hs)
      | inr unmet ↦ rw (mine, unmet) (h, hs)
    ]
    | inr other ↦ rw other (
      λ a. find_active-update_where p.order_id payments (h a),
      update_where-OneActive payments hs,
    )
  ]
    where
      kept :
          test p ≡ true
          → is_active (change p).status ≡ true
          → find_active_by_order (change p).order_id payments ≡ none
      kept met a = elim (Bool-cases (is_active p.status)) [
        | inl active ↦ rw (keeps_order p) (h active)
        | inr inactive ↦ absurd (cc (stays_inactive p met inactive))
      ]

-- A row of the order that is active is found by the order.
find_active-found :
    (id : ℕ) (payments : List Payment) (p : Payment)
    → find_by_id id payments ≡ some p
    → is_active p.status ≡ true
    → find_active_by_order p.order_id payments ≡ none
    → ⊥
unfolding find_by_id find_active_by_order
find_active-found id [] p found active empty = cc
find_active-found id (x ∷ payments) p found active empty = elim (Bool-cases (x.id == id)) [
  | inl hit ↦ other (some-injective x p (rw hit at found))
  | inr miss ↦ find_active-found id payments p (rw miss at found) active (ground arith)
]
  where
    hidden : find_active_by_order x.order_id (x ∷ payments) ≡ none → is_active x.status ≡ true → ⊥
    hidden e a = cc (rw ((==_iff x.order_id x.order_id).1 refl, a) at e)

    other : x ≡ p → ⊥
    other same =
        hidden (subst (λ y. find_active_by_order y.order_id (x ∷ payments) ≡ none) (sym same) empty)
          (subst (λ y. is_active y.status ≡ true) (sym same) active)

pub OneActive-unique :
    (i j : ℕ) (payments : List Payment) (p q : Payment)
    → OneActive payments
    → find_by_id i payments ≡ some p
    → find_by_id j payments ≡ some q
    → p.order_id ≡ q.order_id
    → is_active p.status ≡ true
    → is_active q.status ≡ true
    → i ≡ j
unfolding find_by_id
OneActive-unique i j [] p q one f g same a b = absurd (cc)
OneActive-unique i j (x ∷ payments) p q (h, hs) f g same a b = elim (Bool-cases (x.id == i)) [
  | inl first ↦ elim (Bool-cases (x.id == j)) [
    | inl second ↦ ground (arith, ==_iff x.id i, ==_iff x.id j)
    | inr no_second ↦
        absurd (clash p q j (some-injective x p (rw first at f)) (rw no_second at g) same a b)
  ]
  | inr no_first ↦ elim (Bool-cases (x.id == j)) [
    | inl second ↦
        absurd (clash q p i (some-injective x q (rw second at g)) (rw no_first at f) (sym same) b a)
    | inr no_second ↦
        OneActive-unique i j payments p q hs (rw no_first at f) (rw no_second at g) same a b
  ]
]
  where
    clash :
        (y z : Payment) (k : ℕ)
        → x ≡ y
        → find_by_id k payments ≡ some z
        → y.order_id ≡ z.order_id
        → is_active y.status ≡ true
        → is_active z.status ≡ true
        → ⊥
    clash y z k head found order active active' = find_active-found k payments z found active' (
        subst (λ o. find_active_by_order o payments ≡ none) (ap (λ w. w.order_id) head ∙ order)
          (h (subst (λ w. is_active w.status ≡ true) (sym head) active)))
