-- ===== src/Shared/Idempotency/Leases.antt =====
-- One consumer at a time holds an event, and a processed event is not handled again.
use delivery_plus.Prelude.{
  ℕ, ◌+◌, ◌<◌, ◌≡◌, ◌≢◌, refl, ◌∙◌, ap, false, Option, none, some, List, [], ◌∷◌, ◌==◌, arith, All,
}
use delivery_plus.Shared.Idempotency.{
  Value, lease, processed, Key, current, set, EventAcquireResult, acquire_given, try_acquire,
  mark_given, mark_processed, release_given, release, Op, acquires, marks, releases, passes,
  perform, perform_all,
}

-- The time that the operations take.
abbrev pub elapsed : List Op → ℕ
elapsed [] = 0
elapsed (passes t ∷ ops) = t + elapsed ops
elapsed (_ ∷ ops) = elapsed ops

abbrev pub later : ℕ → Key → Key
later t k = record k { now = k.now + t }

-- The value does not change under the operation while it is live.
abbrev Holds : Value → ℕ → ℕ → Key
Holds value expires now = record { now = now; entry = some (value, expires) }

-- Operations that leave a lease of the token to its holder: no consumer but the holder marks the event,
-- and the holder does not give it up.
abbrev pub IsByOthers : ℕ → Op → Type 0
IsByOthers token (acquires t ttl) = Unit
IsByOthers token (marks t ttl) = ⊥
IsByOthers token (releases t) = t ≢ token
IsByOthers token (passes t) = Unit

live_before :
    (value : Value) (expires now : ℕ)
    → now < expires
    → current (Holds value expires now) ≡ some value
live_before value expires now l = ground arith

-- What others do at one moment, while the lease is live.
lease_step :
    (token expires now : ℕ) (op : Op)
    → IsByOthers token op
    → now < expires
    → perform op (Holds (lease token) expires now)
      ≡ Holds (lease token) expires (now + elapsed (op ∷ []))
unfolding perform try_acquire release
lease_step token expires now (acquires t ttl) h l =
    ap (λ x. (acquire_given t ttl (Holds (lease token) expires now) x).1)
      (live_before (lease token) expires now l)
    ∙ ap (λ n. Holds (lease token) expires n) (omega arith)
lease_step token expires now (marks t ttl) h l = absurd h
lease_step token expires now (releases t) h l =
    ap (λ x. (release_given t (Holds (lease token) expires now) x).1)
      (live_before (lease token) expires now l)
    ∙ rw (other token t h) (ap (λ n. Holds (lease token) expires n) (omega arith))
  where
    other : (token t : ℕ) → t ≢ token → (token == t) ≡ false
    other token t h = ground arith
lease_step token expires now (passes t) h l = ap (λ n. Holds (lease token) expires n) (omega arith)

processed_step :
    (expires now : ℕ) (op : Op)
    → now < expires
    → perform op (Holds processed expires now) ≡ Holds processed expires (now + elapsed (op ∷ []))
unfolding perform try_acquire mark_processed release
processed_step expires now (acquires t ttl) l =
    ap (λ x. (acquire_given t ttl (Holds processed expires now) x).1)
      (live_before processed expires now l)
    ∙ ap (λ n. Holds processed expires n) (omega arith)
processed_step expires now (marks t ttl) l =
    ap (λ x. (mark_given t ttl (Holds processed expires now) x).1)
      (live_before processed expires now l)
    ∙ ap (λ n. Holds processed expires n) (omega arith)
processed_step expires now (releases t) l =
    ap (λ x. (release_given t (Holds processed expires now) x).1)
      (live_before processed expires now l)
    ∙ ap (λ n. Holds processed expires n) (omega arith)
processed_step expires now (passes t) l = ap (λ n. Holds processed expires n) (omega arith)

elapsed-cons : (op : Op) (ops : List Op) → elapsed (op ∷ ops) ≡ elapsed (op ∷ []) + elapsed ops
elapsed-cons (acquires t ttl) ops = omega arith
elapsed-cons (marks t ttl) ops = omega arith
elapsed-cons (releases t) ops = omega arith
elapsed-cons (passes t) ops = omega arith

lease_kept :
    (token expires now : ℕ) (ops : List Op)
    → All (IsByOthers token) ops
    → now + elapsed ops < expires
    → perform_all ops (Holds (lease token) expires now)
      ≡ Holds (lease token) expires (now + elapsed ops)
unfolding perform_all
lease_kept token expires now [] h l = ap (λ n. Holds (lease token) expires n) (omega arith)
lease_kept token expires now (op ∷ ops) (h, hs) l =
    ap (perform_all ops) (lease_step token expires now op h (omega (arith, elapsed-cons op ops)))
    ∙ lease_kept token expires (now + elapsed (op ∷ [])) ops hs (omega (arith, elapsed-cons op ops))
    ∙ ap (λ n. Holds (lease token) expires n) (omega (arith, elapsed-cons op ops))

processed_kept :
    (expires now : ℕ) (ops : List Op)
    → now + elapsed ops < expires
    → perform_all ops (Holds processed expires now) ≡ Holds processed expires (now + elapsed ops)
unfolding perform_all
processed_kept expires now [] l = ap (λ n. Holds processed expires n) (omega arith)
processed_kept expires now (op ∷ ops) l =
    ap (perform_all ops) (processed_step expires now op (omega (arith, elapsed-cons op ops)))
    ∙ processed_kept expires (now + elapsed (op ∷ [])) ops (omega (arith, elapsed-cons op ops))
    ∙ ap (λ n. Holds processed expires n) (omega (arith, elapsed-cons op ops))

-- A consumer that acquired a free event holds it for the time of its lease: after any operations of
-- others that take less, where none marks the event and the holder does not release it, another
-- consumer's attempt is answered that the event is in progress.
pub lease_is_exclusive :
    (token other ttl ttl' now : ℕ) (ops : List Op)
    → other ≢ token
    → All (IsByOthers token) ops
    → elapsed ops < ttl
    → (try_acquire other ttl'
        (perform_all ops (try_acquire token ttl (record { now = now; entry = none })).1)).0
      ≡ EventAcquireResult.in_progress
unfolding try_acquire
lease_is_exclusive token other ttl ttl' now ops n h l =
    ap (λ k. (try_acquire other ttl' k).0) (lease_kept token (now + ttl) now ops h (omega arith))
    ∙ ap (λ x. (acquire_given other ttl' (Holds (lease token) (now + ttl) (now + elapsed ops)) x).0)
        (live_before (lease token) (now + ttl) (now + elapsed ops) (omega arith))
    ∙ ground arith

-- An event that is not yet processed and is marked so, by whichever consumer, stays so for the time of its retention:
-- after any operations of any consumers that take less, an attempt to acquire it is answered that it is
-- processed, so no handler runs again.
pub processed_is_final :
    (token ttl : ℕ) (k : Key) (other ttl' : ℕ) (ops : List Op)
    → current k ≢ some processed
    → elapsed ops < ttl
    → (try_acquire other ttl' (perform_all ops (mark_processed token ttl k).1)).0
      ≡ EventAcquireResult.already_processed
unfolding try_acquire mark_processed
processed_is_final token ttl k other ttl' ops n l = marked (current k) n
  where
    final :
        (try_acquire other ttl' (perform_all ops (set processed ttl k))).0
        ≡ EventAcquireResult.already_processed
    final =
        ap (λ x. (try_acquire other ttl' x).0)
          (processed_kept (k.now + ttl) k.now ops (omega arith))
        ∙ ap
            (λ x.
              (acquire_given other ttl' (Holds processed (k.now + ttl) (k.now + elapsed ops)) x).0)
            (live_before processed (k.now + ttl) (k.now + elapsed ops) (omega arith))

    marked :
        (value : Option Value)
        → value ≢ some processed
        → (try_acquire other ttl' (perform_all ops (mark_given token ttl k value).1)).0
          ≡ EventAcquireResult.already_processed
    marked none h = final
    marked (some processed) h = absurd (h refl)
    marked (some (lease t)) h = final
