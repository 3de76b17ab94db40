-- ===== src/Shared/Idempotency/Tests.antt =====
-- Two consumers of one event, 1 and 2, with leases of a minute.
use delivery_plus.Prelude.{◌≡◌, refl, none, List, [], ◌∷◌, arith}
use delivery_plus.Shared.Idempotency.{
  Key, EventAcquireResult, try_acquire, mark_processed, Op, acquires, releases, passes, perform,
  perform_all,
}
use delivery_plus.Shared.Idempotency.Leases.{lease_is_exclusive, processed_is_final}

abbrev free : Key
free = record { now = 100; entry = none }

abbrev meanwhile : List Op
meanwhile = passes 20000 ∷ acquires 2 60000 ∷ releases 2 ∷ passes 30000 ∷ []

lease_is_exclusive_example :
    (try_acquire 2 60000 (perform_all meanwhile (try_acquire 1 60000 free).1)).0
    ≡ EventAcquireResult.in_progress
lease_is_exclusive_example =
    lease_is_exclusive 1 2 60000 60000 100 meanwhile (λ e. ground arith)
      (tt, (tt, ((λ e. ground arith), (tt, tt)))) (omega arith)

processed_is_final_example :
    (try_acquire 2 60000 (perform_all meanwhile (mark_processed 1 604800000 free).1)).0
    ≡ EventAcquireResult.already_processed
processed_is_final_example =
    processed_is_final 1 604800000 free 2 60000 meanwhile (λ e. cc) (omega arith)

-- A lease that has run out is taken over.
taken_over :
    (try_acquire 2 60000 (perform_all (passes 60000 ∷ []) (try_acquire 1 60000 free).1)).0
    ≡ EventAcquireResult.acquired
unfolding try_acquire perform_all perform
taken_over = refl
