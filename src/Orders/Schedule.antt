-- ===== src/Orders/Schedule.antt =====
-- order-service as a whole: requests and events are served concurrently, and their atomic steps
-- interleave in any order.
use delivery_plus.Prelude.{ℕ, zero, suc, Option, List, [], ◌∷◌, ◌++◌, All}
use delivery_plus.Shared.Enums.{UserRole}
use delivery_plus.Shared.Events.{PaymentEventType, DeliveryEventType}
use delivery_plus.Proc.{done, act, ◌>>=◌, ret}
use delivery_plus.Proc.Rules.{Guarantees, at_end, at_step, Guarantees-bind}
use delivery_plus.Orders.Server.{Config, Server, World, Handler, get_by_id}
use delivery_plus.Orders.UpdateStatus.{
  UpdateOrderStatusDto, update_status, on_payment_event, on_delivery_event,
}
use delivery_plus.Orders.Checkout.{CreateOrderDto, create_from_cart, quote}
use delivery_plus.Orders.Rules.{OrderListFilter}
use delivery_plus.Orders.Listing.{list_by_customer, list_by_restaurant, get_fee_split}
use delivery_plus.Orders.Summary.{today_summary}
use delivery_plus.Orders.Steps.{Answers, Step, relayed, sent, drains, crashes, turns, Reach}
use delivery_plus.Orders.Steps.Handlers.{
  update_status-Steps, on_payment_event-Steps, on_delivery_event-Steps, create_from_cart-Steps,
  quote-Steps, get_by_id-Steps, list_by_customer-Steps, list_by_restaurant-Steps,
  today_summary-Steps, get_fee_split-Steps,
}

-- What reaches the service: its routes, and the events that it consumes.
pub data Request : Type 0 where
  creates : (customer token : ℕ) → Option ℕ → CreateOrderDto → Request
  updates : (id requester : ℕ) → UserRole → UpdateOrderStatusDto → Request
  gets : (id requester : ℕ) → UserRole → Request
  quotes : (token : ℕ) → Request
  lists : (customer page limit : ℕ) → Option OrderListFilter → Request
  restaurant_lists : (restaurant requester page limit : ℕ) → Request
  summaries : (restaurant requester : ℕ) → Request
  fee_splits : (id : ℕ) → Request
  payment_event : PaymentEventType → ℕ → Request
  delivery_event : DeliveryEventType → ℕ → Request

-- The handler of a request; its reply is dropped.
unfoldable pub handle : Config → Request → Handler (Unit {0})
handle c (creates customer token key checkout) =
    create_from_cart c customer token key checkout >>= λ _. ret tt
handle c (updates id requester role dto) = update_status c id requester role dto >>= λ _. ret tt
handle c (gets id requester role) = get_by_id id requester role >>= λ _. ret tt
handle c (quotes token) = quote c token >>= λ _. ret tt
handle c (lists customer page limit filter) =
    list_by_customer customer page limit filter >>= λ _. ret tt
handle c (restaurant_lists restaurant requester page limit) =
    list_by_restaurant restaurant requester page limit >>= λ _. ret tt
handle c (summaries restaurant requester) = today_summary restaurant requester >>= λ _. ret tt
handle c (fee_splits id) = get_fee_split id >>= λ _. ret tt
handle c (payment_event e id) = on_payment_event c e id
handle c (delivery_event e id) = on_delivery_event c e id

-- What happens next: a request arrives, the handler at a place of the pool makes its next step, the
-- relay publishes a batch or dies in it, or the other services and the calendar move on.
pub data Pick : Type 0 where
  arrives : Request → Pick
  runs : ℕ → Pick
  relays dies : ℕ → Answers → Pick
  world_turns : World → ℕ → Pick

abbrev pub Pool : Type 0
Pool = List (Handler (Unit {0}))

-- One step of the handler at a place; none there, or a finished one, does nothing.
unfoldable pub advance : ℕ → Pool → Server → Pool × Server
advance i [] s = ([], s)
advance zero (done r ∷ pool) s = (done r ∷ pool, s)
advance zero (act u k ∷ pool) s = (k s ∷ pool, u s)
advance (suc i) (p ∷ pool) s = let (pool', s') = advance i pool s in (p ∷ pool', s')

unfoldable pub serve_pool : Config → List Pick → Pool → Server → Server
serve_pool c [] pool s = s
serve_pool c (arrives r ∷ picks) pool s = serve_pool c picks (pool ++ handle c r ∷ []) s
serve_pool c (runs i ∷ picks) pool s =
    let (pool', s') = advance i pool s in serve_pool c picks pool' s'
serve_pool c (relays batch_size answers ∷ picks) pool s =
    serve_pool c picks pool (relayed batch_size answers s)
serve_pool c (dies batch_size answers ∷ picks) pool s =
    serve_pool c picks pool (sent batch_size answers s)
serve_pool c (world_turns w day ∷ picks) pool s =
    serve_pool c picks pool (record s { world = w; db = record (s.db) { today = day } })

-- The state after a schedule that begins with no request in progress.
unfoldable pub serve : Config → List Pick → Server → Server
unfolding serve_pool
serve c picks s = serve_pool c picks [] s

module _ (c : Config) where
  handle-Steps : (r : Request) → Guarantees (Step c) (handle c r)
  unfolding handle
  handle-Steps (creates customer token key checkout) =
      Guarantees-bind (create_from_cart-Steps c customer token key checkout) (λ _. at_end _)
  handle-Steps (updates id requester role dto) =
      Guarantees-bind (update_status-Steps c id requester role dto) (λ _. at_end _)
  handle-Steps (gets id requester role) =
      Guarantees-bind (get_by_id-Steps c id requester role) (λ _. at_end _)
  handle-Steps (quotes token) = Guarantees-bind (quote-Steps c token) (λ _. at_end _)
  handle-Steps (lists customer page limit filter) =
      Guarantees-bind (list_by_customer-Steps c customer page limit filter) (λ _. at_end _)
  handle-Steps (restaurant_lists restaurant requester page limit) =
      Guarantees-bind (list_by_restaurant-Steps c restaurant requester page limit) (λ _. at_end _)
  handle-Steps (summaries restaurant requester) =
      Guarantees-bind (today_summary-Steps c restaurant requester) (λ _. at_end _)
  handle-Steps (fee_splits id) = Guarantees-bind (get_fee_split-Steps c id) (λ _. at_end _)
  handle-Steps (payment_event e id) = on_payment_event-Steps c e id
  handle-Steps (delivery_event e id) = on_delivery_event-Steps c e id

  All-snoc :
      (pool : Pool) (p : Handler (Unit {0}))
      → All (Guarantees (Step c)) pool
      → Guarantees (Step c) p
      → All (Guarantees (Step c)) (pool ++ p ∷ [])
  All-snoc [] p h k = (k, tt)
  All-snoc (q ∷ pool) p (h, hs) k = (h, All-snoc pool p hs k)

  advance-Reach :
      (i : ℕ) (pool : Pool) (r s : Server)
      → Reach c r s
      → All (Guarantees (Step c)) pool
      → Reach c r (advance i pool s).1 × All (Guarantees (Step c)) (advance i pool s).0
  unfolding advance
  advance-Reach i [] r s q h = (q, tt)
  advance-Reach zero (done x ∷ pool) r s q h = (q, h)
  advance-Reach zero (act u k ∷ pool) r s q (at_step h hs, rest) =
      (Reach.next q (h s), (hs s, rest))
  advance-Reach (suc i) (p ∷ pool) r s q (h, hs) =
      let (q', hs') = advance-Reach i pool r s q hs in (q', (h, hs'))

  serve_pool-Reach :
      (picks : List Pick) (pool : Pool) (r s : Server)
      → Reach c r s
      → All (Guarantees (Step c)) pool
      → Reach c r (serve_pool c picks pool s)
  unfolding serve_pool
  serve_pool-Reach [] pool r s q h = q
  serve_pool-Reach (arrives x ∷ picks) pool r s q h =
      serve_pool-Reach picks (pool ++ handle c x ∷ []) r s q
        (All-snoc pool (handle c x) h (handle-Steps x))
  serve_pool-Reach (runs i ∷ picks) pool r s q h =
      let (q', h') = advance-Reach i pool r s q h in
      serve_pool-Reach picks (advance i pool s).0 r (advance i pool s).1 q' h'
  serve_pool-Reach (relays batch_size answers ∷ picks) pool r s q h =
      serve_pool-Reach picks pool r _ (Reach.next q (drains s batch_size answers)) h
  serve_pool-Reach (dies batch_size answers ∷ picks) pool r s q h =
      serve_pool-Reach picks pool r _ (Reach.next q (crashes s batch_size answers)) h
  serve_pool-Reach (world_turns w day ∷ picks) pool r s q h =
      serve_pool-Reach picks pool r _ (Reach.next q (turns s w day)) h

  -- Every schedule is a sequence of atomic steps.
  pub serve-Reach : (picks : List Pick) (s : Server) → Reach c s (serve c picks s)
  unfolding serve
  serve-Reach picks s = serve_pool-Reach picks [] s s Reach.here tt
