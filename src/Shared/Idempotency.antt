-- ===== src/Shared/Idempotency.antt =====
-- Durable idempotency of event consumers (shared/src/kafka/durable-event-idempotency.scripts.ts and
-- .service.ts), for the key of one consumer group and event: the scripts touch no other. Tokens are
-- numbers, and the times to live, which the service checks to be positive, are in milliseconds.
pub mod Leases
mod Tests
use delivery_plus.Prelude.{
  ℕ, ◌+◌, Bool, true, false, Option, none, some, List, [], ◌∷◌, ◌==◌, ltb, if◌then◌else◌,
}

pub data Value : Type 0 where
  lease : ℕ → Value
  processed : Value

-- The key, and the clock of the Redis server. A value whose time has come is missing.
pub record Key : Type 0 where
  pub now : ℕ
  pub entry : Option (Value × ℕ)

abbrev pub live : ℕ → Option (Value × ℕ) → Option Value
live now none = none
live now (some (value, expires)) = if ltb now expires then some value else none

abbrev pub current : Key → Option Value
current k = live k.now k.entry

abbrev pub set : Value → ℕ → Key → Key
set value ttl k = record k { entry = some (value, k.now + ttl) }

pub data EventAcquireResult : Type 0 where
  acquired already_processed in_progress : EventAcquireResult

abbrev pub acquire_given : ℕ → ℕ → Key → Option Value → EventAcquireResult × Key
acquire_given token ttl k none = (EventAcquireResult.acquired, set (lease token) ttl k)
acquire_given token ttl k (some processed) = (EventAcquireResult.already_processed, k)
acquire_given token ttl k (some (lease t)) =
    (if t == token then EventAcquireResult.acquired else EventAcquireResult.in_progress, k)

unfoldable pub try_acquire : ℕ → ℕ → Key → EventAcquireResult × Key
try_acquire token ttl k = acquire_given token ttl k (current k)

abbrev pub mark_given : ℕ → ℕ → Key → Option Value → Bool × Key
mark_given token ttl k none = (false, set processed ttl k)
mark_given token ttl k (some processed) = (false, k)
mark_given token ttl k (some (lease t)) = (t == token, set processed ttl k)

unfoldable pub mark_processed : ℕ → ℕ → Key → Bool × Key
mark_processed token ttl k = mark_given token ttl k (current k)

abbrev pub release_given : ℕ → Key → Option Value → Bool × Key
release_given token k none = (false, k)
release_given token k (some processed) = (false, k)
release_given token k (some (lease t)) =
    if t == token then (true, record k { entry = none }) else (false, k)

unfoldable pub release : ℕ → Key → Bool × Key
release token k = release_given token k (current k)

abbrev pub is_processed_value : Option Value → Bool
is_processed_value (some processed) = true
is_processed_value _ = false

unfoldable pub is_processed : Key → Bool
is_processed k = is_processed_value (current k)

-- What any number of consumers do to the key, and how time passes.
pub data Op : Type 0 where
  acquires : (token ttl : ℕ) → Op
  marks : (token ttl : ℕ) → Op
  releases : (token : ℕ) → Op
  passes : (milliseconds : ℕ) → Op

unfoldable pub perform : Op → Key → Key
perform (acquires token ttl) k = (try_acquire token ttl k).1
perform (marks token ttl) k = (mark_processed token ttl k).1
perform (releases token) k = (release token k).1
perform (passes t) k = record k { now = k.now + t }

unfoldable pub perform_all : List Op → Key → Key
perform_all [] k = k
perform_all (op ∷ ops) k = perform_all ops (perform op k)
