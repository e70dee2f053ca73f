-- ===== src/Cache.antt =====
-- src/services/cache.service.ts, src/constants/cacheKeys.ts and src/helpers/rateLimitStore.ts.
-- A call never raises: when the command fails, it returns its fallback.
pub mod Commands
pub mod Counters
pub mod Memory
pub mod Remember
pub use Commands.*
use Commands.{Redis, CacheKey, ℤ, Ttl, Value}
use mathlib.Core.Option
use flowdeck_backend.Base.{Bool, Option, List, String, false, if◌then◌else◌, none, some, ℕ, ◌==◌}
use flowdeck_backend.Store.{Exec, Result, ok}

abbrev pub Command : Type 0 → Type 0 → Type 0
Command S A = S → Option A × S

module _ {S A : Type 0} where
  unfoldable pub or_fallback : A → Option A × S → Result A × S
  or_fallback fallback (none, s) = (ok fallback, s)
  or_fallback fallback (some a, s) = (ok a, s)

  unfoldable pub attempt : Command S A → A → Exec S A
  unfolding or_fallback
  attempt action fallback s = or_fallback fallback (action s)

  -- `string | null`, the type of the reply and of the fallback
  abbrev pub replied : Option A × S → Option (Option A) × S
  replied (none, s) = (none, s)
  replied (some a, s) = (some (some a), s)

  -- A command that only reads.
  abbrev pub reply : (S → Option A) → Command S A
  reply f s = (f s, s)

-- `Math.max(n, 0)`
abbrev pub at_least_zero : ℤ → ℕ
at_least_zero (ℤ.pos n) = n
at_least_zero (ℤ.negsuc n) = 0

abbrev pub seconds_of : Ttl → ℕ
seconds_of Ttl.no_key = 0
seconds_of Ttl.no_expiry = 0
seconds_of (Ttl.left n) = n

-- `Number(raw) || 0`. The keys that are counted hold what INCR writes; of another text the numeral
-- that it may be is not read.
abbrev pub number_or_zero : Option Value → ℤ
number_or_zero none = ℤ.pos 0
number_or_zero (some (Value.integer n)) = n
number_or_zero (some (Value.json a)) = ℤ.pos 0
number_or_zero (some (Value.text t)) = ℤ.pos 0

abbrev pub is_one : ℤ → Bool
is_one (ℤ.pos n) = n == 1
is_one (ℤ.negsuc n) = false

-- `raw ? JSON.parse(raw) : null`; of a text that JSON.parse refuses the call returns its fallback,
-- which is `null` too.
abbrev pub parsed : {A : Type 0} → (Value → Option A) → Option Value → Option A
parsed parse none = none
parsed parse (some v) = parse v

module _ (m : Redis) where
  unfoldable pub read_json :
      {A : Type 0} → (Value → Option A) → ℕ → CacheKey → Exec m.Store (Option A)
  unfolding attempt
  read_json parse now key = attempt (reply (λ s. Option.map (parsed parse) (m.get now key s))) none

  unfoldable pub write_json : ℕ → CacheKey → Value → ℕ → Exec m.Store (Option String)
  unfolding attempt
  write_json now key value seconds = attempt (λ s. replied (m.set_ex now key value seconds s)) none

  unfoldable pub answered : ℤ → Option ℕ × m.Store → Option ℤ × m.Store
  answered n (none, s) = (none, s)
  answered n (some set, s) = (some n, s)

  unfoldable pub expire_first : ℕ → CacheKey → ℕ → Option ℤ × m.Store → Option ℤ × m.Store
  unfolding answered
  expire_first now key seconds (none, s) = (none, s)
  expire_first now key seconds (some n, s) =
      if is_one n then answered n (m.expire now key seconds s) else (some n, s)

  unfoldable pub bump : ℕ → CacheKey → ℕ → Exec m.Store ℤ
  unfolding attempt expire_first
  bump now key seconds = attempt (λ s. expire_first now key seconds (m.incr now key s)) (ℤ.pos 0)

  clamped : Option ℤ × m.Store → Option ℕ × m.Store
  clamped (none, s) = (none, s)
  clamped (some n, s) = (some (at_least_zero n), s)

  unfoldable pub dip : ℕ → CacheKey → Exec m.Store ℕ
  unfolding attempt clamped
  dip now key = attempt (λ s. clamped (m.decr now key s)) 0

  unfoldable pub count_of : ℕ → CacheKey → Exec m.Store ℤ
  unfolding attempt
  count_of now key = attempt (reply (λ s. Option.map number_or_zero (m.get now key s))) (ℤ.pos 0)

  unfoldable pub seconds_left : ℕ → CacheKey → Exec m.Store ℕ
  unfolding attempt
  seconds_left now key = attempt (reply (λ s. Option.map seconds_of (m.ttl now key s))) 0

  unfoldable pub mark_flag : ℕ → CacheKey → ℕ → Exec m.Store (Option String)
  unfolding attempt
  mark_flag now key seconds =
      attempt (λ s. replied (m.set_ex now key (Value.integer (ℤ.pos 1)) seconds s)) none

  unfoldable pub has_flag : ℕ → CacheKey → Exec m.Store Bool
  unfolding attempt
  has_flag now key = attempt (reply (λ s. Option.map (λ n. n == 1) (m.exists now key s))) false

  unfoldable pub drop : ℕ → List CacheKey → Exec m.Store ℕ
  unfolding attempt
  drop now keys = attempt (m.del now keys) 0
