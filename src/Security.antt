-- ===== src/Security.antt =====
-- src/services/security.service.ts: the lock on sign-in after failed attempts, and blocked addresses.
-- The clock of Redis counts seconds.
pub mod Network
pub mod Lock
mod Tests
pub mod Keys
pub mod Addresses
use Network.{Address, client_key}
use flowdeck_backend.Base.{
  Bool, Option, String, [], concat, decimal, false, if◌then◌else◌, ltb, not, some, true, ℕ, ◌&&◌,
  ◌+◌, ◌-◌, ◌∷◌,
}
use flowdeck_backend.Cache.{
  CacheKey, Redis, bump, count_of, drop, has_flag, mark_flag, seconds_left, ℤ,
}
use flowdeck_backend.Store.{
  ApiError, Exec, err, forbidden, pure, reads, too_many_requests, when, ◌>>=◌, ◌>>◌,
}

-- The settings of config/env.ts that the services read.
pub record Env : Type 0 where
  pub login_max_attempts : ℕ
  pub login_lock_seconds : ℕ
  pub ip_block_threshold : ℕ
  pub ip_block_seconds : ℕ
  pub access_token_ttl : ℕ
  pub refresh_token_ttl : ℕ

pub record LoginFailures : Type 0 where
  pub by_email : ℤ
  pub by_ip : ℤ
  pub remaining : ℕ

-- `n < limit`
abbrev pub below : ℤ → ℕ → Bool
below (ℤ.pos n) limit = ltb n limit
below (ℤ.negsuc n) limit = true

-- `Math.max(limit - n, 0)`
abbrev pub room : ℕ → ℤ → ℕ
room limit (ℤ.pos n) = limit - n
room limit (ℤ.negsuc n) = limit + n + 1

abbrev pub by_email : String → CacheKey
by_email email = CacheKey.login_failures_by_email email

abbrev pub by_address : Option Address → CacheKey
by_address address = CacheKey.login_failures_by_ip (client_key address)

abbrev pub blocked_message : ℕ → ApiError
blocked_message seconds = forbidden (
    concat
      ("This address is temporarily blocked, try again in " ∷ decimal seconds ∷ " seconds" ∷ []))

abbrev pub attempts_message : ℕ → ApiError
attempts_message seconds =
    too_many_requests
      (concat ("Too many failed attempts, try again in " ∷ decimal seconds ∷ " seconds" ∷ []))

module _ (m : Redis) where
  -- `markFlag(cacheKey.blockedIp(ip), seconds)`
  unfoldable pub block : ℕ → Address → ℕ → Exec m.Store (Unit {0})
  block now ip seconds = mark_flag m now (CacheKey.blocked_ip ip) seconds >>= λ _. pure tt

  -- `throw` with a message that tells how long to wait
  unfoldable pub refuse_until : ℕ → CacheKey → (ℕ → ApiError) → Exec m.Store (Unit {0})
  refuse_until now key error = do
    retry_after ← seconds_left m now key
    reads (λ _. err (error retry_after))

  unfoldable pub assert_ip_allowed : ℕ → Option Address → Exec m.Store (Unit {0})
  unfolding refuse_until
  assert_ip_allowed now address = do
    blocked ← has_flag m now (CacheKey.blocked_ip (client_key address))
    when blocked (refuse_until now (CacheKey.blocked_ip (client_key address)) blocked_message)

module _ (env : Env) (m : Redis) where
  unfoldable pub assert_login_allowed : ℕ → String → Option Address → Exec m.Store (Unit {0})
  unfolding refuse_until
  assert_login_allowed now email address = do
    n ← count_of m now (by_email email)
    k ← count_of m now (by_address address)
    when (not (below n env.login_max_attempts && below k env.ip_block_threshold)) (
        refuse_until m now
          (if not (below n env.login_max_attempts) then by_email email else by_address address)
          attempts_message)

  unfoldable pub record_login_failure : ℕ → String → Option Address → Exec m.Store LoginFailures
  record_login_failure now email address = do
    n ← bump m now (by_email email) env.login_lock_seconds
    k ← bump m now (by_address address) env.login_lock_seconds
    when (not (below k env.ip_block_threshold))
        (block m now (client_key address) env.ip_block_seconds)
    pure (record { by_email = n; by_ip = k; remaining = room env.login_max_attempts n })

module _ (m : Redis) where
  unfoldable pub clear_login_failures : ℕ → String → Option Address → Exec m.Store (Unit {0})
  clear_login_failures now email address = do
    _ ← drop m now (by_email email ∷ by_address address ∷ [])
    pure tt

  unfoldable pub block_address : ℕ → Address → ℕ → Exec m.Store (Address × ℕ)
  unfolding block
  block_address now address seconds = do
    block m now (client_key (some address)) seconds
    pure (client_key (some address), seconds)

  unfoldable pub unblock_address : ℕ → Address → Exec m.Store (Address × Bool)
  unblock_address now address = do
    _ ←
        drop m now
          (CacheKey.blocked_ip (client_key (some address)) ∷ by_address (some address) ∷ [])
    pure (client_key (some address), false)
