-- ===== src/Security/Tests.antt =====
-- Failed attempts and blocked addresses on a Redis server in memory, and the theorems there.
use flowdeck_backend.Base.{[], arith, codes, none, refl, some, ◌∷◌, ◌≡◌}
use flowdeck_backend.Cache.{bump, count_of, mark_flag, seconds_left, ℤ}
use flowdeck_backend.Cache.Memory.{Memory, memory_redis}
use flowdeck_backend.Security.{
  Env, assert_ip_allowed, assert_login_allowed, attempts_message, block_address, blocked_message,
  by_address, record_login_failure, unblock_address,
}
use flowdeck_backend.Security.Addresses.{block_address-refuses, unblock_address-lets_in}
use flowdeck_backend.Security.Keys.{client_key-join}
use flowdeck_backend.Security.Lock.{fail_all, fail_all-locks, failures}
use flowdeck_backend.Security.Network.{Address, client_key, has_double_colon, join}
use flowdeck_backend.Store.{err, ok, pure, reads, when, ◌>>=◌}

abbrev settings : Env
settings = record {
  login_max_attempts = 2;
  login_lock_seconds = 300;
  ip_block_threshold = 25;
  ip_block_seconds = 1800;
  access_token_ttl = 900;
  refresh_token_ttl = 604800;
}

abbrev empty_memory : Memory
empty_memory = some (λ k. none)

abbrev home : Address
home = codes "10.0.0.1"

-- Two failures at 100 and 150, and an attempt from elsewhere at 399, and at 400.
locked_runs :
    (assert_login_allowed settings memory_redis 399 "a@x.io" none (
      fail_all settings memory_redis "a@x.io" ((100, some home) ∷ (150, none) ∷ []) empty_memory)).0
    ≡ err (attempts_message 1)
unfolding assert_login_allowed fail_all ◌>>=◌ count_of record_login_failure bump when pure
    client_key seconds_left reads
locked_runs = refl

opened_runs :
    (assert_login_allowed settings memory_redis 400 "a@x.io" none (
      fail_all settings memory_redis "a@x.io" ((100, some home) ∷ (150, none) ∷ []) empty_memory)).0
    ≡ ok tt
unfolding assert_login_allowed fail_all ◌>>=◌ count_of record_login_failure bump when pure
    client_key
opened_runs = refl

fail_all-locks_example :
    (assert_login_allowed settings memory_redis 399 "a@x.io" (some (codes "10.0.0.2")) (
      fail_all settings memory_redis "a@x.io" ((100, some home) ∷ (150, none) ∷ []) empty_memory)).0
    ≡ err (attempts_message 1)
unfolding failures fail_all record_login_failure ◌>>=◌ bump when pure client_key
fail_all-locks_example =
    fail_all-locks settings memory_redis "a@x.io" 100 (some home) ((150, none) ∷ []) 399
      (some (codes "10.0.0.2")) empty_memory (omega arith) refl refl (omega arith, tt) refl

block_address-refuses_example :
    (assert_ip_allowed memory_redis 59
      (some home)
      (block_address memory_redis 10 home 50 empty_memory).1).0
    ≡ err (blocked_message 1)
block_address-refuses_example =
    block_address-refuses memory_redis 10 home 50 59 (some home) empty_memory refl (omega arith)
      refl

unblock_address-lets_in_example :
    (assert_ip_allowed memory_redis 12
        (some home)
        (unblock_address memory_redis 11 home
          (block_address memory_redis 10 home 50 empty_memory).1).1
      ≡ (
        ok tt,
        (unblock_address memory_redis 11 home
            (block_address memory_redis 10 home 50 empty_memory).1).1,
      ))
    × (count_of memory_redis 12
          (by_address (some home))
          (unblock_address memory_redis 11 home
            (block_address memory_redis 10 home 50 empty_memory).1).1
        ≡ (
          ok (ℤ.pos 0),
          (unblock_address memory_redis 11 home
              (block_address memory_redis 10 home 50 empty_memory).1).1,
        ))
unfolding block_address ◌>>=◌ mark_flag pure
unblock_address-lets_in_example =
    unblock_address-lets_in memory_redis 11 home 12 (some home)
      (block_address memory_redis 10 home 50 empty_memory).1 refl refl

client_key-join_example : client_key (some (codes "1:2:3:4:5:6")) ≡ codes "1:2:3:4::"
unfolding join has_double_colon
client_key-join_example =
    client_key-join (codes "1") (codes "2") (codes "3") (codes "4") (codes "5") (codes "6" ∷ [])
      (refl, (refl, (refl, (refl, (refl, (refl, tt)))))) refl
