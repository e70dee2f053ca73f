-- ===== src/Security/Lock.antt =====
-- src/services/security.service.ts: what failed attempts leave, and what the guard then answers.
-- Redis answers, and the failures of the email are counted up to `n` until the clock reads `until`.
use flowdeck_backend.Base.{
  All, Bool-cases, List, Option, String, [], ap, arith, false, if◌then◌else◌, inl, inr, leb, length,
  ltb, none, refl, subst, true, ℕ, ◌&&◌, ◌+◌, ◌-◌, ◌<◌, ◌∙◌, ◌∷◌, ◌≡◌,
}
use flowdeck_backend.Cache.{
  CacheKey, Redis, bump, live, mark_flag, number_or_zero, same_key, seconds_of, ttl_of, value_of, ℤ,
}
use flowdeck_backend.Cache.Counters.{
  Counts, bump-more, bump-new, bump-other, count_of-eq, mark_flag-other, seconds_left-eq,
}
use flowdeck_backend.Notifications.{within}
use flowdeck_backend.Security.{
  Env, assert_login_allowed, attempts_message, below, block, by_address, by_email,
  record_login_failure, refuse_until,
}
use flowdeck_backend.Security.Network.{Address}
use flowdeck_backend.Store.{
  Keeps-call, Keeps-pure, Keeps-when, call-returns, err, ok, pure, reads, when,
}

abbrev pub HasFailed : (m : Redis) → String → ℕ → ℕ → m.Store → Type 0
HasFailed m email n until s =
    (m.up s ≡ true) × (Counts m (CacheKey.login_failures_by_email email) n until s)

-- One failed attempt after another.
unfoldable pub fail_all :
    (env : Env) (m : Redis) → String → List (ℕ × Option Address) → m.Store → m.Store
fail_all env m email [] s = s
fail_all env m email ((now, address) ∷ later) s =
    fail_all env m email later (record_login_failure env m now email address s).1

below-open :
    (now until n limit : ℕ)
    → 0 < limit
    → below (if ltb now until then ℤ.pos n else ℤ.pos 0) limit ≡ true
    → (ltb now until && leb limit n) ≡ false
below-open now until n limit p h = ground arith

below-locked :
    (now until n limit : ℕ)
    → 0 < limit
    → below (if ltb now until then ℤ.pos n else ℤ.pos 0) limit ≡ false
    → (ltb now until ≡ true) × (leb limit n ≡ true)
below-locked now until n limit p h = ground arith

module _ (env : Env) (m : Redis) where
  other-HasFailed :
      (email : String) (n until : ℕ) (k : CacheKey) (t now : ℕ) (s : m.Store)
      → HasFailed m email n until s
      → same_key k (by_email email) ≡ false
      → HasFailed m email n until (bump m now k t s).1
  other-HasFailed email n until k t now s (u, c) d =
      let (kept, up) = bump-other m now k (by_email email) t s u d in (up, kept ∙ c)

  marked-HasFailed :
      (email : String) (n until now : ℕ) (ip : Address) (t : ℕ) (s : m.Store)
      → HasFailed m email n until s
      → HasFailed m email n until (mark_flag m now (CacheKey.blocked_ip ip) t s).1
  marked-HasFailed email n until now ip t s (u, c) =
      let (kept, up) = mark_flag-other m now (CacheKey.blocked_ip ip) (by_email email) t s u refl in
      (up, kept ∙ c)

  -- The rest of `recordLoginFailure`, after the email has been counted.
  record_login_failure-Keeps :
      (now : ℕ) (email : String) (address : Option Address) (n until : ℕ) (s : m.Store)
      → HasFailed m email n until (bump m now (by_email email) env.login_lock_seconds s).1
      → HasFailed m email n until (record_login_failure env m now email address s).1
  unfolding record_login_failure block
  record_login_failure-Keeps now email address n until s h =
      (Keeps-call P _ _ s (record { at = h })
        λ _ s₁ h₁.
          Keeps-call P _ _ s₁ (record { at = other-HasFailed email n until _ _ now s₁ h₁ refl })
            λ k s₂ h₂.
              Keeps-call P _ _ s₂
                (Keeps-when P _ _ s₂ h₂ (
                  Keeps-call P _ _ s₂ (record { at = marked-HasFailed email n until now _ _ s₂ h₂ })
                    (λ _ s₃ h₃. Keeps-pure P _ s₃ h₃)))
                λ _ s₃ h₃. Keeps-pure P _ s₃ h₃).at
    where
      P : m.Store → Type 0
      P = HasFailed m email n until

  first-HasFailed :
      (now : ℕ) (email : String) (address : Option Address) (s : m.Store)
      → m.up s ≡ true
      → live now (m.find (by_email email) s) ≡ none
      → HasFailed m email 1
          (now + env.login_lock_seconds)
          (record_login_failure env m now email address s).1
  first-HasFailed now email address s u h =
      let (_, c, up) = bump-new m now (by_email email) env.login_lock_seconds s u h in
      record_login_failure-Keeps now email address 1 _ s (up, c)

  next-HasFailed :
      (now : ℕ) (email : String) (address : Option Address) (n until : ℕ) (s : m.Store)
      → 0 < n
      → now < until
      → HasFailed m email n until s
      → HasFailed m email (n + 1) until (record_login_failure env m now email address s).1
  next-HasFailed now email address n until s p early (u, c) =
      let (_, c', up) =
        bump-more m now (by_email email) env.login_lock_seconds n until s u c p early in
      record_login_failure-Keeps now email address (n + 1) until s (up, c')

  abbrev pub Before : ℕ → List (ℕ × Option Address) → Type 0
  Before until later = All (λ a. a.0 < until) later

  fail_all-HasFailed :
      (email : String) (n until : ℕ) (later : List (ℕ × Option Address)) (s : m.Store)
      → 0 < n
      → Before until later
      → HasFailed m email n until s
      → HasFailed m email (n + length later) until (fail_all env m email later s)
  unfolding fail_all
  fail_all-HasFailed email n until [] s p b h =
      subst (λ k. HasFailed m email k until s) (omega arith) h
  fail_all-HasFailed email n until ((now, address) ∷ later) s p (b, bs) h =
      subst (λ k. HasFailed m email k until (fail_all env m email ((now, address) ∷ later) s))
        (omega arith)
        (fail_all-HasFailed email (n + 1) until later _ (omega arith) bs
          (next-HasFailed now email address n until s p b h))

  -- What the guard answers, read from the entries.
  unfoldable pub failures : ℕ → CacheKey → m.Store → ℤ
  failures now k s = number_or_zero (value_of (live now (m.find k s)))

  login_allowed :
      (now : ℕ) (email : String) (address : Option Address) (s : m.Store)
      → m.up s ≡ true
      → below (failures now (by_email email) s) env.login_max_attempts ≡ true
      → below (failures now (by_address address) s) env.ip_block_threshold ≡ true
      → assert_login_allowed env m now email address s ≡ (ok tt, s)
  unfolding assert_login_allowed failures when pure
  login_allowed now email address s u e a =
      call-returns _ _ s _ s (count_of-eq m now (by_email email) s u)
      ∙ call-returns _ _ s _ s (count_of-eq m now (by_address address) s u)
      ∙ (rw (e, a) refl)

  login_refused :
      (now : ℕ) (email : String) (address : Option Address) (s : m.Store)
      → m.up s ≡ true
      → below (failures now (by_email email) s) env.login_max_attempts ≡ false
      → assert_login_allowed env m now email address s ≡ (
        err (attempts_message (seconds_of (ttl_of now (live now (m.find (by_email email) s))))),
        s,
      )
  unfolding assert_login_allowed failures when refuse_until reads
  login_refused now email address s u e =
      call-returns _ _ s _ s (count_of-eq m now (by_email email) s u)
      ∙ call-returns _ _ s _ s (count_of-eq m now (by_address address) s u)
      ∙ (rw e (call-returns _ _ s _ s (seconds_left-eq m now (by_email email) s u)))

  failures-HasFailed :
      (now : ℕ) (email : String) (n until : ℕ) (s : m.Store)
      → HasFailed m email n until s
      → failures now (by_email email) s ≡ (if ltb now until then ℤ.pos n else ℤ.pos 0)
  unfolding failures
  failures-HasFailed now email n until s (u, c) = rw c (ground arith)

  -- The state of the email's counter decides, when the address is below its own limit.
  HasFailed-verdict :
      (now : ℕ) (email : String) (address : Option Address) (n until : ℕ) (s : m.Store)
      → 0 < env.login_max_attempts
      → below (failures now (by_address address) s) env.ip_block_threshold ≡ true
      → HasFailed m email n until s
      → (assert_login_allowed env m now email address s).0 ≡ (
          if ltb now until && leb env.login_max_attempts n
          then err (attempts_message (until - now))
          else ok tt)
  HasFailed-verdict now email address n until s p a h =
      elim (Bool-cases (below (failures now (by_email email) s) env.login_max_attempts)) [
        | inl e ↦
            let b = subst (λ k. below k env.login_max_attempts ≡ true) counted e in
            let shut = below-open now until n env.login_max_attempts p b in
            ap (λ r. r.0) (login_allowed now email address s h.0 e a) ∙ (rw shut refl)
        | inr e ↦
            let b = subst (λ k. below k env.login_max_attempts ≡ false) counted e in
            let (early, many) = below-locked now until n env.login_max_attempts p b in
            ap (λ r. r.0) (login_refused now email address s h.0 e) ∙ (rw (h.1, early, many) refl)
      ]
    where
      counted : failures now (by_email email) s ≡ (if ltb now until then ℤ.pos n else ℤ.pos 0)
      counted = failures-HasFailed now email n until s h

  -- Failures for an email from any addresses, the first at a time when its counter has no live entry
  -- and the others within LOGIN_LOCK_SECONDS of it, lock the email exactly while that time lasts, and
  -- only if there are at least LOGIN_MAX_ATTEMPTS of them: until then an attempt is refused with the
  -- seconds that are left, and otherwise the guard lets it pass. This is under the conditions that
  -- Redis answers and that the address of the attempt is below the limit for addresses.
  pub fail_all-locks :
      (email : String) (first : ℕ) (address : Option Address) (later : List (ℕ × Option Address))
      (now : ℕ) (from : Option Address) (s : m.Store)
      → 0 < env.login_max_attempts
      → m.up s ≡ true
      → live first (m.find (by_email email) s) ≡ none
      → Before (first + env.login_lock_seconds) later
      → below
          (failures now (by_address from) (fail_all env m email ((first, address) ∷ later) s))
          env.ip_block_threshold
        ≡ true
      → (assert_login_allowed env m now email from
          (fail_all env m email ((first, address) ∷ later) s)).0
        ≡ (if ltb now (first + env.login_lock_seconds)
              && leb env.login_max_attempts (1 + length later)
            then err (attempts_message (first + env.login_lock_seconds - now))
            else ok tt)
  unfolding fail_all
  fail_all-locks email first address later now from s p u fresh within a =
      HasFailed-verdict now email from (1 + length later) (first + env.login_lock_seconds) _ p a (
        fail_all-HasFailed email 1 (first + env.login_lock_seconds) later _ (omega arith) within
          (first-HasFailed first email address s u fresh))
