-- ===== src/Cache/Counters.antt =====
-- What the counters and flags of cache.service.ts do to the entries of Redis while it answers.
use flowdeck_backend.Base.{
  List, Option, any, ap, arith, false, if◌then◌else◌, none, refl, same_codes_refl, same_text_refl,
  some, true, ℕ, ◌+◌, ◌<◌, ◌==◌, ◌∙◌, ◌≡◌,
}
use flowdeck_backend.Cache.{
  answered, attempt, bump, count_of, drop, expire_first, has_flag, mark_flag, number_or_zero,
  or_fallback, replied, seconds_left, seconds_of,
}
use flowdeck_backend.Cache.Commands.{
  CacheKey, Redis, Value, counted, live, present, same_key, succ, ttl_of, value_of, ℤ,
}
use flowdeck_backend.Store.{ok}

pub same_key_refl : (k : CacheKey) → same_key k k ≡ true
same_key_refl (CacheKey.login_failures_by_email e) = same_text_refl e
same_key_refl (CacheKey.login_failures_by_ip a) = same_codes_refl a
same_key_refl (CacheKey.blocked_ip a) = same_codes_refl a
same_key_refl (CacheKey.membership w u) = ground arith
same_key_refl (CacheKey.rate_limit p a) = ground (arith, same_text_refl p, same_codes_refl a)

-- The key counts `n`, until the clock reads `t`.
abbrev pub Counts : (m : Redis) → CacheKey → ℕ → ℕ → m.Store → Type 0
Counts m k n t s = m.find k s ≡ some (record { value = Value.integer (ℤ.pos n); expires = some t })

module _ (m : Redis) where
  expire_first-one :
      (now : ℕ) (k : CacheKey) (t : ℕ) (o : Option ℤ) (s : m.Store)
      → o ≡ some (ℤ.pos 1)
      → expire_first m now k t (o, s) ≡ answered m (ℤ.pos 1) (m.expire now k t s)
  unfolding expire_first
  expire_first-one now k t o s h = rw h refl

  expire_first-more :
      (now : ℕ) (k : CacheKey) (t n : ℕ) (o : Option ℤ) (s : m.Store)
      → 1 < n
      → o ≡ some (ℤ.pos n)
      → expire_first m now k t (o, s) ≡ (some (ℤ.pos n), s)
  unfolding expire_first
  expire_first-more now k t n o s h e = rw e (ground arith)

  answered-some :
      (n : ℤ) (k : ℕ) (o : Option ℕ) (s : m.Store) → o ≡ some k → answered m n (o, s) ≡ (some n, s)
  unfolding answered
  answered-some n k o s h = rw h refl

  expire_first-keeps_other :
      (now : ℕ) (k j : CacheKey) (t : ℕ) (o : Option ℤ) (s : m.Store)
      → m.up s ≡ true
      → same_key k j ≡ false
      → (m.find j (expire_first m now k t (o, s)).1 ≡ m.find j s)
        × (m.up (expire_first m now k t (o, s)).1 ≡ true)
  unfolding expire_first answered
  expire_first-keeps_other now k j t none s u d = (refl, u)
  expire_first-keeps_other now k j t (some n) s u d =
      ground (arith, m.find-expire now k j t s u, m.up-expire now k t s)

  incr-new :
      (now : ℕ) (k : CacheKey) (s : m.Store)
      → m.up s ≡ true
      → live now (m.find k s) ≡ none
      → (m.incr now k s).0 ≡ some (ℤ.pos 1)
  incr-new now k s u h = m.incr_reply now k s u ∙ ap (λ o. (counted succ o).0) h

  pub live-Counts :
      (now : ℕ) (k : CacheKey) (n until : ℕ) (s : m.Store)
      → Counts m k n until s
      → now < until
      → live now (m.find k s) ≡ m.find k s
  live-Counts now k n until s h early = rw h (ground arith)

  incr-more :
      (now : ℕ) (k : CacheKey) (n until : ℕ) (s : m.Store)
      → m.up s ≡ true
      → Counts m k n until s
      → now < until
      → (m.incr now k s).0 ≡ some (ℤ.pos (n + 1))
  incr-more now k n until s u h early =
      m.incr_reply now k s u
      ∙ ap (λ o. (counted succ o).0) (live-Counts now k n until s h early ∙ h)

  find_new :
      (now : ℕ) (k : CacheKey) (t : ℕ) (s : m.Store)
      → m.up s ≡ true
      → live now (m.find k s) ≡ none
      → Counts m k 1 (now + t) (m.expire now k t (m.incr now k s).1).1
  find_new now k t s u h =
      rw
        (
          m.find-expire now k k t (m.incr now k s).1 (m.up-incr now k s ∙ u),
          m.find-incr now k k s u,
          same_key_refl k,
          h,
        )
        refl

  find_more :
      (now : ℕ) (k : CacheKey) (n until : ℕ) (s : m.Store)
      → m.up s ≡ true
      → Counts m k n until s
      → now < until
      → Counts m k (n + 1) until (m.incr now k s).1
  find_more now k n until s u h early =
      rw (m.find-incr now k k s u, same_key_refl k, live-Counts now k n until s h early ∙ h) refl

  bump-new_run :
      (now : ℕ) (k : CacheKey) (t : ℕ) (s : m.Store)
      → m.up s ≡ true
      → live now (m.find k s) ≡ none
      → bump m now k t s ≡ (ok (ℤ.pos 1), (m.expire now k t (m.incr now k s).1).1)
  unfolding bump attempt or_fallback
  bump-new_run now k t s u h =
      rw
        (
          expire_first-one now k t (m.incr now k s).0 (m.incr now k s).1 (incr-new now k s u h),
          answered-some (ℤ.pos 1) _ (m.expire now k t (m.incr now k s).1).0
              (m.expire now k t (m.incr now k s).1).1
              (m.expire_reply now k t (m.incr now k s).1 (m.up-incr now k s ∙ u)),
        )
        refl

  bump-more_run :
      (now : ℕ) (k : CacheKey) (t n until : ℕ) (s : m.Store)
      → m.up s ≡ true
      → Counts m k n until s
      → 0 < n
      → now < until
      → bump m now k t s ≡ (ok (ℤ.pos (n + 1)), (m.incr now k s).1)
  unfolding bump attempt or_fallback
  bump-more_run now k t n until s u h pos early =
      rw
        (expire_first-more now k t (n + 1) (m.incr now k s).0 (m.incr now k s).1 (omega arith)
          (incr-more now k n until s u h early))
        refl

  -- A key with no live entry.
  pub bump-new :
      (now : ℕ) (k : CacheKey) (t : ℕ) (s : m.Store)
      → m.up s ≡ true
      → live now (m.find k s) ≡ none
      → ((bump m now k t s).0 ≡ ok (ℤ.pos 1))
        × (Counts m k 1 (now + t) (bump m now k t s).1)
        × (m.up (bump m now k t s).1 ≡ true)
  bump-new now k t s u h =
      rw (bump-new_run now k t s u h) (
        refl,
        find_new now k t s u h,
        m.up-expire now k t (m.incr now k s).1 ∙ m.up-incr now k s ∙ u,
      )

  pub bump-more :
      (now : ℕ) (k : CacheKey) (t n until : ℕ) (s : m.Store)
      → m.up s ≡ true
      → Counts m k n until s
      → 0 < n
      → now < until
      → ((bump m now k t s).0 ≡ ok (ℤ.pos (n + 1)))
        × (Counts m k (n + 1) until (bump m now k t s).1)
        × (m.up (bump m now k t s).1 ≡ true)
  bump-more now k t n until s u h pos early =
      rw (bump-more_run now k t n until s u h pos early)
        (refl, find_more now k n until s u h early, m.up-incr now k s ∙ u)

  -- A call leaves what its command leaves.
  or_fallback-state :
      {A : Type 0} (a : A) (o : Option A) (s : m.Store) → (or_fallback a (o, s)).1 ≡ s
  unfolding or_fallback
  or_fallback-state a none s = refl
  or_fallback-state a (some b) s = refl

  find-incr_other :
      (now : ℕ) (k j : CacheKey) (s : m.Store)
      → m.up s ≡ true
      → same_key k j ≡ false
      → m.find j (m.incr now k s).1 ≡ m.find j s
  find-incr_other now k j s u d = rw (m.find-incr now k j s u, d) refl

  -- A call for one key leaves the others.
  pub bump-other :
      (now : ℕ) (k j : CacheKey) (t : ℕ) (s : m.Store)
      → m.up s ≡ true
      → same_key k j ≡ false
      → (m.find j (bump m now k t s).1 ≡ m.find j s) × (m.up (bump m now k t s).1 ≡ true)
  unfolding bump attempt
  bump-other now k j t s u d =
      let after = m.incr now k s in
      let kept = expire_first-keeps_other now k j t after.0 after.1 (m.up-incr now k s ∙ u) d in
      let run = expire_first m now k t after in
      let same = or_fallback-state (ℤ.pos 0) run.0 run.1 in
      (ap (m.find j) same ∙ kept.0 ∙ find-incr_other now k j s u d, ap m.up same ∙ kept.1)

  pub count_of-eq :
      (now : ℕ) (k : CacheKey) (s : m.Store)
      → m.up s ≡ true
      → count_of m now k s ≡ (ok (number_or_zero (value_of (live now (m.find k s)))), s)
  unfolding count_of attempt or_fallback
  count_of-eq now k s u = rw (m.get_lem now k s u) refl

  pub seconds_left-eq :
      (now : ℕ) (k : CacheKey) (s : m.Store)
      → m.up s ≡ true
      → seconds_left m now k s ≡ (ok (seconds_of (ttl_of now (live now (m.find k s)))), s)
  unfolding seconds_left attempt or_fallback
  seconds_left-eq now k s u = rw (m.ttl_lem now k s u) refl

  pub has_flag-eq :
      (now : ℕ) (k : CacheKey) (s : m.Store)
      → m.up s ≡ true
      → has_flag m now k s ≡ (ok (present (live now (m.find k s)) == 1), s)
  unfolding has_flag attempt or_fallback
  has_flag-eq now k s u = rw (m.exists_lem now k s u) refl

  replied-state :
      {A : Type 0} (o : Option A) (s : m.Store)
      → (or_fallback {A = Option A} none (replied (o, s))).1 ≡ s
  unfolding or_fallback
  replied-state none s = refl
  replied-state (some a) s = refl

  pub mark_flag-find :
      (now : ℕ) (k j : CacheKey) (t : ℕ) (s : m.Store)
      → m.up s ≡ true
      → 0 < t
      → (m.find j (mark_flag m now k t s).1 ≡ (
          if same_key k j
          then some (record { value = Value.integer (ℤ.pos 1); expires = some (now + t) })
          else m.find j s))
        × (m.up (mark_flag m now k t s).1 ≡ true)
  unfolding mark_flag attempt
  mark_flag-find now k j t s u p =
      let after = m.set_ex now k (Value.integer (ℤ.pos 1)) t s in
      let same = replied-state after.0 after.1 in
      (
        ap (m.find j) same ∙ m.find-set_ex now k j (Value.integer (ℤ.pos 1)) t s u p,
        ap m.up same ∙ m.up-set_ex now k (Value.integer (ℤ.pos 1)) t s ∙ u,
      )

  pub mark_flag-other :
      (now : ℕ) (k j : CacheKey) (t : ℕ) (s : m.Store)
      → m.up s ≡ true
      → same_key k j ≡ false
      → (m.find j (mark_flag m now k t s).1 ≡ m.find j s) × (m.up (mark_flag m now k t s).1 ≡ true)
  unfolding mark_flag attempt
  mark_flag-other now k j t s u d =
      let after = m.set_ex now k (Value.integer (ℤ.pos 1)) t s in
      let same = replied-state after.0 after.1 in
      (
        ap (m.find j) same ∙ m.find-set_ex_other now k j (Value.integer (ℤ.pos 1)) t s u d,
        ap m.up same ∙ m.up-set_ex now k (Value.integer (ℤ.pos 1)) t s ∙ u,
      )

  pub drop-find :
      (now : ℕ) (ks : List CacheKey) (j : CacheKey) (s : m.Store)
      → m.up s ≡ true
      → (m.find j (drop m now ks s).1 ≡ (if any (λ k. same_key k j) ks then none else m.find j s))
        × (m.up (drop m now ks s).1 ≡ true)
  unfolding drop attempt
  drop-find now ks j s u =
      let after = m.del now ks s in
      let same = or_fallback-state 0 after.0 after.1 in
      (ap (m.find j) same ∙ m.find-del now ks j s u, ap m.up same ∙ m.up-del now ks s ∙ u)

  or_fallback-returns :
      {A : Type 0} (a : A) (o : Option A) (s : m.Store)
      → (b : A) × ((or_fallback a (o, s)).0 ≡ ok b)
  unfolding or_fallback
  or_fallback-returns a none s = (a, refl)
  or_fallback-returns a (some b) s = (b, refl)

  pub drop-returns :
      (now : ℕ) (ks : List CacheKey) (s : m.Store) → (n : ℕ) × ((drop m now ks s).0 ≡ ok n)
  unfolding drop attempt
  drop-returns now ks s = or_fallback-returns 0 (m.del now ks s).0 (m.del now ks s).1
