-- ===== src/Security/Addresses.antt =====
-- src/services/security.service.ts and src/helpers/network.ts: addresses that are blocked, and the
-- keys that stand for them.
use flowdeck_backend.Base.{
  Bool-cases, Option, [], ap, if◌then◌else◌, inl, inr, ltb, none, refl, same_codes_refl, some,
  subst, sym, true, ℕ, ◌+◌, ◌-◌, ◌<◌, ◌∙◌, ◌∷◌, ◌≡◌,
}
use flowdeck_backend.Cache.{CacheKey, Redis, Value, count_of, live, ℤ}
use flowdeck_backend.Cache.Counters.{
  count_of-eq, drop-find, has_flag-eq, mark_flag-find, same_key_refl, seconds_left-eq,
}
use flowdeck_backend.Security.{
  assert_ip_allowed, block, block_address, blocked_message, by_address, refuse_until,
  unblock_address,
}
use flowdeck_backend.Security.Network.{Address, client_key}
use flowdeck_backend.Store.{Keeps, Keeps-call, Keeps-pure, call-returns, err, ok, pure, reads, when}

abbrev ip_flag : Option Address → CacheKey
ip_flag address = CacheKey.blocked_ip (client_key address)

module _ (m : Redis) where
  IsFlagged : CacheKey → ℕ → m.Store → Type 0
  IsFlagged k until s =
      (m.up s ≡ true)
      × (m.find k s ≡ some (record { value = Value.integer (ℤ.pos 1); expires = some until }))

  ip_let_in :
      (now : ℕ) (address : Option Address) (s : m.Store)
      → m.up s ≡ true
      → live now (m.find (ip_flag address) s) ≡ none
      → assert_ip_allowed m now address s ≡ (ok tt, s)
  unfolding assert_ip_allowed pure when
  ip_let_in now address s u h =
      call-returns _ _ s _ s (has_flag-eq m now (ip_flag address) s u) ∙ (rw h refl)

  ip_refused :
      (now until : ℕ) (address : Option Address) (s : m.Store)
      → m.up s ≡ true
      → live now (m.find (ip_flag address) s)
        ≡ some (record { value = Value.integer (ℤ.pos 1); expires = some until })
      → assert_ip_allowed m now address s ≡ (err (blocked_message (until - now)), s)
  unfolding assert_ip_allowed refuse_until reads when
  ip_refused now until address s u h =
      call-returns _ _ s _ s (has_flag-eq m now (ip_flag address) s u)
      ∙ (rw h (call-returns _ _ s _ s (seconds_left-eq m now (ip_flag address) s u) ∙ (rw h refl)))

  flagged_verdict :
      (now until : ℕ) (address : Option Address) (s : m.Store)
      → IsFlagged (ip_flag address) until s
      → (assert_ip_allowed m now address s).0
        ≡ (if ltb now until then err (blocked_message (until - now)) else ok tt)
  unfolding IsFlagged
  flagged_verdict now until address s (u, e) = elim (Bool-cases (ltb now until)) [
    | inl early ↦
        ap (λ r. r.0) (ip_refused now until address s u (rw (e, early) refl)) ∙ (rw early refl)
    | inr late ↦ ap (λ r. r.0) (ip_let_in now address s u (rw (e, late) refl)) ∙ (rw late refl)
  ]

  block-IsFlagged :
      (now : ℕ) (ip : Address) (seconds : ℕ) (s : m.Store)
      → m.up s ≡ true
      → 0 < seconds
      → Keeps (IsFlagged (CacheKey.blocked_ip ip) (now + seconds)) (block m now ip seconds) s
  unfolding block IsFlagged
  block-IsFlagged now ip seconds s u p =
      let k = CacheKey.blocked_ip ip in
      let (found, up) = mark_flag-find m now k k seconds s u p in
      Keeps-call (IsFlagged k (now + seconds)) _ _ s
        (record { at = (up, rw (found, same_key_refl k) refl) })
        (λ _ s' h. Keeps-pure (IsFlagged k (now + seconds)) _ s' h)

  -- While Redis answers, an address that is blocked for some seconds, one at least, and each other with the same key,
  -- is refused until they have passed, with the seconds that are left, and is let in from then on.
  pub block_address-refuses :
      (now : ℕ) (address : Address) (seconds later : ℕ) (from : Option Address) (s : m.Store)
      → m.up s ≡ true
      → 0 < seconds
      → client_key from ≡ client_key (some address)
      → (assert_ip_allowed m later from (block_address m now address seconds s).1).0 ≡ (
          if ltb later (now + seconds)
          then err (blocked_message (now + seconds - later))
          else ok tt)
  unfolding block_address
  block_address-refuses now address seconds later from s u p same =
      flagged_verdict later (now + seconds) from _
        (subst (λ ip. P ip (block_address m now address seconds s).1) (sym same) blocked.at)
    where
      P : Address → m.Store → Type 0
      P ip = IsFlagged (CacheKey.blocked_ip ip) (now + seconds)

      blocked : Keeps (P (client_key (some address))) (block_address m now address seconds) s
      blocked =
          Keeps-call (P (client_key (some address))) _ _ s (block-IsFlagged now _ seconds s u p)
            (λ _ s' h. Keeps-pure (P (client_key (some address))) _ s' h)

  IsCleared : Address → m.Store → Type 0
  IsCleared ip s =
      (m.up s ≡ true)
      × (m.find (CacheKey.blocked_ip ip) s ≡ none)
      × (m.find (CacheKey.login_failures_by_ip ip) s ≡ none)

  -- While Redis answers, an address that is unblocked is let in at once, with each other that has the
  -- same key, and none of its failed attempts counts any more.
  pub unblock_address-lets_in :
      (now : ℕ) (address : Address) (later : ℕ) (from : Option Address) (s : m.Store)
      → m.up s ≡ true
      → client_key from ≡ client_key (some address)
      → (assert_ip_allowed m later from (unblock_address m now address s).1
          ≡ (ok tt, (unblock_address m now address s).1))
        × (count_of m later (by_address from) (unblock_address m now address s).1
            ≡ (ok (ℤ.pos 0), (unblock_address m now address s).1))
  unfolding unblock_address IsCleared
  unblock_address-lets_in now address later from s u same =
      let (up, flag, failed) =
        subst (λ ip. IsCleared ip (unblock_address m now address s).1) (sym same) cleared.at in
      (
        ip_let_in later from _ up (rw flag refl),
        count_of-eq m later (by_address from) _ up ∙ (rw failed refl),
      )
    where
      ip : Address
      ip = client_key (some address)

      cleared : Keeps (IsCleared ip) (unblock_address m now address) s
      cleared =
          let keys = CacheKey.blocked_ip ip ∷ CacheKey.login_failures_by_ip ip ∷ [] in
          let (flag, up) = drop-find m now keys (CacheKey.blocked_ip ip) s u in
          let (failed, _) = drop-find m now keys (CacheKey.login_failures_by_ip ip) s u in
          Keeps-call (IsCleared ip) _ _ s
            (record {
              at = (up, rw (flag, same_codes_refl ip) refl, rw (failed, same_codes_refl ip) refl);
            })
            (λ _ s' h. Keeps-pure (IsCleared ip) _ s' h)
