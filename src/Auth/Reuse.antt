-- ===== src/Auth/Reuse.antt =====
-- src/services/auth.service.ts: `refreshSession` with a token that has been refreshed before.
use flowdeck_backend.Constants.AuthMessages
use flowdeck_backend.Auth.{
  Fresh, RequestContext, Session, has_hash, is_live_of, is_token, only_if, refresh_session, revoked,
}
use flowdeck_backend.Auth.Requests.{Reach, Reach-IsSpent}
use flowdeck_backend.Auth.Rotation.{
  IsNewHash, IsSpent, IsSpent-IsKept, active_account, count-revoked_one, is_open, new-other,
  refresh_session-inactive, refresh_session-replay, refresh_session-rotates,
  refresh_session-unsigned, rotated, usable_token,
}
use flowdeck_backend.Auth.Tokens.{Crypto, RefreshClaims, Verified, hash_token, verify_refresh_token}
use flowdeck_backend.Base.{
  Bool, List, Option, Option-cases, String, [], ap, arith, count, count-and, false, find,
  find-count_pos, find_unique, inl, inr, is_none, map_first, map_first-same, map_where, none, refl,
  some, sym, ℕ, ◌++◌, ◌∙◌, ◌∷◌, ◌≡◌, ◌≤◌,
}
use flowdeck_backend.Models.{Db, Models, RefreshToken, User, is_usable}
use flowdeck_backend.Security.{Env}
use flowdeck_backend.Store.{ApiError, err, ok, unauthorized}

count-first_open :
    (h : String) (now : ℕ) (ts : List RefreshToken)
    → count (has_hash h) ts ≤ 1
    → count (is_open h) (map_first (has_hash h) (revoked now) ts) ≡ 0
count-first_open h now [] u = refl
count-first_open h now (t ∷ ts) u =
    ground (arith, count-first_open h now ts, count-and (has_hash h) (λ t. is_none t.revoked_at) ts)

count-family :
    (family : String) (now : ℕ) (ts : List RefreshToken)
    → count (is_live_of family) (map_where (is_live_of family) (revoked now) ts) ≡ 0
count-family family now [] = refl
count-family family now (t ∷ ts) = ground (arith, count-family family now ts)

-- What the unique indexes on ids and on `tokenHash` ensure.
abbrev pub IsDistinct : List RefreshToken → Type 0
IsDistinct ts = ((i : ℕ) → count (is_token i) ts ≤ 1) × ((h : String) → count (has_hash h) ts ≤ 1)

-- The token that has been presented is revoked, and the one that is added has another hash.
spent :
    (h : String) (now : ℕ) (t new : RefreshToken) (ts : List RefreshToken)
    → IsDistinct ts
    → find (has_hash h) ts ≡ some t
    → has_hash h new ≡ false
    → IsSpent h (map_first (is_token t.id) (revoked now) ts ++ new ∷ [])
spent h now t new ts (ids, hashes) e o =
    let first = find_unique (has_hash h) (is_token t.id) ts t e (ground arith) (ids t.id) in
    let same = map_first-same (is_token t.id) (has_hash h) (revoked now) ts t first e in
    let there = find-count_pos (has_hash h) ts t e in
    let here = count-revoked_one h (has_hash h) now ts in
    let gone = count-first_open h now ts (hashes h) in
    (IsSpent-IsKept h).add new (map_first (is_token t.id) (revoked now) ts) o
      (rw same (ground (arith, there, here, gone)))

err-ne-ok : {A : Type 0} (e : ApiError) (a : A) → err e ≡ ok a → ⊥
err-ne-ok e a h = cc

not_usable :
    (now : ℕ) (h : String) (ts : List RefreshToken)
    → count (is_open h) ts ≡ 0
    → only_if (is_usable now) (find (has_hash h) ts) ≡ none
not_usable now h [] z = refl
not_usable now h (t ∷ ts) z = ground (arith, not_usable now h ts)

only_if-found :
    {A : Type 0} (p : A → Bool) (o : Option A) (a : A) → only_if p o ≡ some a → o ≡ some a
only_if-found p none a h = cc
only_if-found p (some b) a h = ground (arith, h)

module _ (env : Env) (crypto : Crypto) {m : Models} where
  -- The requests that a refresh answers with a session.
  abbrev Refreshed : ℕ → String → Db m → Type 0
  Refreshed now token db =
      (c : RefreshClaims) × (t : RefreshToken) × (u : User) × (verify_refresh_token crypto now token
        ≡ Verified.claims c)
      × (usable_token crypto now token db ≡ some t)
      × (active_account crypto c db ≡ some u)

  Refreshed-of :
      (now : ℕ) (fresh : Fresh) (token : String) (context : RequestContext) (db : Db m)
      (r : User × Session) (v : Verified RefreshClaims)
      → verify_refresh_token crypto now token ≡ v
      → (refresh_session env crypto now fresh token context db).0 ≡ ok r
      → Refreshed now token db
  Refreshed-of now fresh token context db r Verified.expired v h = absurd (
      err-ne-ok _ _ (
        sym (
          ap (λ r. r.0)
            (refresh_session-unsigned env crypto now fresh token context db
              (unauthorized AuthMessages.refresh_token_invalid) (rw v refl)))
        ∙ h))
  Refreshed-of now fresh token context db r Verified.invalid v h = absurd (
      err-ne-ok _ _ (
        sym (
          ap (λ r. r.0)
            (refresh_session-unsigned env crypto now fresh token context db
              (unauthorized AuthMessages.refresh_token_invalid) (rw v refl)))
        ∙ h))
  Refreshed-of now fresh token context db r (Verified.claims c) v h =
      elim (Option-cases (usable_token crypto now token db)) [
        | inl e ↦ absurd (
            err-ne-ok _ _ (
              sym
                (ap (λ r. r.0) (refresh_session-replay env crypto now fresh token context db c v e))
              ∙ h))
        | inr (t, e) ↦ elim (Option-cases (active_account crypto c db)) [
          | inl k ↦ absurd (
              err-ne-ok _ _ (
                sym (
                  ap (λ r. r.0)
                    (refresh_session-inactive env crypto now fresh token context db c t v e k))
                ∙ h))
          | inr (u, k) ↦ (c, t, u, v, e, k)
        ]
      ]

  refresh_session-IsSpent :
      (now : ℕ) (fresh : Fresh) (token : String) (context : RequestContext) (db : Db m)
      (r : User × Session)
      → IsDistinct (m.refresh_token.docs db.refresh_tokens)
      → IsNewHash env crypto now fresh db
      → (refresh_session env crypto now fresh token context db).0 ≡ ok r
      → IsSpent (hash_token crypto token) (
          m.refresh_token.docs
            (refresh_session env crypto now fresh token context db).1.refresh_tokens)
  unfolding rotated
  refresh_session-IsSpent now fresh token context db r d new h =
      let (c, t, u, v, e, k) = Refreshed-of now fresh token context db r _ refl h in
      let ts = m.refresh_token.docs db.refresh_tokens in
      let found = only_if-found (is_usable now) _ t e in
      let other =
        new-other (hash_token crypto token) _ ts (new u c.family)
          (find-count_pos (has_hash (hash_token crypto token)) ts t found) in
      rw
        (
          refresh_session-rotates env crypto now fresh token context db c t u v e k,
          m.refresh_token.docs-create _
              (m.refresh_token.update_one (is_token t.id) (revoked now) db.refresh_tokens),
          m.refresh_token.docs-update_one (is_token t.id) (revoked now) db.refresh_tokens,
        )
        (spent (hash_token crypto token) now t _ ts d found other)

  -- A refresh token is good for one new session. Once it has been refreshed, and whatever requests
  -- follow, to present it again while it has not expired is refused as invalid and revokes every
  -- session of its family. This is under the condition that ids and hashes of stored tokens are
  -- unique, as the indexes ensure.
  pub refresh_session-once :
      (now later : ℕ) (fresh fresh' : Fresh) (token : String) (context context' : RequestContext)
      (db db' : Db m) (r : User × Session) (c : RefreshClaims)
      → IsDistinct (m.refresh_token.docs db.refresh_tokens)
      → IsNewHash env crypto now fresh db
      → (refresh_session env crypto now fresh token context db).0 ≡ ok r
      → Reach env crypto (refresh_session env crypto now fresh token context db).1 db'
      → verify_refresh_token crypto later token ≡ Verified.claims c
      → ((refresh_session env crypto later fresh' token context' db').0
          ≡ err (unauthorized AuthMessages.refresh_token_invalid))
        × (count (is_live_of c.family) (
              m.refresh_token.docs
                (refresh_session env crypto later fresh' token context' db').1.refresh_tokens)
            ≡ 0)
  refresh_session-once now later fresh fresh' token context context' db db' r c d new h reach v =
      let h' = hash_token crypto token in
      let used = refresh_session-IsSpent now fresh token context db r d new h in
      let still = Reach-IsSpent env crypto h' reach used in
      let shut = not_usable later h' (m.refresh_token.docs db'.refresh_tokens) still.1 in
      rw
        (
          refresh_session-replay env crypto later fresh' token context' db' c v shut,
          m.refresh_token.docs-update_many (is_live_of c.family) (revoked later) db'.refresh_tokens,
        )
        (refl, count-family c.family later (m.refresh_token.docs db'.refresh_tokens))
