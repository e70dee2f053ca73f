-- ===== src/Auth/Rotation.antt =====
-- src/services/auth.service.ts: a refresh token works at most once.
use flowdeck_backend.Constants.AuthMessages
use flowdeck_backend.Auth.{
  Fresh, RequestContext, Session, claims_of, has_hash, is_live_of, is_token, is_user, issue_session,
  only_if, or_revoke, refresh_session, revoke_family, revoke_where, revoked, save_token,
  stored_token,
}
use flowdeck_backend.Auth.Revoking.{IsKept}
use flowdeck_backend.Auth.Tokens.{
  Crypto, RefreshClaims, Verified, hash_token, sign_access_token, sign_refresh_token,
  verify_refresh_token,
}
use flowdeck_backend.Base.{
  Bool, Bool-cases, List, Option, String, [], arith, count, count-append, false, find, inl, inr,
  is_none, map_first, map_where, none, refl, same_text, same_text_eq, some, subst, ℕ, ◌&&◌, ◌∙◌,
  ◌∷◌, ◌≡◌, ◌≤◌,
}
use flowdeck_backend.Models.{Db, Models, RefreshToken, User, is_active, is_usable}
use flowdeck_backend.Security.{Env}
use flowdeck_backend.Store.{
  ApiError, Exec, call-raises, call-returns, err, forbidden, modify, ok, pure, reads, reads-raises,
  reads-returns, unauthorized, when, ◌>>=◌, ◌>>◌,
}

abbrev pub is_open : String → RefreshToken → Bool
is_open h t = has_hash h t && is_none t.revoked_at

-- A token with this hash is stored, and none with it is open.
abbrev pub IsSpent : String → List RefreshToken → Type 0
IsSpent h ts = (1 ≤ count (has_hash h) ts) × (count (is_open h) ts ≡ 0)

abbrev pub IsOther : String → RefreshToken → Type 0
IsOther h t = has_hash h t ≡ false

pub count-revoked_one :
    (h : String) (p : RefreshToken → Bool) (now : ℕ) (ts : List RefreshToken)
    → (count (has_hash h) (map_first p (revoked now) ts) ≡ count (has_hash h) ts)
      × (count (is_open h) (map_first p (revoked now) ts) ≤ count (is_open h) ts)
count-revoked_one h p now [] = ground arith
count-revoked_one h p now (t ∷ ts) = ground (arith, count-revoked_one h p now ts)

count-revoked_many :
    (h : String) (p : RefreshToken → Bool) (now : ℕ) (ts : List RefreshToken)
    → (count (has_hash h) (map_where p (revoked now) ts) ≡ count (has_hash h) ts)
      × (count (is_open h) (map_where p (revoked now) ts) ≤ count (is_open h) ts)
count-revoked_many h p now [] = ground arith
count-revoked_many h p now (t ∷ ts) = ground (arith, count-revoked_many h p now ts)

pub IsSpent-IsKept : (h : String) → IsKept (IsSpent h) (IsOther h)
IsSpent-IsKept h = record {
  one = λ p now ts s. let c = count-revoked_one h p now ts in ground (arith, c, s);
  many = λ p now ts s. let c = count-revoked_many h p now ts in ground (arith, c, s);
  add = λ t ts o s.
      let c = count-append (has_hash h) ts (t ∷ []) in
      let d = count-append (is_open h) ts (t ∷ []) in ground (arith, c, d, s, o);
}

-- Whoever creates a token gives it a hash that no stored token has.
abbrev pub IsNewHash : Env → Crypto → ℕ → Fresh → {m : Models} → Db m → Type 0
IsNewHash env crypto now fresh {m} db =
    (u : User) (family : String)
    → count
        (has_hash (hash_token crypto (sign_refresh_token env crypto now fresh.jti u family).token))
        (m.refresh_token.docs db.refresh_tokens)
      ≡ 0

pub new-other :
    (h k : String) (ts : List RefreshToken)
    → count (has_hash k) ts ≡ 0
    → 1 ≤ count (has_hash h) ts
    → same_text k h ≡ false
new-other h k ts z c = elim (Bool-cases (same_text k h)) [
  | inl e ↦
      let same = same_text_eq k h e in
      let none_new = subst (λ k. count (has_hash k) ts ≡ 0) same z in ground (arith, none_new, c)
  | inr e ↦ e
]

module _ {m : Models} where
  or_revoke-some :
      {A : Type 0} (now : ℕ) (family : String) (o : Option A) (e : ApiError) (a : A) (db : Db m)
      → o ≡ some a
      → or_revoke now family o e db ≡ (ok a, db)
  unfolding or_revoke when pure reads ◌>>=◌
  or_revoke-some now family o e a db h = rw h refl

  or_revoke-none :
      {A : Type 0} (now : ℕ) (family : String) (o : Option A) (e : ApiError) (db : Db m)
      → o ≡ none
      → or_revoke now family o e db ≡ (err e, revoke_where (is_live_of family) now db)
  unfolding or_revoke when revoke_family modify reads ◌>>=◌
  or_revoke-none now family o e db h = rw h refl

module _ (crypto : Crypto) {m : Models} where
  -- The token that the request presents, if it can still be used, and the account of its claims.
  abbrev pub usable_token : ℕ → String → Db m → Option RefreshToken
  usable_token now token db =
      only_if (is_usable now)
        (find (has_hash (hash_token crypto token)) (m.refresh_token.docs db.refresh_tokens))

  abbrev pub active_account : RefreshClaims → Db m → Option User
  active_account c db = only_if is_active (find (is_user c.sub) (m.user.docs db.users))

module _ (env : Env) (crypto : Crypto) where
  unfoldable pub session_for : ℕ → Fresh → String → User → Session
  session_for now fresh family u = record {
    access_token = sign_access_token env crypto now u;
    refresh_token = (sign_refresh_token env crypto now fresh.jti u family).token;
    token_type = "Bearer";
    expires_in = env.access_token_ttl;
  }

module _ (env : Env) (crypto : Crypto) {m : Models} where
  pub refresh_session-unsigned :
      (now : ℕ) (fresh : Fresh) (token : String) (context : RequestContext) (db : Db m)
      (e : ApiError)
      → claims_of
          (verify_refresh_token crypto now token)
          (unauthorized AuthMessages.refresh_token_invalid)
        ≡ err e
      → refresh_session env crypto now fresh token context db ≡ (err e, db)
  unfolding refresh_session
  refresh_session-unsigned now fresh token context db e h = reads-raises _ _ db e h

  pub refresh_session-replay :
      (now : ℕ) (fresh : Fresh) (token : String) (context : RequestContext) (db : Db m)
      (c : RefreshClaims)
      → verify_refresh_token crypto now token ≡ Verified.claims c
      → usable_token crypto now token db ≡ none
      → refresh_session env crypto now fresh token context db ≡ (
        err (unauthorized AuthMessages.refresh_token_invalid),
        revoke_where (is_live_of c.family) now db,
      )
  unfolding refresh_session
  refresh_session-replay now fresh token context db c v h =
      reads-returns _ _ db c (rw v refl)
      ∙ reads-returns _ _ db _ refl
      ∙ call-raises _ _ db _ _ (
          or_revoke-none now c.family _ _ db (
            rw (m.refresh_token.find_one_lem (has_hash (hash_token crypto token)) db.refresh_tokens)
              h))

  pub refresh_session-inactive :
      (now : ℕ) (fresh : Fresh) (token : String) (context : RequestContext) (db : Db m)
      (c : RefreshClaims) (t : RefreshToken)
      → verify_refresh_token crypto now token ≡ Verified.claims c
      → usable_token crypto now token db ≡ some t
      → active_account crypto c db ≡ none
      → refresh_session env crypto now fresh token context db ≡ (
        err (forbidden AuthMessages.account_not_active),
        revoke_where (is_live_of c.family) now db,
      )
  unfolding refresh_session
  refresh_session-inactive now fresh token context db c t v h k =
      reads-returns _ _ db c (rw v refl)
      ∙ reads-returns _ _ db _ refl
      ∙ call-returns _ _ db t db (
          or_revoke-some now c.family _ _ t db (
            rw (m.refresh_token.find_one_lem (has_hash (hash_token crypto token)) db.refresh_tokens)
              h))
      ∙ reads-returns _ _ db _ refl
      ∙ call-raises _ _ db _ _
          (or_revoke-none now c.family _ _ db (rw (m.user.find_one_lem (is_user c.sub) db.users) k))

  -- What a refresh that is carried out leaves.
  unfoldable pub rotated :
      ℕ → Fresh → RequestContext → RefreshClaims → RefreshToken → User → Db m → Db m
  rotated now fresh context c t u db =
      save_token
        (stored_token crypto fresh.id now (sign_refresh_token env crypto now fresh.jti u c.family) u
          context)
        (record db {
          refresh_tokens =
              m.refresh_token.update_one (is_token t.id) (revoked now) db.refresh_tokens;
        })

  -- The end of `refreshSession`.
  abbrev finish :
      ℕ
      → Fresh
      → RequestContext
      → RefreshClaims
      → RefreshToken
      → User
      → Exec (Db m) (User × Session)
  finish now fresh context c t u = do
    modify (λ db. record db {
      refresh_tokens = m.refresh_token.update_one (is_token t.id) (revoked now) db.refresh_tokens;
    })
    session ← issue_session env crypto now fresh u context c.family
    pure (u, session)

  rotated_run :
      (now : ℕ) (fresh : Fresh) (context : RequestContext) (c : RefreshClaims) (t : RefreshToken)
      (u : User) (db : Db m)
      → finish now fresh context c t u db
        ≡ (ok (u, session_for env crypto now fresh c.family u), rotated now fresh context c t u db)
  unfolding modify issue_session rotated session_for pure ◌>>=◌
  rotated_run now fresh context c t u db = refl

  pub refresh_session-rotates :
      (now : ℕ) (fresh : Fresh) (token : String) (context : RequestContext) (db : Db m)
      (c : RefreshClaims) (t : RefreshToken) (u : User)
      → verify_refresh_token crypto now token ≡ Verified.claims c
      → usable_token crypto now token db ≡ some t
      → active_account crypto c db ≡ some u
      → refresh_session env crypto now fresh token context db
        ≡ (ok (u, session_for env crypto now fresh c.family u), rotated now fresh context c t u db)
  unfolding refresh_session
  refresh_session-rotates now fresh token context db c t u v h k =
      reads-returns _ _ db c (rw v refl)
      ∙ reads-returns _ _ db _ refl
      ∙ call-returns _ _ db t db (
          or_revoke-some now c.family _ _ t db (
            rw (m.refresh_token.find_one_lem (has_hash (hash_token crypto token)) db.refresh_tokens)
              h))
      ∙ reads-returns _ _ db _ refl
      ∙ call-returns _ _ db u db (
          or_revoke-some now c.family _ _ u db
            (rw (m.user.find_one_lem (is_user c.sub) db.users) k))
      ∙ rotated_run now fresh context c t u db
