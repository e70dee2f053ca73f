-- ===== src/Auth/Revoking.antt =====
-- src/services/auth.service.ts: the requests only revoke the stored refresh tokens, and add new ones.
-- What revoking keeps, and adding a token that is allowed.
use flowdeck_backend.Auth.{
  Fresh, RegisterInput, RequestContext, UpdateProfileInput, change_password, has_hash, is_live_of,
  is_open_session, is_session_of, is_token, issue_session, login, logout, logout_everywhere,
  or_revoke, refresh_session, register, revoke_family, revoke_session, revoke_where, revoked,
  stored_token, update_profile,
}
use flowdeck_backend.Auth.Tokens.{Crypto, hash_token, sign_refresh_token}
use flowdeck_backend.Base.{Bool, List, Option, String, [], map_first, map_where, ℕ, ◌++◌, ◌∷◌}
use flowdeck_backend.Models.{Db, Models, RefreshToken, User, on_cache}
use flowdeck_backend.Security.{Env}
use flowdeck_backend.Store.{
  ApiError, Exec, Keeps, Keeps-call, Keeps-gets, Keeps-guard, Keeps-modify, Keeps-pure, Keeps-reads,
  Keeps-when, modify, reads,
}

pub record IsKept (R : List RefreshToken → Type 0) (Allowed : RefreshToken → Type 0) : Type 0 where
  pub one :
      (p : RefreshToken → Bool) (now : ℕ) (ts : List RefreshToken)
      → R ts
      → R (map_first p (revoked now) ts)
  pub many :
      (p : RefreshToken → Bool) (now : ℕ) (ts : List RefreshToken)
      → R ts
      → R (map_where p (revoked now) ts)
  pub add : (t : RefreshToken) (ts : List RefreshToken) → Allowed t → R ts → R (ts ++ t ∷ [])

-- Whoever a session is for, and of whatever family, its token is allowed.
abbrev pub Issues : (Env → Crypto → (RefreshToken → Type 0) → ℕ → Fresh → RequestContext → Type 0)
Issues env crypto Allowed now fresh context =
    (u : User) (family : String)
    → Allowed (
        stored_token crypto fresh.id now (sign_refresh_token env crypto now fresh.jti u family) u
          context)

module _ {m : Models} (R : List RefreshToken → Type 0) (Allowed : RefreshToken → Type 0)
    (kept : IsKept R Allowed) where
  abbrev pub Holds : Db m → Type 0
  Holds db = R (m.refresh_token.docs db.refresh_tokens)

  revoked_one :
      (p : RefreshToken → Bool) (now : ℕ) (db : Db m)
      → Holds db
      → Holds (record db {
        refresh_tokens = m.refresh_token.update_one p (revoked now) db.refresh_tokens;
      })
  revoked_one p now db h =
      rw (m.refresh_token.docs-update_one p (revoked now) db.refresh_tokens) (kept.one p now _ h)

  revoked_many :
      (p : RefreshToken → Bool) (now : ℕ) (db : Db m) → Holds db → Holds (revoke_where p now db)
  revoked_many p now db h =
      rw (m.refresh_token.docs-update_many p (revoked now) db.refresh_tokens) (kept.many p now _ h)

  on_cache-Keeps :
      {A : Type 0} (a : Exec m.redis.Store A) (db : Db m) → Holds db → Keeps Holds (on_cache a) db
  unfolding on_cache
  on_cache-Keeps a db h = record { at = h }

  revoke_family-Keeps :
      (now : ℕ) (family : String) (db : Db m) → Holds db → Keeps Holds (revoke_family now family) db
  unfolding revoke_family modify
  revoke_family-Keeps now family db h = record { at = revoked_many (is_live_of family) now db h }

  or_revoke-Keeps :
      {A : Type 0} (now : ℕ) (family : String) (o : Option A) (e : ApiError) (db : Db m)
      → Holds db
      → Keeps Holds (or_revoke now family o e) db
  unfolding or_revoke reads
  or_revoke-Keeps now family o e db h =
      Keeps-call Holds _ _ db (Keeps-when Holds _ _ db h (revoke_family-Keeps now family db h))
        λ _ s hs. record { at = hs }

  pub logout_everywhere-Keeps :
      (now u : ℕ) (db : Db m) → Holds db → Keeps Holds (logout_everywhere now u) db
  unfolding logout_everywhere
  logout_everywhere-Keeps now u db h = Keeps-gets Holds _ _ db (
      Keeps-modify Holds _ _ db
        (Keeps-modify Holds _ _ _ (Keeps-pure Holds _ _ (revoked_many (is_session_of u) now db h))))

  pub revoke_session-Keeps :
      (now u id : ℕ) (db : Db m) → Holds db → Keeps Holds (revoke_session now u id) db
  unfolding revoke_session
  revoke_session-Keeps now u id db h = Keeps-reads Holds _ _ db h λ t _.
      Keeps-modify Holds _ _ db (Keeps-pure Holds _ _ (revoked_one (is_open_session id u) now db h))

  pub update_profile-Keeps :
      (u : ℕ) (payload : UpdateProfileInput) (db : Db m)
      → Holds db
      → Keeps Holds (update_profile u payload) db
  unfolding update_profile
  update_profile-Keeps u payload db h =
      Keeps-reads Holds _ _ db h λ _ _. Keeps-modify Holds _ _ db (Keeps-pure Holds _ _ h)

module _ (crypto : Crypto) {m : Models} (R : List RefreshToken → Type 0)
    (Allowed : RefreshToken → Type 0) (kept : IsKept R Allowed) where
  abbrev HoldsIn : Db m → Type 0
  HoldsIn db = R (m.refresh_token.docs db.refresh_tokens)

  pub logout-Keeps :
      (now : ℕ) (token : Option String) (db : Db m)
      → HoldsIn db
      → Keeps HoldsIn (logout crypto now token) db
  unfolding logout modify
  logout-Keeps now token db h =
      Keeps-reads HoldsIn _ _ db h
        λ t _. record { at = revoked_one R Allowed kept (has_hash (hash_token crypto t)) now db h }

  pub change_password-Keeps :
      (now : ℕ) (salt : String) (u : ℕ) (current_password new_password : String) (db : Db m)
      → HoldsIn db
      → Keeps HoldsIn (change_password crypto now salt u current_password new_password) db
  unfolding change_password
  change_password-Keeps now salt u current_password new_password db h = Keeps-gets HoldsIn _ _ db (
      Keeps-reads HoldsIn _ _ db h λ a _. Keeps-modify HoldsIn _ _ db (
        Keeps-call HoldsIn _ _ _ (logout_everywhere-Keeps R Allowed kept now u _ h)
          λ _ s hs. Keeps-pure HoldsIn _ s hs))

module _ (env : Env) (crypto : Crypto) {m : Models} (R : List RefreshToken → Type 0)
    (Allowed : RefreshToken → Type 0) (kept : IsKept R Allowed) where
  abbrev Kept : Db m → Type 0
  Kept db = R (m.refresh_token.docs db.refresh_tokens)

  issue_session-Keeps :
      (now : ℕ) (fresh : Fresh) (u : User) (context : RequestContext) (family : String) (db : Db m)
      → Issues env crypto Allowed now fresh context
      → Kept db
      → Keeps Kept (issue_session env crypto now fresh u context family) db
  unfolding issue_session
  issue_session-Keeps now fresh u context family db allowed h = Keeps-modify Kept _ _ db (
      Keeps-pure Kept _ _
        (rw (m.refresh_token.docs-create _ db.refresh_tokens) (kept.add _ _ (allowed u family) h)))

  pub register-Keeps :
      (id now : ℕ) (salt : String) (fresh : Fresh) (family : String) (payload : RegisterInput)
      (context : RequestContext) (db : Db m)
      → Issues env crypto Allowed now fresh context
      → Kept db
      → Keeps Kept (register env crypto id now salt fresh family payload context) db
  unfolding register
  register-Keeps id now salt fresh family payload context db allowed h = Keeps-gets Kept _ _ db (
      Keeps-guard Kept _ _ _ db h λ _. Keeps-modify Kept _ _ db (
        Keeps-call Kept _ _ _ (issue_session-Keeps now fresh _ context family _ allowed h)
          λ _ s hs. Keeps-pure Kept _ s hs))

  pub login-Keeps :
      (now : ℕ) (fresh : Fresh) (family email password : String) (context : RequestContext)
      (db : Db m)
      → Issues env crypto Allowed now fresh context
      → Kept db
      → Keeps Kept (login env crypto now fresh family email password context) db
  unfolding login reads
  login-Keeps now fresh family email password context db allowed h =
      Keeps-call Kept _ _ db (on_cache-Keeps R Allowed kept _ db h) λ _ s₁ h₁.
        Keeps-gets Kept _ _ s₁ (
          Keeps-call Kept _ _ s₁
            (Keeps-when Kept _ _ s₁ h₁ (
              Keeps-call Kept _ _ s₁ (on_cache-Keeps R Allowed kept _ s₁ h₁)
                λ _ s hs. record { at = hs }))
            λ _ s₂ h₂. Keeps-reads Kept _ _ s₂ h₂ λ u _. Keeps-guard Kept _ _ _ s₂ h₂ λ _.
              Keeps-call Kept _ _ s₂ (on_cache-Keeps R Allowed kept _ s₂ h₂) λ _ s₃ h₃.
                Keeps-modify Kept _ _ s₃ (
                  Keeps-call Kept _ _ _
                    (issue_session-Keeps now fresh _ context family _ allowed h₃)
                    λ _ s hs. Keeps-pure Kept _ s hs))

  pub refresh_session-Keeps :
      (now : ℕ) (fresh : Fresh) (token : String) (context : RequestContext) (db : Db m)
      → Issues env crypto Allowed now fresh context
      → Kept db
      → Keeps Kept (refresh_session env crypto now fresh token context) db
  unfolding refresh_session
  refresh_session-Keeps now fresh token context db allowed h = Keeps-reads Kept _ _ db h λ claims _.
      Keeps-gets Kept _ _ db (
        Keeps-call Kept _ _ db (or_revoke-Keeps R Allowed kept now claims.family _ _ db h)
          λ t s₁ h₁. Keeps-gets Kept _ _ s₁ (
            Keeps-call Kept _ _ s₁ (or_revoke-Keeps R Allowed kept now claims.family _ _ s₁ h₁)
              λ u s₂ h₂. Keeps-modify Kept _ _ s₂ (
                Keeps-call Kept _ _ _
                  (issue_session-Keeps now fresh _ context claims.family _ allowed
                    (revoked_one R Allowed kept (is_token t.id) now s₂ h₂))
                  λ _ s hs. Keeps-pure Kept _ s hs)))
