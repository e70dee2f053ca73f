-- ===== src/Auth.antt =====
-- src/services/auth.service.ts: accounts, sign-in and the sessions that refresh tokens stand for.
-- `now`, the ids of new documents, salts and random ids are arguments.
pub mod Tokens
pub mod Identity
pub mod Access
pub mod Ending
pub mod Revoking
pub mod Rotation
pub mod Requests
pub mod SignIn
pub mod Reuse
pub mod Plain
mod Tests
use flowdeck_backend.Constants.AuthMessages
use flowdeck_backend.Auth.Tokens.{
  Crypto, SignedRefresh, Verified, hash_token, sign_access_token, sign_refresh_token,
  verify_refresh_token,
}
use flowdeck_backend.Base.{
  Bool, Option, String, get_or, if◌then◌else◌, is_none, none, not, same_text, some, ℕ, ◌&&◌, ◌+◌,
  ◌/◌, ◌==◌,
}
use flowdeck_backend.Models.{
  AccountStatus, Db, Models, RefreshToken, SystemRole, User, is_active, is_usable, on_cache,
}
use flowdeck_backend.Security.{
  Env, assert_login_allowed, clear_login_failures, record_login_failure,
}
use flowdeck_backend.Security.Network.{Address}
use flowdeck_backend.Store.{
  ApiError, Exec, Result, bad_request, conflict, err, forbidden, gets, modify, not_found, ok,
  or_raise, pure, raise_if, reads, unauthorized, when, ◌>>=◌, ◌>>◌,
}
use flowdeck_backend.Workspaces.Members.{has_email}

pub record RequestContext : Type 0 where
  pub ip : Option Address
  pub user_agent : Option String

pub record Session : Type 0 where
  pub access_token : String
  pub refresh_token : String
  pub token_type : String
  pub expires_in : ℕ

-- What is new in a session: the id of its document, and the random `jti`.
pub record Fresh : Type 0 where
  pub id : ℕ
  pub jti : String

pub record RegisterInput : Type 0 where
  pub name : String
  pub email : String
  pub password : String

pub record UpdateProfileInput : Type 0 where
  pub name : Option String
  pub avatar_url : Option String

abbrev pub is_user : ℕ → User → Bool
is_user u d = d.id == u

abbrev pub has_hash : String → RefreshToken → Bool
has_hash h d = same_text d.token_hash h

abbrev pub is_live_of : String → RefreshToken → Bool
is_live_of family d = same_text d.family family && is_none d.revoked_at

abbrev pub is_session_of : ℕ → RefreshToken → Bool
is_session_of u d = d.user == u && is_none d.revoked_at

abbrev pub is_token : ℕ → RefreshToken → Bool
is_token id d = d.id == id

abbrev pub is_open_session : ℕ → ℕ → RefreshToken → Bool
is_open_session id u d = d.id == id && d.user == u && is_none d.revoked_at

abbrev pub revoked : ℕ → RefreshToken → RefreshToken
revoked now d = record d { revoked_at = some now }

abbrev pub next_version : User → User
next_version d = record d { token_version = d.token_version + 1 }

abbrev pub signed_in : ℕ → User → User
signed_in now d = record d { last_login_at = some now }

-- `find`, and then a test of what was found
abbrev pub only_if {ℓ} : {A : Type ℓ} → (A → Bool) → Option A → Option A
only_if p none = none
only_if p (some a) = if p a then some a else none

abbrev pub claims_of : {A : Type 0} → Verified A → ApiError → Result A
claims_of (Verified.claims c) e = ok c
claims_of Verified.expired e = err e
claims_of Verified.invalid e = err e

module _ (crypto : Crypto) where
  -- `userSchema.pre('save')` hashes a password that is new.
  abbrev pub with_password : ℕ → String → String → User → User
  with_password now salt password d = record d {
    password = crypto.hash_password salt password;
    password_changed_at = some now;
  }

  abbrev pub new_account : ℕ → ℕ → String → RegisterInput → User
  new_account id now salt payload = record {
    id = id;
    name = payload.name;
    email = payload.email;
    password = crypto.hash_password salt payload.password;
    avatar_url = none;
    role = SystemRole.user;
    status = AccountStatus.active;
    last_login_at = none;
    password_changed_at = some now;
    token_version = 0;
  }

  abbrev pub stored_token : ℕ → ℕ → SignedRefresh → User → RequestContext → RefreshToken
  stored_token id now refresh u context = record {
    id = id;
    user = u.id;
    token_hash = hash_token crypto refresh.token;
    family = refresh.family;
    user_agent = context.user_agent;
    ip = context.ip;
    expires_at = refresh.expires_at;
    revoked_at = none;
    created_at = now;
  }

  -- `verifyPassword`
  abbrev pub verify_password : String → User → Bool
  verify_password password d = crypto.compare_password password d.password

module _ {m : Models} where
  abbrev pub save_token : RefreshToken → Db m → Db m
  save_token t db = record db { refresh_tokens = m.refresh_token.create t db.refresh_tokens }

module _ (env : Env) (crypto : Crypto) {m : Models} where
  unfoldable pub issue_session : ℕ → Fresh → User → RequestContext → String → Exec (Db m) Session
  issue_session now fresh u context family = do
    let refresh = sign_refresh_token env crypto now fresh.jti u family
    modify (save_token (stored_token crypto fresh.id now refresh u context))
    pure (record {
      access_token = sign_access_token env crypto now u;
      refresh_token = refresh.token;
      token_type = "Bearer";
      expires_in = env.access_token_ttl;
    })

module _ {m : Models} where
  abbrev pub revoke_where : (RefreshToken → Bool) → ℕ → Db m → Db m
  revoke_where p now db = record db {
    refresh_tokens = m.refresh_token.update_many p (revoked now) db.refresh_tokens;
  }

  unfoldable pub revoke_family : ℕ → String → Exec (Db m) (Unit {0})
  revoke_family now family = modify (revoke_where (is_live_of family) now)

  -- `revokeFamily`, and `throw`, when nothing was found
  unfoldable pub or_revoke : {A : Type 0} → ℕ → String → Option A → ApiError → Exec (Db m) A
  or_revoke now family found error = do
    when (is_none found) (revoke_family now family)
    reads (λ _. or_raise found error)

  abbrev pub update_user : ℕ → (User → User) → Db m → Db m
  update_user u f db = record db { users = m.user.update_one (is_user u) f db.users }

module _ (env : Env) (crypto : Crypto) {m : Models} where
  unfoldable pub register :
      ℕ
      → ℕ
      → String
      → Fresh
      → String
      → RegisterInput
      → RequestContext
      → Exec (Db m) (User × Session)
  register id now salt fresh family payload context = do
    taken ← gets (λ db. m.user.find_one (has_email payload.email) db.users)
    raise_if (not (is_none taken)) (conflict AuthMessages.email_taken)
    let u = new_account crypto id now salt payload
    modify (λ db. record db { users = m.user.create u db.users })
    session ← issue_session env crypto now fresh u context family
    pure (u, session)

  -- The clock of Redis counts seconds.
  unfoldable pub login :
      ℕ → Fresh → String → String → String → RequestContext → Exec (Db m) (User × Session)
  login now fresh family email password context = do
    on_cache (assert_login_allowed env m.redis (now / 1000) email context.ip)
    found ← gets (λ db. m.user.find_one (has_email email) db.users)
    let known = only_if (verify_password crypto password) found
    when (is_none known) (
        on_cache (record_login_failure env m.redis (now / 1000) email context.ip)
        >> reads (λ _. err (unauthorized AuthMessages.invalid_credentials)))
    u ← reads (λ _. or_raise known (unauthorized AuthMessages.invalid_credentials))
    raise_if (not (is_active u)) (forbidden AuthMessages.account_not_active)
    on_cache (clear_login_failures m.redis (now / 1000) email context.ip)
    modify (update_user u.id (signed_in now))
    session ← issue_session env crypto now fresh (signed_in now u) context family
    pure (signed_in now u, session)

  unfoldable pub refresh_session :
      ℕ → Fresh → String → RequestContext → Exec (Db m) (User × Session)
  refresh_session now fresh token context = do
    claims ← reads (λ _.
        claims_of (verify_refresh_token crypto now token)
          (unauthorized AuthMessages.refresh_token_invalid))
    stored ←
        gets (λ db. m.refresh_token.find_one (has_hash (hash_token crypto token)) db.refresh_tokens)
    t ←
        or_revoke now claims.family (only_if (is_usable now) stored)
          (unauthorized AuthMessages.refresh_token_invalid)
    found ← gets (λ db. m.user.find_one (is_user claims.sub) db.users)
    u ←
        or_revoke now claims.family (only_if is_active found)
          (forbidden AuthMessages.account_not_active)
    modify (λ db. record db {
      refresh_tokens = m.refresh_token.update_one (is_token t.id) (revoked now) db.refresh_tokens;
    })
    session ← issue_session env crypto now fresh u context claims.family
    pure (u, session)

module _ (crypto : Crypto) {m : Models} where
  unfoldable pub logout : ℕ → Option String → Exec (Db m) (Unit {0})
  logout now token = do
    t ← reads (λ _.
        or_raise (only_if (λ t. not (same_text t "")) token)
          (bad_request AuthMessages.refresh_token_required))
    modify (λ db. record db {
      refresh_tokens =
          m.refresh_token.update_one (has_hash (hash_token crypto t)) (revoked now)
            db.refresh_tokens;
    })
  -- It returns how many sessions it revokes.

module _ {m : Models} where
  unfoldable pub logout_everywhere : ℕ → ℕ → Exec (Db m) ℕ
  logout_everywhere now u = do
    n ← gets (λ db. m.refresh_token.count_documents (is_session_of u) db.refresh_tokens)
    modify (revoke_where (is_session_of u) now)
    modify (update_user u next_version)
    pure n

module _ (crypto : Crypto) {m : Models} where
  unfoldable pub change_password : ℕ → String → ℕ → String → String → Exec (Db m) User
  change_password now salt u current_password new_password = do
    found ← gets (λ db. m.user.find_one (is_user u) db.users)
    account ← reads (λ _.
        or_raise (only_if (verify_password crypto current_password) found)
          (bad_request AuthMessages.current_password_wrong))
    modify (update_user account.id (with_password crypto now salt new_password))
    _ ← logout_everywhere now u
    pure (with_password crypto now salt new_password account)

abbrev pub with_profile : UpdateProfileInput → User → User
with_profile payload d = record d {
  name = get_or payload.name d.name;
  avatar_url = if is_none payload.avatar_url then d.avatar_url else payload.avatar_url;
}

module _ {m : Models} where
  -- `findByIdAndUpdate`
  unfoldable pub update_profile : ℕ → UpdateProfileInput → Exec (Db m) User
  update_profile u payload = do
    found ←
        reads
          (λ db. or_raise (m.user.find_one (is_user u) db.users) (not_found "Account not found"))
    modify (update_user u (with_profile payload))
    pure (with_profile payload found)

  -- `findOneAndUpdate`
  unfoldable pub revoke_session : ℕ → ℕ → ℕ → Exec (Db m) RefreshToken
  revoke_session now u id = do
    session ← reads (λ db.
        or_raise (m.refresh_token.find_one (is_open_session id u) db.refresh_tokens)
          (not_found AuthMessages.session_not_found))
    modify (λ db. record db {
      refresh_tokens =
          m.refresh_token.update_one (is_open_session id u) (revoked now) db.refresh_tokens;
    })
    pure (revoked now session)
