-- ===== src/Auth/SignIn.antt =====
-- src/services/auth.service.ts: what a sign-in needs and what it leaves.
use flowdeck_backend.Auth.{
  Fresh, RequestContext, Session, is_user, issue_session, login, only_if, signed_in, stored_token,
  update_user, verify_password,
}
use flowdeck_backend.Auth.Access.{not-false, resolve_access_token-found}
use flowdeck_backend.Auth.Ending.{find-update_user}
use flowdeck_backend.Auth.Identity.{resolve_access_token}
use flowdeck_backend.Auth.Rotation.{session_for}
use flowdeck_backend.Auth.Tokens.{
  AccessClaims, Crypto, sign_access_token, sign_refresh_token, verify_access_token,
}
use flowdeck_backend.Base.{
  ==_refl, Bool, Option, String, ap, arith, count, find, find_unique, ltb-lt, none, refl,
  same_text_ne, some, subst, sym, true, ℕ, ◌+◌, ◌/◌, ◌<◌, ◌∙◌, ◌≡◌, ◌≤◌,
}
use flowdeck_backend.Models.{Db, Models, User, is_active, on_cache}
use flowdeck_backend.Security.{Env}
use flowdeck_backend.Store.{
  Ensures, Ensures-either, Ensures-gets, Ensures-guard, Ensures-reads, Exec, Keeps, Keeps-call,
  Keeps-when, Result, err, modify, ok, or_raise-eq-ok, pure, reads, ◌>>=◌, ◌>>◌,
}
use flowdeck_backend.Workspaces.Members.{has_email}

-- Only the cache may differ.
abbrev pub IsSame : {m : Models} → Db m → Db m → Type 0
IsSame db db' = (db'.users ≡ db.users) × (db'.refresh_tokens ≡ db.refresh_tokens)

-- A sign-in that is refused leaves the accounts and the sessions as they were. One that succeeds has
-- found an active account by the email, has verified the password, and adds one session.
abbrev pub SignIn :
    Env
    → Crypto
    → ℕ
    → Fresh
    → String
    → String
    → String
    → RequestContext
    → {m : Models} → Db m
    → Result (User × Session)
    → Db m
    → Type 0
SignIn env crypto now fresh family email password context db (err e) db' = IsSame db db'
SignIn env crypto now fresh family email password context {m} db (ok (a, session)) db' =
    (u : User) × (find (has_email email) (m.user.docs db.users) ≡ some u)
    × (verify_password crypto password u ≡ true)
    × (is_active u ≡ true)
    × (a ≡ signed_in now u)
    × (session ≡ session_for env crypto now fresh family a)
    × (db'.users ≡ m.user.update_one (is_user u.id) (signed_in now) db.users)
    × (db'.refresh_tokens
        ≡ m.refresh_token.create
            (stored_token crypto fresh.id now (sign_refresh_token env crypto now fresh.jti a family)
              a context)
            db.refresh_tokens)

module _ {m : Models} where
  cache-IsSame :
      {A : Type 0} (a : Exec m.redis.Store A) (db s : Db m)
      → IsSame db s
      → Keeps (IsSame db) (on_cache a) s
  unfolding on_cache
  cache-IsSame a db s h = record { at = h }

only_if-parts :
    {A : Type 0} (p : A → Bool) (o : Option A) (a : A)
    → only_if p o ≡ some a
    → (o ≡ some a) × (p a ≡ true)
only_if-parts p none a h = cc
only_if-parts p (some b) a h = ground (arith, h)

module _ (env : Env) (crypto : Crypto) {m : Models} where
  -- The end of `login`.
  abbrev open_session : ℕ → Fresh → String → RequestContext → User → Exec (Db m) (User × Session)
  open_session now fresh family context u = do
    modify (update_user u.id (signed_in now))
    session ← issue_session env crypto now fresh (signed_in now u) context family
    pure (signed_in now u, session)

  open_session-SignIn :
      (now : ℕ) (fresh : Fresh) (family email password : String) (context : RequestContext)
      (u : User) (db s : Db m)
      → IsSame db s
      → find (has_email email) (m.user.docs db.users) ≡ some u
      → verify_password crypto password u ≡ true
      → is_active u ≡ true
      → Ensures
          (SignIn env crypto now fresh family email password context db)
          (open_session now fresh family context u)
          s
  unfolding modify issue_session pure ◌>>=◌ session_for
  open_session-SignIn now fresh family email password context u db s (us, ts) found knows active =
      record {
        at = (
          u,
          found,
          knows,
          active,
          refl,
          refl,
          ap (m.user.update_one (is_user u.id) (signed_in now)) us,
          ap (m.refresh_token.create _) ts,
        );
      }

  -- Every sign-in, refused or carried out, has the outcome that `SignIn` says.
  pub login-SignIn :
      (now : ℕ) (fresh : Fresh) (family email password : String) (context : RequestContext)
      (db : Db m)
      → SignIn env crypto now fresh family email password context db
          (login env crypto now fresh family email password context db).0
          (login env crypto now fresh family email password context db).1
  unfolding login reads
  login-SignIn now fresh family email password context db =
      (Ensures-either Q (IsSame db) _ _ db (cache-IsSame _ db db (refl, refl)) (λ e s h. h)
        λ _ s₁ h₁. Ensures-gets Q _ _ s₁ (
          Ensures-either Q (IsSame db) _ _ s₁
            (Keeps-when (IsSame db) _ _ s₁ h₁ (
              Keeps-call (IsSame db) _ _ s₁ (cache-IsSame _ db s₁ h₁) λ _ s hs. record { at = hs }))
            (λ e s h. h)
            λ _ s₂ h₂.
              Ensures-reads Q _ _ s₂ (λ e. h₂)
                λ u known. Ensures-guard Q _ _ _ s₂ h₂ λ active.
                  Ensures-either Q (IsSame db) _ _ s₂ (cache-IsSame _ db s₂ h₂) (λ e s h. h)
                    λ _ s₃ h₃.
                      let (found, knows) =
                        only_if-parts (verify_password crypto password) _ u
                          (or_raise-eq-ok _ _ u known) in
                      open_session-SignIn now fresh family email password context u db s₃ h₃
                        (sym (m.user.find_one_lem (has_email email) db.users)
                          ∙ sym (ap (m.user.find_one (has_email email)) h₁.0)
                          ∙ found)
                        knows (not-false (is_active u) active))).at
    where
      Q : Result (User × Session) → Db m → Type 0
      Q = SignIn env crypto now fresh family email password context db

  -- The access token of a new session is accepted for the account until it expires.
  access_token-accepted :
      (now later : ℕ) (u : User) (db : Db m)
      → find (is_user u.id) (m.user.docs db.users) ≡ some u
      → is_active u ≡ true
      → later / 1000 < now / 1000 + env.access_token_ttl
      → resolve_access_token crypto later (some (sign_access_token env crypto now u)) db
        ≡ (ok u, db)
  unfolding sign_access_token verify_access_token
  access_token-accepted now later u db f a early =
      let c = claims_for u in
      let until = now / 1000 + env.access_token_ttl in
      resolve_access_token-found crypto later (some (sign_access_token env crypto now u)) db
        (crypto.sign_access until c) c u
        (rw (same_text_ne _ "" (crypto.sign_access-nonempty until c)) refl)
        (crypto.verify_access_lem later until c ∙ (rw (ltb-lt (later / 1000) until early) refl)) f a
      ∙ (rw (==_refl u.token_version) refl)
    where
      claims_for : User → AccessClaims
      claims_for u = record { sub = u.id; role = u.role; ver = some u.token_version }

  -- The access token that a sign-in returns is accepted as the account that signed in, while
  -- fewer whole seconds than the token's lifetime lie between the seconds of the clock at which it
  -- was signed and is read, when the ids of accounts are unique.
  pub login-resolves :
      (now later : ℕ) (fresh : Fresh) (family email password : String) (context : RequestContext)
      (db : Db m) (a : User) (session : Session)
      → ((i : ℕ) → count (is_user i) (m.user.docs db.users) ≤ 1)
      → (login env crypto now fresh family email password context db).0 ≡ ok (a, session)
      → later / 1000 < now / 1000 + env.access_token_ttl
      → (resolve_access_token crypto later
          (some session.access_token)
          (login env crypto now fresh family email password context db).1).0
        ≡ ok a
  unfolding session_for
  login-resolves now later fresh family email password context db a session distinct h early =
      let (u, found, knows, active, same, opened, users, _) =
        subst
          (λ r.
            SignIn env crypto now fresh family email password context db r
              (login env crypto now fresh family email password context db).1)
          h (login-SignIn now fresh family email password context db) in
      let here =
        find_unique (has_email email) (is_user u.id) (m.user.docs db.users) u found (==_refl u.id)
          (distinct u.id) in
      let stored = find-update_user u.id u.id (signed_in now) u db here refl refl in
      let after = (login env crypto now fresh family email password context db).1 in
      let f = ap (λ x. find (is_user u.id) (m.user.docs x)) users ∙ stored in
      let accepted = access_token-accepted now later (signed_in now u) after f active early in
      rw (opened, same) (ap (λ r. r.0) accepted)
