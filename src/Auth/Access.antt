-- ===== src/Auth/Access.antt =====
-- src/services/identity.service.ts: when an access token is accepted.
use flowdeck_backend.Constants.AuthMessages
use flowdeck_backend.Auth.{is_user, only_if}
use flowdeck_backend.Auth.Identity.{read_claims, resolve_access_token}
use flowdeck_backend.Auth.Tokens.{AccessClaims, Crypto, Verified, verify_access_token}
use flowdeck_backend.Base.{
  Bool, Option, String, false, find, get_or, if◌then◌else◌, not, refl, same_text, some, subst, sym,
  true, ℕ, ◌==◌, ◌∙◌, ◌≡◌,
}
use flowdeck_backend.Models.{Db, Models, User, is_active}
use flowdeck_backend.Store.{
  ApiError, Ensures, Ensures-guard, Ensures-pure, Ensures-reads, Result, err, guard-eq, ok,
  or_raise, or_raise-eq-ok, pure, reads-returns, unauthorized,
}

abbrev pub given : Option String → Option String
given token = only_if (λ t. not (same_text t "")) token

-- What `resolveAccessToken` has found when it returns a user.
pub record IsAccepted (crypto : Crypto) {m : Models} (now : ℕ) (token : Option String) (db : Db m)
    (u : User) : Type 0 where
  pub text : String
  pub claims : AccessClaims
  pub is_text : given token ≡ some text
  pub is_claims : verify_access_token crypto now text ≡ Verified.claims claims
  pub found : find (is_user claims.sub) (m.user.docs db.users) ≡ some u
  pub active : is_active u ≡ true
  pub version : (get_or claims.ver 0 == u.token_version) ≡ true

read_claims-ok :
    (v : Verified AccessClaims) (c : AccessClaims) → read_claims v ≡ ok c → v ≡ Verified.claims c
read_claims-ok (Verified.claims d) c h = cc
read_claims-ok Verified.expired c h = cc
read_claims-ok Verified.invalid c h = cc

pub not-false : (b : Bool) → not b ≡ false → b ≡ true
not-false true h = refl
not-false false h = cc

module _ (crypto : Crypto) {m : Models} where
  find-user :
      (i : ℕ) (e : ApiError) (db : Db m) (u : User)
      → or_raise (m.user.find_one (is_user i) db.users) e ≡ ok u
      → find (is_user i) (m.user.docs db.users) ≡ some u
  find-user i e db u h = sym (m.user.find_one_lem (is_user i) db.users) ∙ or_raise-eq-ok _ e u h

  found-user :
      (i : ℕ) (e : ApiError) (db : Db m) (u : User)
      → find (is_user i) (m.user.docs db.users) ≡ some u
      → or_raise (m.user.find_one (is_user i) db.users) e ≡ ok u
  found-user i e db u h = rw (m.user.find_one_lem (is_user i) db.users, h) refl

  abbrev Accepts : (now : ℕ) (token : Option String) (db : Db m) → Result User → Db m → Type 0
  Accepts now token db (ok u) db' = IsAccepted crypto now token db u × (db' ≡ db)
  Accepts now token db (err e) db' = Unit

  resolve_access_token-Accepts :
      (now : ℕ) (token : Option String) (db : Db m)
      → Ensures (Accepts now token db) (resolve_access_token crypto now token) db
  unfolding resolve_access_token
  resolve_access_token-Accepts now token db =
      Ensures-reads Q _ _ db (λ _. tt)
        λ text is_text.
          Ensures-reads Q _ _ db (λ _. tt)
            λ c is_claims.
              Ensures-reads Q _ _ db (λ _. tt)
                λ u found. Ensures-guard Q _ _ _ db tt λ active.
                  Ensures-guard Q _ _ _ db tt λ version. Ensures-pure Q u db (
                    record {
                      text = text;
                      claims = c;
                      is_text = or_raise-eq-ok _ _ text is_text;
                      is_claims = read_claims-ok _ c is_claims;
                      found = find-user c.sub _ db u found;
                      active = not-false _ active;
                      version = not-false _ version;
                    },
                    refl,
                  )
    where
      Q : Result User → Db m → Type 0
      Q = Accepts now token db

  pub resolved-IsAccepted :
      (now : ℕ) (token : Option String) (db : Db m) (u : User)
      → (resolve_access_token crypto now token db).0 ≡ ok u
      → IsAccepted crypto now token db u
  resolved-IsAccepted now token db u h =
      (subst (λ r. Accepts now token db r (resolve_access_token crypto now token db).1) h
        (resolve_access_token-Accepts now token db).at).0

  -- How the answer depends on the account that the claims name.
  pub resolve_access_token-found :
      (now : ℕ) (token : Option String) (db : Db m) (text : String) (c : AccessClaims) (u : User)
      → given token ≡ some text
      → verify_access_token crypto now text ≡ Verified.claims c
      → find (is_user c.sub) (m.user.docs db.users) ≡ some u
      → is_active u ≡ true
      → resolve_access_token crypto now token db ≡ (
          if not (get_or c.ver 0 == u.token_version)
          then (err (unauthorized AuthMessages.session_revoked), db)
          else (ok u, db))
  unfolding resolve_access_token pure
  resolve_access_token-found now token db text c u t v f a =
      reads-returns _ _ db text (rw t refl)
      ∙ reads-returns _ _ db c (rw v refl)
      ∙ reads-returns _ _ db u (found-user c.sub _ db u f)
      ∙ reads-returns _ _ db tt (rw a refl)
      ∙ guard-eq (not (get_or c.ver 0 == u.token_version)) _ _ db
