-- ===== src/Auth/Identity.antt =====
-- src/services/identity.service.ts and src/middlewares/authenticate.ts, authorize.ts: who sends a
-- request.
use flowdeck_backend.Constants.AuthMessages
use flowdeck_backend.Auth.{is_user, only_if}
use flowdeck_backend.Auth.Tokens.{AccessClaims, Crypto, Verified, verify_access_token}
use flowdeck_backend.Base.{
  Bool, List, Option, String, [], any, false, get_or, if◌then◌else◌, none, not, same_text, some,
  true, ℕ, ◌==◌, ◌∷◌,
}
use flowdeck_backend.Models.{Db, Models, SystemRole, User, is_active}
use flowdeck_backend.Store.{
  Exec, Result, err, forbidden, ok, or_raise, pure, raise_if, reads, unauthorized, ◌>>=◌, ◌>>◌,
}

pub record Identity : Type 0 where
  pub user_id : ℕ
  pub role : SystemRole

abbrev pub read_claims : Verified AccessClaims → Result AccessClaims
read_claims (Verified.claims c) = ok c
read_claims Verified.expired = err (unauthorized AuthMessages.token_expired)
read_claims Verified.invalid = err (unauthorized AuthMessages.token_invalid)

module _ (crypto : Crypto) {m : Models} where
  unfoldable pub resolve_access_token : ℕ → Option String → Exec (Db m) User
  resolve_access_token now token = do
    t ← reads (λ _.
        or_raise (only_if (λ t. not (same_text t "")) token)
          (unauthorized AuthMessages.token_missing))
    c ← reads (λ _. read_claims (verify_access_token crypto now t))
    u ← reads (λ db.
        or_raise (m.user.find_one (is_user c.sub) db.users)
          (unauthorized AuthMessages.token_invalid))
    raise_if (not (is_active u)) (forbidden AuthMessages.account_not_active)
    raise_if (not (get_or c.ver 0 == u.token_version)) (unauthorized AuthMessages.session_revoked)
    pure u

  -- What the middleware puts on the request.
  unfoldable pub authenticate : ℕ → Option String → Exec (Db m) (User × Identity)
  authenticate now token = do
    u ← resolve_access_token now token
    pure (u, record { user_id = u.id; role = u.role })

abbrev pub same_system_role : SystemRole → SystemRole → Bool
same_system_role SystemRole.user r = elim r [ SystemRole.user ↦ true | _ ↦ false ]
same_system_role SystemRole.support r = elim r [ SystemRole.support ↦ true | _ ↦ false ]
same_system_role SystemRole.super_admin r = elim r [ SystemRole.super_admin ↦ true | _ ↦ false ]

unfoldable pub require_role : List SystemRole → Option User → Result (Unit {0})
require_role roles none = err (unauthorized AuthMessages.token_missing)
require_role roles (some u) =
    if any (same_system_role u.role) roles
    then ok tt
    else err (forbidden AuthMessages.role_not_allowed)

abbrev pub require_platform_admin : Option User → Result (Unit {0})
require_platform_admin = require_role (SystemRole.super_admin ∷ [])

abbrev pub require_support_staff : Option User → Result (Unit {0})
require_support_staff = require_role (SystemRole.super_admin ∷ SystemRole.support ∷ [])
