-- ===== src/Auth/Tests.antt =====
-- Two accounts, and the theorems at concrete inputs.
use flowdeck_backend.Constants.AuthMessages
use flowdeck_backend.Auth.{
  Fresh, RequestContext, change_password, is_live_of, is_session_of, is_user, issue_session, login,
  logout_everywhere, or_revoke, refresh_session, revoked, signed_in, verify_password, with_password,
}
use flowdeck_backend.Auth.Ending.{
  change_password-ends, logout_everywhere-refuses, logout_everywhere-revokes,
}
use flowdeck_backend.Auth.Identity.{resolve_access_token}
use flowdeck_backend.Auth.Plain.{plain_crypto, write_refresh-other}
use flowdeck_backend.Auth.Requests.{IsSpentIn, Reach, Reach-IsSpent, Step}
use flowdeck_backend.Auth.Reuse.{IsDistinct, refresh_session-once}
use flowdeck_backend.Auth.Rotation.{IsNewHash, session_for}
use flowdeck_backend.Auth.SignIn.{SignIn, login-SignIn, login-resolves}
use flowdeck_backend.Auth.Tokens.{
  RefreshClaims, hash_token, sign_refresh_token, verify_access_token, verify_refresh_token,
}
use flowdeck_backend.Base.{
  Option, String, [], arith, count, find, none, refl, some, true, ℕ, ◌+◌, ◌/◌, ◌∷◌, ◌≡◌,
}
use flowdeck_backend.Cache.{bump, count_of, drop}
use flowdeck_backend.Models.{
  AccountStatus, Db, RefreshToken, SystemRole, User, empty_db, list_models, on_cache,
}
use flowdeck_backend.Security.{
  Env, assert_login_allowed, clear_login_failures, record_login_failure,
}
use flowdeck_backend.Store.{err, modify, ok, pure, reads, unauthorized, when, ◌>>=◌}

abbrev settings : Env
settings = record {
  login_max_attempts = 2;
  login_lock_seconds = 300;
  ip_block_threshold = 25;
  ip_block_seconds = 1800;
  access_token_ttl = 0;
  refresh_token_ttl = 6;
}

abbrev account : ℕ → String → String → User
account id email password = record {
  id = id;
  name = "";
  email = email;
  password = password;
  role = SystemRole.user;
  avatar_url = none;
  status = AccountStatus.active;
  last_login_at = none;
  password_changed_at = none;
  token_version = 0;
}

abbrev here : RequestContext
here = record { ip = none; user_agent = none }

abbrev claims : RefreshClaims
claims = record { sub = 1; family = "f"; jti = "j" }

-- Expires at 5.
abbrev token : String
token = plain_crypto.sign_refresh 5 claims

abbrev stored : RefreshToken
stored = record {
  id = 7;
  user = 1;
  token_hash = hash_token plain_crypto token;
  family = "f";
  user_agent = none;
  ip = none;
  expires_at = 5;
  revoked_at = none;
  created_at = 0;
}

abbrev start : Db list_models
start = record empty_db {
  users = account 1 "a@x.io" "secret" ∷ account 2 "b@x.io" "other" ∷ [];
  refresh_tokens = stored ∷ [];
}

abbrev access : Option String
access =
    some (plain_crypto.sign_access 5 (record { sub = 1; role = SystemRole.user; ver = some 0 }))

-- Signed in at 0, with a wrong password and a right one.
wrong_password_runs :
    (login settings plain_crypto 0 (record { id = 8; jti = "k" }) "g" "a@x.io" "no" here start).0
    ≡ err (unauthorized AuthMessages.invalid_credentials)
unfolding login ◌>>=◌ on_cache assert_login_allowed count_of when pure reads plain_crypto
    record_login_failure bump
wrong_password_runs = refl

accepted_runs :
    (resolve_access_token plain_crypto 3 access start).0 ≡ ok (account 1 "a@x.io" "secret")
unfolding resolve_access_token ◌>>=◌ reads plain_crypto verify_access_token pure
accepted_runs = refl

logout_everywhere-revokes_example :
    ((logout_everywhere 3 1 start).0 ≡ ok 1)
    × (count (is_session_of 1) (logout_everywhere 3 1 start).1.refresh_tokens ≡ 0)
unfolding logout_everywhere
logout_everywhere-revokes_example = logout_everywhere-revokes 3 1 start

logout_everywhere-refuses_example :
    (resolve_access_token plain_crypto 4 access (logout_everywhere 3 1 start).1).0
    ≡ err (unauthorized AuthMessages.session_revoked)
unfolding resolve_access_token ◌>>=◌ reads plain_crypto verify_access_token pure
logout_everywhere-refuses_example =
    logout_everywhere-refuses plain_crypto 3 4 access (account 1 "a@x.io" "secret") start refl

change_password-ends_example :
    ((resolve_access_token plain_crypto 4 access
        (change_password plain_crypto 3 "s" 1 "secret" "fresh" start).1).0
      ≡ err (unauthorized AuthMessages.session_revoked))
    × (count
          (is_session_of 1)
          (change_password plain_crypto 3 "s" 1 "secret" "fresh" start).1.refresh_tokens
        ≡ 0)
    × (b : User) × (find
          (is_user 1)
          (change_password plain_crypto 3 "s" 1 "secret" "fresh" start).1.users
        ≡ some b)
    × (verify_password plain_crypto "fresh" b ≡ true)
unfolding resolve_access_token change_password ◌>>=◌ reads plain_crypto verify_access_token pure
    modify logout_everywhere
change_password-ends_example =
    change_password-ends plain_crypto 3 4 "s" "secret" "fresh" access (account 1 "a@x.io" "secret")
      (with_password plain_crypto 3 "s" "fresh" (account 1 "a@x.io" "secret")) start refl refl

abbrev spent_token : RefreshToken
spent_token = revoked 3 stored

abbrev after : Db list_models
after = record start { refresh_tokens = spent_token ∷ [] }

-- The session of family `f` is signed out, and then all are.
Reach-IsSpent_example :
    IsSpentIn settings plain_crypto (hash_token plain_crypto token) (logout_everywhere 4 1 after).1
unfolding logout_everywhere hash_token plain_crypto
Reach-IsSpent_example =
    Reach-IsSpent settings plain_crypto (hash_token plain_crypto token) {db = after}
      (Reach.next Reach.here (Step.logout_everywhere 4 1)) (omega arith, refl)

login-SignIn_example :
    SignIn settings plain_crypto 0
      (record { id = 8; jti = "k" })
      "g"
      "a@x.io"
      "no"
      here
      start
      (err (unauthorized AuthMessages.invalid_credentials))
      (login settings plain_crypto 0 (record { id = 8; jti = "k" }) "g" "a@x.io" "no" here start).1
unfolding login ◌>>=◌ on_cache assert_login_allowed count_of when pure reads plain_crypto
    record_login_failure bump
login-SignIn_example =
    login-SignIn settings plain_crypto 0 (record { id = 8; jti = "k" }) "g" "a@x.io" "no" here start

abbrev next : Fresh
next = record { id = 8; jti = "k" }

-- A token that is signed later than the one that is stored expires later.
new_hash : (now : ℕ) → IsNewHash settings plain_crypto now next start
unfolding sign_refresh_token hash_token plain_crypto
new_hash now u family = ground (
  arith,
  write_refresh-other 5 (now / 1000 + 6) claims (record { sub = u.id; family = family; jti = "k" })
      (λ e. omega (arith, e)),
)

distinct : IsDistinct (stored ∷ [])
distinct = (λ i. ground arith, λ h. ground arith)

-- Refreshed at 3, all signed out, and presented again at 4.
refresh_session-once_example :
    ((refresh_session settings plain_crypto 4 next token here
        (logout_everywhere 4 2
          (refresh_session settings plain_crypto 3 next token here start).1).1).0
      ≡ err (unauthorized AuthMessages.refresh_token_invalid))
    × (count
          (is_live_of "f")
          (refresh_session settings plain_crypto 4 next token here
            (logout_everywhere 4 2
              (refresh_session settings plain_crypto 3 next token here start).1).1).1.refresh_tokens
        ≡ 0)
unfolding refresh_session ◌>>=◌ reads verify_refresh_token plain_crypto or_revoke when hash_token
    pure modify issue_session session_for
refresh_session-once_example =
    refresh_session-once settings plain_crypto 3 4 next next token here here start
      (logout_everywhere 4 2 (refresh_session settings plain_crypto 3 next token here start).1).1
      (
        account 1 "a@x.io" "secret",
        session_for settings plain_crypto 3 next "f" (account 1 "a@x.io" "secret"),
      )
      claims distinct (new_hash 3) refl (Reach.next Reach.here (Step.logout_everywhere 4 2)) refl

abbrev lasting_settings : Env
lasting_settings = record settings { access_token_ttl = 1 }

login-resolves_example :
    (resolve_access_token plain_crypto 9
      (some
        (session_for lasting_settings plain_crypto 3 next "g"
          (signed_in 3 (account 1 "a@x.io" "secret"))).access_token)
      (login lasting_settings plain_crypto 3 next "g" "a@x.io" "secret" here start).1).0
    ≡ ok (signed_in 3 (account 1 "a@x.io" "secret"))
unfolding login ◌>>=◌ on_cache assert_login_allowed count_of when pure reads plain_crypto
    clear_login_failures drop modify issue_session session_for
login-resolves_example =
    login-resolves lasting_settings plain_crypto 3 9 next "g" "a@x.io" "secret" here start
      (signed_in 3 (account 1 "a@x.io" "secret"))
      (session_for lasting_settings plain_crypto 3 next "g"
        (signed_in 3 (account 1 "a@x.io" "secret")))
      (λ i. ground arith) refl (omega arith)
