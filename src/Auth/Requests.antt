-- ===== src/Auth/Requests.antt =====
-- Sequences of requests of auth.service.ts, in any order, valid or not.
-- One request. The token of a new session has a hash that no stored token has.
use flowdeck_backend.Auth
use flowdeck_backend.Auth.{Fresh, RegisterInput, RequestContext, UpdateProfileInput}
use flowdeck_backend.Auth.Revoking.{
  Issues, change_password-Keeps, login-Keeps, logout-Keeps, logout_everywhere-Keeps,
  refresh_session-Keeps, register-Keeps, revoke_session-Keeps, update_profile-Keeps,
}
use flowdeck_backend.Auth.Rotation.{IsNewHash, IsOther, IsSpent, IsSpent-IsKept, new-other}
use flowdeck_backend.Auth.Tokens.{Crypto}
use flowdeck_backend.Base.{Option, String, ℕ}
use flowdeck_backend.Models.{Db, Models}
use flowdeck_backend.Security.{Env}

pub data Step {m : Models} (env : Env) (crypto : Crypto) (db : Db m) : Db m → Type 0 where
  register :
      (id now : ℕ) (salt : String) (fresh : Fresh) (family : String) (payload : RegisterInput)
      (context : RequestContext)
      → IsNewHash env crypto now fresh db
      → Step env crypto db (Auth.register env crypto id now salt fresh family payload context db).1
  login :
      (now : ℕ) (fresh : Fresh) (family email password : String) (context : RequestContext)
      → IsNewHash env crypto now fresh db
      → Step env crypto db (Auth.login env crypto now fresh family email password context db).1
  refresh_session :
      (now : ℕ) (fresh : Fresh) (token : String) (context : RequestContext)
      → IsNewHash env crypto now fresh db
      → Step env crypto db (Auth.refresh_session env crypto now fresh token context db).1
  logout :
      (now : ℕ) (token : Option String) → Step env crypto db (Auth.logout crypto now token db).1
  logout_everywhere : (now u : ℕ) → Step env crypto db (Auth.logout_everywhere now u db).1
  change_password :
      (now : ℕ) (salt : String) (u : ℕ) (current_password new_password : String)
      → Step env crypto db
          (Auth.change_password crypto now salt u current_password new_password db).1
  update_profile :
      (u : ℕ) (payload : UpdateProfileInput)
      → Step env crypto db (Auth.update_profile u payload db).1
  revoke_session : (now u id : ℕ) → Step env crypto db (Auth.revoke_session now u id db).1

pub data Reach {m : Models} (env : Env) (crypto : Crypto) (db : Db m) : Db m → Type 0 where
  here : Reach env crypto db db
  next :
      {db' db'' : Db m}
      → Reach env crypto db db'
      → Step env crypto db' db''
      → Reach env crypto db db''

module _ (env : Env) (crypto : Crypto) {m : Models} (h : String) where
  abbrev pub IsSpentIn : Db m → Type 0
  IsSpentIn db = IsSpent h (m.refresh_token.docs db.refresh_tokens)

  others :
      (now : ℕ) (fresh : Fresh) (context : RequestContext) (db : Db m)
      → IsNewHash env crypto now fresh db
      → IsSpentIn db
      → Issues env crypto (IsOther h) now fresh context
  others now fresh context db new s u family =
      new-other h _ (m.refresh_token.docs db.refresh_tokens) (new u family) s.0

  Step-IsSpent : {db db' : Db m} → Step env crypto db db' → IsSpentIn db → IsSpentIn db'
  Step-IsSpent {db} (Step.register id now salt fresh family payload context new) s =
      (register-Keeps env crypto (IsSpent h) (IsOther h) (IsSpent-IsKept h) id now salt fresh family
        payload context db (others now fresh context db new s) s).at
  Step-IsSpent {db} (Step.login now fresh family email password context new) s =
      (login-Keeps env crypto (IsSpent h) (IsOther h) (IsSpent-IsKept h) now fresh family email
        password context db (others now fresh context db new s) s).at
  Step-IsSpent {db} (Step.refresh_session now fresh token context new) s =
      (refresh_session-Keeps env crypto (IsSpent h) (IsOther h) (IsSpent-IsKept h) now fresh token
        context db (others now fresh context db new s) s).at
  Step-IsSpent {db} (Step.logout now token) s =
      (logout-Keeps crypto (IsSpent h) (IsOther h) (IsSpent-IsKept h) now token db s).at
  Step-IsSpent {db} (Step.logout_everywhere now u) s =
      (logout_everywhere-Keeps (IsSpent h) (IsOther h) (IsSpent-IsKept h) now u db s).at
  Step-IsSpent {db} (Step.change_password now salt u current_password new_password) s =
      (change_password-Keeps crypto (IsSpent h) (IsOther h) (IsSpent-IsKept h) now salt u
        current_password new_password db s).at
  Step-IsSpent {db} (Step.update_profile u payload) s =
      (update_profile-Keeps (IsSpent h) (IsOther h) (IsSpent-IsKept h) u payload db s).at
  Step-IsSpent {db} (Step.revoke_session now u id) s =
      (revoke_session-Keeps (IsSpent h) (IsOther h) (IsSpent-IsKept h) now u id db s).at

  -- A stored refresh token that is revoked stays revoked through any sequence of requests to register,
  -- to sign in and out, to refresh and revoke sessions and to change the password or the profile.
  pub Reach-IsSpent : {db db' : Db m} → Reach env crypto db db' → IsSpentIn db → IsSpentIn db'
  Reach-IsSpent Reach.here s = s
  Reach-IsSpent (Reach.next r st) s = Step-IsSpent st (Reach-IsSpent r s)
