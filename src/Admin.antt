-- ===== src/Admin.antt =====
-- src/services/admin.service.ts: the account of the super administrator. The unique index on the role
-- cannot be met after `setupStatus`, since one call runs to its end before the next begins.
pub mod Setup
mod Tests
use flowdeck_backend.Auth.Tokens.{Crypto}
use flowdeck_backend.Base.{Bool, Option, String, is_none, none, not, same_text, some, true, ℕ, ◌&&◌}
use flowdeck_backend.Models.{AccountStatus, Db, Models, SystemRole, User}
use flowdeck_backend.Store.{Exec, conflict, forbidden, gets, modify, pure, raise_if, ◌>>=◌, ◌>>◌}
use flowdeck_backend.Workspaces.Access.{is_super_admin}
use flowdeck_backend.Workspaces.Members.{has_email}

pub record SuperAdminInput : Type 0 where
  pub name : String
  pub email : String
  pub password : String
  pub setup_key : Option String

pub record SetupStatus : Type 0 where
  pub available : Bool
  pub requires_key : Bool

abbrev pub is_platform_owner : User → Bool
is_platform_owner d = is_super_admin d.role

-- `payload.setupKey !== key`
abbrev pub is_other_key : String → Option String → Bool
is_other_key key none = true
is_other_key key (some k) = not (same_text k key)

abbrev pub new_super_admin : Crypto → ℕ → ℕ → String → SuperAdminInput → User
new_super_admin crypto id now salt payload = record {
  id = id;
  name = payload.name;
  email = payload.email;
  password = crypto.hash_password salt payload.password;
  role = SystemRole.super_admin;
  avatar_url = none;
  status = AccountStatus.active;
  last_login_at = none;
  password_changed_at = some now;
  token_version = 0;
}

module _ {m : Models} where
  -- `key` is `SUPER_ADMIN_SETUP_KEY`.
  unfoldable pub setup_status : String → Db m → SetupStatus
  setup_status key db = record {
    available = is_none (m.user.find_one is_platform_owner db.users);
    requires_key = not (same_text key "");
  }

module _ (crypto : Crypto) {m : Models} where
  unfoldable pub create_super_admin : String → ℕ → ℕ → String → SuperAdminInput → Exec (Db m) User
  create_super_admin key id now salt payload = do
    status ← gets (setup_status key)
    raise_if (not status.available) (conflict "A super admin already exists for this deployment")
    raise_if (status.requires_key && is_other_key key payload.setup_key)
        (forbidden "That setup key is not valid")
    taken ← gets (λ db. m.user.find_one (has_email payload.email) db.users)
    raise_if (not (is_none taken)) (conflict "An account with this email already exists")
    let admin = new_super_admin crypto id now salt payload
    modify (λ db. record db { users = m.user.create admin db.users })
    pure admin
