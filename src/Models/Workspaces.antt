-- ===== src/Models/Workspaces.antt =====
-- src/models/workspace.model.ts, membership.model.ts, user.model.ts and constants/roles.ts
use flowdeck_backend.Base.{Bool, false, true, ℕ, String, Option}

pub data SystemRole : Type 0 where
  user support super_admin : SystemRole

pub data WorkspaceRole : Type 0 where
  owner admin member viewer : WorkspaceRole

abbrev pub workspace_role_rank : WorkspaceRole → ℕ
workspace_role_rank viewer = 1
workspace_role_rank member = 2
workspace_role_rank admin = 3
workspace_role_rank owner = 4

abbrev pub role_name : WorkspaceRole → String
role_name owner = "owner"
role_name admin = "admin"
role_name member = "member"
role_name viewer = "viewer"

abbrev pub is_owner : WorkspaceRole → Bool
is_owner owner = true
is_owner admin = false
is_owner member = false
is_owner viewer = false

-- `===` on roles
abbrev pub same_role : WorkspaceRole → WorkspaceRole → Bool
same_role owner r = is_owner r
same_role admin r = elim r [ admin ↦ true | _ ↦ false ]
same_role member r = elim r [ member ↦ true | _ ↦ false ]
same_role viewer r = elim r [ viewer ↦ true | _ ↦ false ]

pub data AccountStatus : Type 0 where
  active suspended blocked : AccountStatus

pub record Workspace : Type 0 where
  pub id : ℕ
  pub name : String
  pub slug : String
  pub description : String
  pub owner : ℕ
  pub member_count : ℕ
  pub archived_at : Option ℕ

pub record Membership : Type 0 where
  pub id : ℕ
  pub workspace : ℕ
  pub user : ℕ
  pub role : WorkspaceRole
  pub invited_by : Option ℕ

pub record User : Type 0 where
  pub id : ℕ
  pub name : String
  pub email : String
  pub password : String
  pub role : SystemRole
  pub avatar_url : Option String
  pub status : AccountStatus
  pub last_login_at : Option ℕ
  pub password_changed_at : Option ℕ
  pub token_version : ℕ

-- the method `isActive`
abbrev pub is_active : User → Bool
is_active u = elim u.status [ AccountStatus.active ↦ true | _ ↦ false ]
