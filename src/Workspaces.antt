-- ===== src/Workspaces.antt =====
-- src/services/workspace.service.ts: the workspaces themselves. The children hold the members,
-- the check of a member's role and what is proved of them.
pub mod Members
pub mod Access
pub mod Seats
pub mod Requests
pub mod Handlers
mod Tests
use flowdeck_backend.Constants.WorkspaceMessages
use flowdeck_backend.Base.{Bool, Option, String, get_or, none, some, ℕ, ◌==◌}
use flowdeck_backend.Models.{Db, Effect, Membership, Models, Workspace, WorkspaceRole, cause}
use flowdeck_backend.Store.{Exec, modify, not_found, or_raise, pure, reads, ◌>>=◌, ◌>>◌}

pub record CreateWorkspaceInput : Type 0 where
  pub name : String
  pub description : Option String

pub record UpdateWorkspaceInput : Type 0 where
  pub name : Option String
  pub description : Option String

abbrev pub is_workspace : ℕ → Workspace → Bool
is_workspace ws d = d.id == ws

-- The membership that makes `author` the owner of the workspace.
abbrev pub first_seat : ℕ → ℕ → ℕ → Membership
first_seat seat ws author = record {
  id = seat;
  workspace = ws;
  user = author;
  role = WorkspaceRole.owner;
  invited_by = some author;
}

module _ {m : Models} where
  unfoldable pub invalidate_workspace : ℕ → Exec (Db m) (Unit {0})
  invalidate_workspace ws = cause (Effect.invalidate ws)

  unfoldable pub workspace_name : ℕ → Db m → String
  workspace_name ws db = elim (m.workspace.find_one (is_workspace ws) db.workspaces) [
    | some workspace ↦ workspace.name
    | none ↦ "a workspace"
  ]

  -- `id` and `seat` are the object ids that the workspace and its first membership get, and `slug`
  -- is what `uniqueSlug` returns.
  unfoldable pub create_workspace :
      ℕ → ℕ → String → ℕ → CreateWorkspaceInput → Exec (Db m) Workspace
  create_workspace id seat slug author payload = do
    let workspace : Workspace = record {
      id = id;
      name = payload.name;
      slug = slug;
      description = get_or payload.description "";
      owner = author;
      member_count = 1;
      archived_at = none;
    }
    modify (λ db. record db { workspaces = m.workspace.create workspace db.workspaces })
    modify (λ db. record db {
      memberships = m.membership.create (first_seat seat id author) db.memberships;
    })
    pure workspace

  -- `findByIdAndUpdate` with the document as it is after the update
  unfoldable pub find_and_update : ℕ → (Workspace → Workspace) → Exec (Db m) Workspace
  find_and_update ws change = do
    workspace ← reads (λ db.
        or_raise (m.workspace.find_one (is_workspace ws) db.workspaces)
          (not_found WorkspaceMessages.not_found))
    modify (λ db. record db {
      workspaces = m.workspace.update_one (is_workspace ws) change db.workspaces;
    })
    pure (change workspace)

  unfoldable pub update_workspace : ℕ → UpdateWorkspaceInput → Exec (Db m) Workspace
  update_workspace ws payload = do
    workspace ← find_and_update ws (λ d. record d {
      name = get_or payload.name d.name;
      description = get_or payload.description d.description;
    })
    invalidate_workspace ws
    pure workspace

  unfoldable pub archive_workspace : ℕ → ℕ → Exec (Db m) Workspace
  archive_workspace now ws = do
    workspace ← find_and_update ws (λ d. record d { archived_at = some now })
    invalidate_workspace ws
    pure workspace
