-- ===== src/Workspaces/Requests.antt =====
-- Sequences of requests of workspace.service.ts, in any order, valid or not.
use flowdeck_backend.Workspaces
use flowdeck_backend.Workspaces.Members
use flowdeck_backend.Base.{String, count, ℕ, ◌≡◌}
use flowdeck_backend.Models.{Db, Models, WorkspaceRole}
use flowdeck_backend.Workspaces.{CreateWorkspaceInput, UpdateWorkspaceInput, is_workspace}
use flowdeck_backend.Workspaces.Handlers.{
  archive_workspace-Keeps, create_workspace-Keeps, update_workspace-Keeps,
}
use flowdeck_backend.Workspaces.Members.{AddMemberInput}
use flowdeck_backend.Workspaces.Members.Handlers.{
  IsSoundIn, add_member-Keeps, leave_workspace-Keeps, remove_member-Keeps, transfer_ownership-Keeps,
  update_member_role-Keeps,
}
use flowdeck_backend.Workspaces.Seats.{has_seat_id, is_of}

-- One request. Whoever creates a document gives it an id that no document has.
pub data Step {m : Models} (db : Db m) : Db m → Type 0 where
  create_workspace :
      (id seat : ℕ) (slug : String) (author : ℕ) (payload : CreateWorkspaceInput)
      → count (is_workspace id) (m.workspace.docs db.workspaces) ≡ 0
      → count (has_seat_id seat) (m.membership.docs db.memberships) ≡ 0
      → count (is_of id) (m.membership.docs db.memberships) ≡ 0
      → Step db (Workspaces.create_workspace id seat slug author payload db).1
  update_workspace :
      (ws : ℕ) (payload : UpdateWorkspaceInput)
      → Step db (Workspaces.update_workspace ws payload db).1
  archive_workspace : (now ws : ℕ) → Step db (Workspaces.archive_workspace now ws db).1
  add_member :
      (id ws actor : ℕ) (input : AddMemberInput)
      → count (has_seat_id id) (m.membership.docs db.memberships) ≡ 0
      → Step db (Members.add_member id ws actor input db).1
  update_member_role :
      (now ws u : ℕ) (role : WorkspaceRole) (actor : ℕ)
      → Step db (Members.update_member_role now ws u role actor db).1
  remove_member : (now ws u actor : ℕ) → Step db (Members.remove_member now ws u actor db).1
  transfer_ownership :
      (now ws actor heir : ℕ) → Step db (Members.transfer_ownership now ws actor heir db).1
  leave_workspace : (now ws u : ℕ) → Step db (Members.leave_workspace now ws u db).1

pub data Reach {m : Models} (db : Db m) : Db m → Type 0 where
  here : Reach db db
  next : {db' db'' : Db m} → Reach db db' → Step db' db'' → Reach db db''

Step-IsSoundIn : {m : Models} {db db' : Db m} → Step db db' → IsSoundIn db → IsSoundIn db'
Step-IsSoundIn {db} (Step.create_workspace id seat slug author payload fresh fresh_seat empty) h =
    (create_workspace-Keeps id seat slug author payload db fresh fresh_seat empty h).at
Step-IsSoundIn {db} (Step.update_workspace ws payload) h =
    (update_workspace-Keeps ws payload db h).at
Step-IsSoundIn {db} (Step.archive_workspace now ws) h = (archive_workspace-Keeps now ws db h).at
Step-IsSoundIn {db} (Step.add_member id ws actor input fresh) h =
    (add_member-Keeps id ws actor input db fresh h).at
Step-IsSoundIn {db} (Step.update_member_role now ws u role actor) h =
    (update_member_role-Keeps now ws u role actor db h).at
Step-IsSoundIn {db} (Step.remove_member now ws u actor) h =
    (remove_member-Keeps now ws u actor db h).at
Step-IsSoundIn {db} (Step.transfer_ownership now ws actor heir) h =
    (transfer_ownership-Keeps now ws actor heir db h).at
Step-IsSoundIn {db} (Step.leave_workspace now ws u) h = (leave_workspace-Keeps now ws u db h).at

-- From a sound database, any sequence of requests to create, update and archive workspaces, to add
-- and remove members, to change their roles, to leave and to transfer ownership, refused or carried
-- out, leaves a sound one: ids are unique, nobody has two seats in one workspace, and every
-- workspace counts its memberships, has exactly one owner, and names that owner.
pub Reach-IsSound : {m : Models} {db db' : Db m} → Reach db db' → IsSoundIn db → IsSoundIn db'
Reach-IsSound Reach.here h = h
Reach-IsSound (Reach.next r st) h = Step-IsSoundIn st (Reach-IsSound r h)
