-- ===== src/Workspaces/Members.antt =====
-- src/services/workspace.service.ts: the members of a workspace and their roles.
pub mod Additions
pub mod Forgetting
pub mod Handlers
pub mod Outcome
pub mod Owners
use flowdeck_backend.Constants.WorkspaceMessages
use flowdeck_backend.Base.{
  Bool, List, String, [], concat, if◌then◌else◌, is_none, none, not, same_text, some, ℕ, ◌&&◌, ◌+◌,
  ◌-◌, ◌/◌, ◌==◌, ◌∷◌,
}
use flowdeck_backend.Cache.{CacheKey, drop}
use flowdeck_backend.Models.{
  AppLink, Db, Effect, Membership, Models, NotificationType, User, Workspace, WorkspaceRole, cause,
  is_owner, on_cache, role_name, same_role,
}
use flowdeck_backend.Store.{
  Exec, Result, bad_request, conflict, gets, modify, not_found, or_raise, pure, raise_if, reads,
  when, ◌>>=◌, ◌>>◌,
}
use flowdeck_backend.Workspaces.{invalidate_workspace, is_workspace, workspace_name}

-- The roles that a request can give.
pub data AssignableRole : Type 0 where
  admin member viewer : AssignableRole

abbrev pub as_role : AssignableRole → WorkspaceRole
as_role admin = WorkspaceRole.admin
as_role member = WorkspaceRole.member
as_role viewer = WorkspaceRole.viewer

pub record AddMemberInput : Type 0 where
  pub email : String
  pub role : AssignableRole

abbrev pub is_seat : ℕ → ℕ → Membership → Bool
is_seat ws u d = d.workspace == ws && d.user == u

abbrev pub has_email : String → User → Bool
has_email email d = same_text d.email email

abbrev pub with_role : WorkspaceRole → Membership → Membership
with_role role d = record d { role = role }

abbrev pub one_more : Workspace → Workspace
one_more d = record d { member_count = d.member_count + 1 }

abbrev pub one_less : Workspace → Workspace
one_less d = record d { member_count = d.member_count - 1 }

abbrev pub owned_by : ℕ → Workspace → Workspace
owned_by u d = record d { owner = u }

abbrev pub new_seat : ℕ → ℕ → ℕ → ℕ → WorkspaceRole → Membership
new_seat id ws u actor role = record {
  id = id;
  workspace = ws;
  user = u;
  role = role;
  invited_by = some actor;
}

module _ {m : Models} where
  unfoldable pub load_seat : ℕ → ℕ → String → Db m → Result Membership
  load_seat ws u message db =
      or_raise (m.membership.find_one (is_seat ws u) db.memberships) (not_found message)

  unfoldable pub forget_membership : ℕ → ℕ → ℕ → Exec (Db m) ℕ
  forget_membership now ws u = on_cache (drop m.redis (now / 1000) (CacheKey.membership ws u ∷ []))

  -- `notify` with what the notifications of this service have in common
  unfoldable pub notify_members :
      ℕ → List ℕ → NotificationType → String → ℕ → AppLink → Exec (Db m) (Unit {0})
  notify_members ws recipients type message actor link = cause (
      Effect.notify (record {
        recipients = recipients;
        workspace = ws;
        type = type;
        message = message;
        body = none;
        actor = some actor;
        entity_type = none;
        entity_id = none;
        link = some link;
      }))

  -- The membership and the change of the count that `addMember` and `removeMember` write in one
  -- transaction
  unfoldable pub take_seat : Membership → Db m → Db m
  take_seat seat db = record db {
    memberships = m.membership.create seat db.memberships;
    workspaces = m.workspace.update_one (is_workspace seat.workspace) one_more db.workspaces;
  }

  unfoldable pub free_seat : ℕ → Membership → Db m → Db m
  free_seat ws seat db = record db {
    memberships = m.membership.delete_one (λ d. d.id == seat.id) db.memberships;
    workspaces = m.workspace.update_one (is_workspace ws) one_less db.workspaces;
  }

  -- `id` is the object id that the membership gets.
  unfoldable pub add_member : ℕ → ℕ → ℕ → AddMemberInput → Exec (Db m) (Membership × User)
  add_member id ws actor input = do
    account ← reads (λ db.
        or_raise (m.user.find_one (has_email input.email) db.users)
          (not_found WorkspaceMessages.user_not_found))
    already ← gets (λ db. m.membership.find_one (is_seat ws account.id) db.memberships)
    raise_if (not (is_none already)) (conflict WorkspaceMessages.member_exists)
    let created = new_seat id ws account.id actor (as_role input.role)
    modify (take_seat created)
    invalidate_workspace ws
    name ← gets (workspace_name ws)
    notify_members ws (account.id ∷ []) NotificationType.member_added
        (concat ("added you to " ∷ name ∷ " as " ∷ role_name (as_role input.role) ∷ [])) actor
        (AppLink.workspace ws)
    pure (created, account)

  unfoldable pub tell_about_role :
      ℕ → ℕ → WorkspaceRole → WorkspaceRole → ℕ → Exec (Db m) (Unit {0})
  tell_about_role ws u previous role actor = do
    name ← gets (workspace_name ws)
    notify_members ws (u ∷ []) NotificationType.member_role_changed
        (concat (
          "changed your role in "
          ∷ name
          ∷ " from "
          ∷ role_name previous
          ∷ " to "
          ∷ role_name role
          ∷ []))
        actor (AppLink.members ws)

  unfoldable pub update_member_role : ℕ → ℕ → ℕ → WorkspaceRole → ℕ → Exec (Db m) Membership
  update_member_role now ws u role actor = do
    raise_if (is_owner role) (bad_request WorkspaceMessages.owner_role_locked)
    seat ← reads (load_seat ws u WorkspaceMessages.member_not_found)
    raise_if (is_owner seat.role) (bad_request WorkspaceMessages.owner_role_locked)
    modify (λ db. record db {
      memberships = m.membership.update_one (λ d. d.id == seat.id) (with_role role) db.memberships;
    })
    forget_membership now ws u
    invalidate_workspace ws
    when (not (same_role seat.role role)) (tell_about_role ws u seat.role role actor)
    pure (with_role role seat)

  -- The owner hears that a member left, a member hears of being removed.
  unfoldable pub tell_about_removal : ℕ → ℕ → ℕ → Exec (Db m) (Unit {0})
  tell_about_removal ws u actor = do
    name ← gets (workspace_name ws)
    workspace ← gets (λ db. m.workspace.find_one (is_workspace ws) db.workspaces)
    if actor == u
        then notify_members ws (elim workspace [ some w ↦ w.owner ∷ [] | none ↦ [] ])
            NotificationType.member_left (concat ("left " ∷ name ∷ [])) actor (AppLink.members ws)
        else notify_members ws (u ∷ []) NotificationType.member_removed
            (concat ("removed you from " ∷ name ∷ [])) actor AppLink.home

  unfoldable pub remove_member : ℕ → ℕ → ℕ → ℕ → Exec (Db m) ℕ
  remove_member now ws u actor = do
    seat ← reads (load_seat ws u WorkspaceMessages.member_not_found)
    raise_if (is_owner seat.role) (bad_request WorkspaceMessages.owner_cannot_leave)
    modify (free_seat ws seat)
    forget_membership now ws u
    invalidate_workspace ws
    tell_about_removal ws u actor
    pure u

  -- The three writes of the transaction
  unfoldable pub hand_over : ℕ → ℕ → ℕ → Db m → Db m
  hand_over ws current next db = record db {
    memberships = m.membership.update_one (is_seat ws next) (with_role WorkspaceRole.owner) (
        m.membership.update_one (is_seat ws current) (with_role WorkspaceRole.admin)
          db.memberships);
    workspaces = m.workspace.update_one (is_workspace ws) (owned_by next) db.workspaces;
  }

  unfoldable pub current_owner : ℕ → ℕ → Db m → ℕ
  current_owner ws actor db = elim (m.workspace.find_one (is_workspace ws) db.workspaces) [
    | some w ↦ w.owner
    | none ↦ actor
  ]

  unfoldable pub transfer_ownership : ℕ → ℕ → ℕ → ℕ → Exec (Db m) (ℕ × ℕ)
  transfer_ownership now ws actor next = do
    reads (load_seat ws next WorkspaceMessages.member_not_found)
    current ← gets (current_owner ws actor)
    modify (hand_over ws current next)
    forget_membership now ws current
    forget_membership now ws next
    invalidate_workspace ws
    name ← gets (workspace_name ws)
    notify_members ws (next ∷ []) NotificationType.ownership_transferred
        (concat ("made you the owner of " ∷ name ∷ [])) actor (AppLink.members ws)
    pure (ws, next)

  unfoldable pub leave_workspace : ℕ → ℕ → ℕ → Exec (Db m) ℕ
  leave_workspace now ws u = do
    seat ← reads (load_seat ws u WorkspaceMessages.not_a_member)
    raise_if (is_owner seat.role) (bad_request WorkspaceMessages.owner_cannot_leave)
    remove_member now ws u u
