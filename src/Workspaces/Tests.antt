-- ===== src/Workspaces/Tests.antt =====
-- Requests on one small workspace, and the theorems at concrete inputs.
use flowdeck_backend.Constants.WorkspaceMessages
use flowdeck_backend.Base.{
  List, String, [], arith, count, false, find, map, none, refl, some, ℕ, ◌∷◌, ◌≡◌,
}
use flowdeck_backend.Cache.{attempt, drop, or_fallback, read_json, write_json}
use flowdeck_backend.Cache.Remember.{or_resolve, remember}
use flowdeck_backend.Models.{
  AccountStatus, Db, Membership, SystemRole, User, Workspace, WorkspaceRole, empty_db, is_owner,
  list_models, on_cache,
}
use flowdeck_backend.Store.{
  Ensures, UnlessRefused, bad_request, conflict, err, forbidden, modify, not_found, ok, pure, reads,
  when, ◌>>=◌,
}
use flowdeck_backend.Workspaces.{
  archive_workspace, create_workspace, find_and_update, first_seat, invalidate_workspace,
  update_workspace, workspace_name,
}
use flowdeck_backend.Workspaces.Access.{load_membership, require_workspace_role}
use flowdeck_backend.Workspaces.Members.{
  AddMemberInput, AssignableRole, add_member, current_owner, forget_membership, free_seat,
  hand_over, is_seat, leave_workspace, load_seat, new_seat, notify_members, remove_member,
  take_seat, tell_about_removal, tell_about_role, transfer_ownership, update_member_role,
}
use flowdeck_backend.Workspaces.Members.Handlers.{IsSoundIn}
use flowdeck_backend.Workspaces.Members.Additions.{Added, add_member-Outcome, add_member-stale}
use flowdeck_backend.Workspaces.Members.Outcome.{remove_member-revokes, update_member_role-Outcome}
use flowdeck_backend.Workspaces.Members.Owners.{owner-locked, transfer_ownership-Outcome}
use flowdeck_backend.Workspaces.Requests.{Reach, Reach-IsSound, Step}
use flowdeck_backend.Workspaces.Seats.{has_seat_id}

abbrev workspace : Workspace
workspace = record {
  id = 7;
  name = "Docs";
  slug = "docs-a1";
  description = "";
  owner = 40;
  member_count = 2;
  archived_at = none;
}

abbrev account : ℕ → String → User
account id email = record {
  id = id;
  name = "";
  email = email;
  password = "";
  role = SystemRole.user;
  avatar_url = none;
  status = AccountStatus.active;
  last_login_at = none;
  password_changed_at = none;
  token_version = 0;
}

abbrev start : Db list_models
start = record empty_db {
  workspaces = workspace ∷ [];
  memberships = first_seat 1 7 40 ∷ new_seat 2 7 41 40 WorkspaceRole.member ∷ [];
  users = account 40 "a@x.io" ∷ account 41 "b@x.io" ∷ account 42 "c@x.io" ∷ [];
}

start-IsSoundIn : IsSoundIn start
start-IsSoundIn = record {
  unique_workspaces = λ x. ground arith;
  unique_ids = λ x. ground arith;
  unique_seats = λ ws u. ground arith;
  seated = (record { counted = refl; one_owner = refl; named = refl }, tt);
}

workspaces : Unit {0}
unfolding create_workspace update_workspace archive_workspace add_member update_member_role
    remove_member transfer_ownership leave_workspace find_and_update invalidate_workspace
    workspace_name load_seat forget_membership notify_members take_seat free_seat tell_about_role
    tell_about_removal hand_over current_owner load_membership require_workspace_role remember
    or_resolve on_cache read_json write_json attempt or_fallback drop ◌>>=◌ reads modify pure when
workspaces = tt

abbrev roles : Db list_models → List (ℕ × WorkspaceRole)
roles db = map (λ d. (d.user, d.role)) db.memberships

transferred :
    roles (transfer_ownership 0 7 40 41 start).1
    ≡ (40, WorkspaceRole.admin) ∷ (41, WorkspaceRole.owner) ∷ []
unfolding workspaces
transferred = refl

-- A new member counts, a second seat is refused, and so is an unknown address.
added :
    (map
        (λ w. w.member_count)
        (add_member 3 7 40
          (record { email = "c@x.io"; role = AssignableRole.viewer })
          start).1.workspaces
      ≡ 3 ∷ [])
    × ((add_member 3 7 40 (record { email = "b@x.io"; role = AssignableRole.viewer }) start).0
        ≡ err (conflict WorkspaceMessages.member_exists))
    × ((add_member 3 7 40 (record { email = "z@x.io"; role = AssignableRole.viewer }) start).0
        ≡ err (not_found WorkspaceMessages.user_not_found))
unfolding workspaces
added = (refl, refl, refl)

viewer_refused :
    (require_workspace_role 0 WorkspaceRole.admin SystemRole.user (some 7) 41 start).0
    ≡ err (forbidden WorkspaceMessages.role_too_low)
unfolding workspaces
viewer_refused = refl

abbrev after_four : Db list_models
after_four =
    (leave_workspace 0 7 40
      (transfer_ownership 0 7 40 41
        (add_member 3 7 40 (record { email = "c@x.io"; role = AssignableRole.admin })
          (create_workspace 8 9 "new-b2" 42 (record { name = "New"; description = none })
            start).1).1).1).1

abbrev after_create : Db list_models
after_create =
    (create_workspace 8 9 "new-b2" 42 (record { name = "New"; description = none }) start).1

fresh : count (has_seat_id 3) after_create.memberships ≡ 0
unfolding workspaces
fresh = refl

four_requests : Reach start after_four
four_requests =
    Reach.next
      (Reach.next
        (Reach.next
          (Reach.next Reach.here (
            Step.create_workspace 8 9 "new-b2" 42 (record { name = "New"; description = none }) refl
              refl refl))
          (Step.add_member 3 7 40 (record { email = "c@x.io"; role = AssignableRole.admin }) fresh))
        (Step.transfer_ownership 0 7 40 41))
      (Step.leave_workspace 0 7 40)

Reach-IsSound_example : IsSoundIn after_four
Reach-IsSound_example = Reach-IsSound four_requests start-IsSoundIn

remove_member-revokes_example :
    Ensures
      (UnlessRefused start (λ _ db'.
        (require_workspace_role 9 WorkspaceRole.viewer SystemRole.user (some 7) 41 db').0
        ≡ err (forbidden WorkspaceMessages.not_a_member)))
      (remove_member 0 7 41 40)
      start
remove_member-revokes_example =
    remove_member-revokes 0 9 7 41 40 WorkspaceRole.viewer SystemRole.user start refl
      start-IsSoundIn refl

update_member_role-Outcome_example :
    Ensures
      (UnlessRefused start (λ seat db'.
        ((load_membership 9 7 41 db').0 ≡ ok (some WorkspaceRole.admin))
        × (seat.role ≡ WorkspaceRole.admin)
        × (is_owner WorkspaceRole.admin ≡ false)))
      (update_member_role 0 7 41 WorkspaceRole.admin 40)
      start
update_member_role-Outcome_example =
    update_member_role-Outcome 0 9 7 41 WorkspaceRole.admin 40 start start-IsSoundIn refl

abbrev invitation : AddMemberInput
invitation = record { email = "c@x.io"; role = AssignableRole.member }

add_member-Outcome_example :
    Ensures
      (UnlessRefused start (Added 3 7 40 invitation start))
      (add_member 3 7 40 invitation)
      start
add_member-Outcome_example = add_member-Outcome 3 7 40 invitation start

-- The account asks for the workspace, is added, and asks again nine seconds later.
abbrev refused_once : Db list_models
refused_once =
    (require_workspace_role 1000 WorkspaceRole.viewer SystemRole.user (some 7) 42 start).1

abbrev seat_of_c : Membership
seat_of_c = new_seat 3 7 42 40 WorkspaceRole.member

add_member-stale_example :
    (find (is_seat 7 42) (add_member 3 7 40 invitation refused_once).1.memberships ≡ some seat_of_c)
    × ((require_workspace_role 10000 WorkspaceRole.viewer SystemRole.user
          (some 7)
          42
          (add_member 3 7 40 invitation refused_once).1).0
        ≡ err (forbidden WorkspaceMessages.not_a_member))
unfolding workspaces
add_member-stale_example =
    add_member-stale 10000 3 7 40 invitation WorkspaceRole.viewer SystemRole.user
      (seat_of_c, account 42 "c@x.io") refused_once refl refl refl refl

owner-locked_example :
    (remove_member 0 7 40 41 start
      ≡ (err (bad_request WorkspaceMessages.owner_cannot_leave), start))
    × (leave_workspace 0 7 40 start
        ≡ (err (bad_request WorkspaceMessages.owner_cannot_leave), start))
    × (update_member_role 0 7 40 WorkspaceRole.admin 41 start
        ≡ (err (bad_request WorkspaceMessages.owner_role_locked), start))
owner-locked_example = owner-locked 7 workspace start 0 41 WorkspaceRole.admin start-IsSoundIn refl

transfer_ownership-Outcome_example :
    Ensures
      (UnlessRefused start (λ _ db'.
        ((load_membership 9 7 41 db').0 ≡ ok (some WorkspaceRole.owner))
        × ((load_membership 9 7 40 db').0 ≡ ok (some WorkspaceRole.admin))))
      (transfer_ownership 0 7 40 41)
      start
transfer_ownership-Outcome_example =
    transfer_ownership-Outcome 7 40 41 workspace start 0 9 start-IsSoundIn refl refl refl
