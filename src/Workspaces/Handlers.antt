-- ===== src/Workspaces/Handlers.antt =====
-- The requests of src/services/workspace.service.ts on workspaces themselves, and the invariant of
-- Workspaces/Seats.
use flowdeck_backend.Base.{String, count, refl, ℕ, ◌≡◌}
use flowdeck_backend.Models.{Db, Models, Workspace}
use flowdeck_backend.Store.{Keeps, Keeps-call, Keeps-modify, Keeps-pure, Keeps-reads}
use flowdeck_backend.Workspaces.{
  CreateWorkspaceInput, UpdateWorkspaceInput, archive_workspace, create_workspace, find_and_update,
  first_seat, invalidate_workspace, is_workspace, update_workspace,
}
use flowdeck_backend.Workspaces.Members.Handlers.{IsSoundIn}
use flowdeck_backend.Workspaces.Seats.{IsSound, change-IsSound, found-IsSound, has_seat_id, is_of}

module _ {m : Models} where
  found-IsSoundIn :
      (w : Workspace) (seat : ℕ) (db : Db m)
      → count (is_workspace w.id) (m.workspace.docs db.workspaces) ≡ 0
      → count (has_seat_id seat) (m.membership.docs db.memberships) ≡ 0
      → count (is_of w.id) (m.membership.docs db.memberships) ≡ 0
      → w.member_count ≡ 1
      → IsSoundIn db
      → IsSound
          (m.workspace.docs (m.workspace.create w db.workspaces))
          (m.membership.docs (m.membership.create (first_seat seat w.id w.owner) db.memberships))
  found-IsSoundIn w seat db fresh fresh_seat empty one h =
      rw (m.workspace.docs-create w db.workspaces) (
        rw (m.membership.docs-create (first_seat seat w.id w.owner) db.memberships)
          (found-IsSound _ _ h w seat fresh fresh_seat empty one))

  pub create_workspace-Keeps :
      (id seat : ℕ) (slug : String) (author : ℕ) (payload : CreateWorkspaceInput) (db : Db m)
      → count (is_workspace id) (m.workspace.docs db.workspaces) ≡ 0
      → count (has_seat_id seat) (m.membership.docs db.memberships) ≡ 0
      → count (is_of id) (m.membership.docs db.memberships) ≡ 0
      → IsSoundIn db
      → Keeps IsSoundIn (create_workspace id seat slug author payload) db
  unfolding create_workspace
  create_workspace-Keeps id seat slug author payload db fresh fresh_seat empty h =
      Keeps-modify _ _ _ _ (
        Keeps-modify _ _ _ _
          (Keeps-pure _ _ _ (found-IsSoundIn _ seat db fresh fresh_seat empty refl h)))

  pub find_and_update-Keeps :
      (ws : ℕ) (f : Workspace → Workspace) (db : Db m)
      → ((w : Workspace)
          → ((f w).id ≡ w.id) × ((f w).owner ≡ w.owner) × ((f w).member_count ≡ w.member_count))
      → IsSoundIn db
      → Keeps IsSoundIn (find_and_update ws f) db
  unfolding find_and_update
  find_and_update-Keeps ws f db same h = Keeps-reads _ _ _ _ h λ w _. Keeps-modify _ _ _ _ (
      Keeps-pure _ _ _ (
        rw (m.workspace.docs-update_one (is_workspace ws) f db.workspaces)
          (change-IsSound _ _ h ws f same)))

  pub update_workspace-Keeps :
      (ws : ℕ) (payload : UpdateWorkspaceInput) (db : Db m)
      → IsSoundIn db
      → Keeps IsSoundIn (update_workspace ws payload) db
  unfolding update_workspace invalidate_workspace
  update_workspace-Keeps ws payload db h =
      Keeps-call _ _ _ _ (find_and_update-Keeps ws _ db (λ w. (refl, refl, refl)) h)
        (λ w s' hs. Keeps-modify _ _ _ _ (Keeps-pure _ _ _ hs))

  pub archive_workspace-Keeps :
      (now ws : ℕ) (db : Db m) → IsSoundIn db → Keeps IsSoundIn (archive_workspace now ws) db
  unfolding archive_workspace invalidate_workspace
  archive_workspace-Keeps now ws db h =
      Keeps-call _ _ _ _ (find_and_update-Keeps ws _ db (λ w. (refl, refl, refl)) h)
        (λ w s' hs. Keeps-modify _ _ _ _ (Keeps-pure _ _ _ hs))
