-- ===== src/Workspaces/Members/Handlers.antt =====
-- The requests of src/services/workspace.service.ts on members, and the invariant of
-- Workspaces/Seats.
use flowdeck_backend.Base.{
  Bool-cases, List, String, arith, count, false, find, find-count_pos, inl, inr, is_none, none, not,
  refl, some, sym, ℕ, ◌==◌, ◌∙◌, ◌≡◌,
}
use flowdeck_backend.Models.{
  AppLink, Db, Membership, Models, NotificationType, Workspace, WorkspaceRole, is_owner, on_cache,
}
use flowdeck_backend.Store.{
  Keeps, Keeps-call, Keeps-gets, Keeps-guard, Keeps-modify, Keeps-pure, Keeps-reads, Keeps-when,
  modify, ok, or_raise-eq-ok,
}
use flowdeck_backend.Workspaces.{invalidate_workspace, is_workspace}
use flowdeck_backend.Workspaces.Members.{
  AddMemberInput, AssignableRole, add_member, as_role, current_owner, forget_membership, free_seat,
  hand_over, is_seat, leave_workspace, load_seat, new_seat, notify_members, one_less, one_more,
  owned_by, remove_member, take_seat, tell_about_removal, tell_about_role, transfer_ownership,
  update_member_role, with_role,
}
use flowdeck_backend.Workspaces.Seats.{
  IsSound, has_seat_id, join-IsSound, leave-IsSound, with_role-IsSound,
}
use flowdeck_backend.Workspaces.Seats.Handover.{handover-IsSound}

abbrev pub IsSoundIn : {m : Models} → Db m → Type 0
IsSoundIn {m} db = IsSound (m.workspace.docs db.workspaces) (m.membership.docs db.memberships)

as_role-below : (role : AssignableRole) → is_owner (as_role role) ≡ false
as_role-below AssignableRole.admin = refl
as_role-below AssignableRole.member = refl
as_role-below AssignableRole.viewer = refl

module _ {m : Models} where
  pub load_seat-find :
      (ws u : ℕ) (message : String) (db : Db m) (seat : Membership)
      → load_seat ws u message db ≡ ok seat
      → find (is_seat ws u) (m.membership.docs db.memberships) ≡ some seat
  unfolding load_seat
  load_seat-find ws u message db seat e =
      sym (m.membership.find_one_lem (is_seat ws u) db.memberships) ∙ or_raise-eq-ok _ _ seat e

  pub find_one-found :
      (ws u : ℕ) (db : Db m)
      → not (is_none (m.membership.find_one (is_seat ws u) db.memberships)) ≡ false
      → find (is_seat ws u) (m.membership.docs db.memberships) ≡ none
  find_one-found ws u db e =
      sym (m.membership.find_one_lem (is_seat ws u) db.memberships) ∙ ground arith

  free_seat-IsSound :
      (ws u : ℕ) (seat : Membership) (db : Db m)
      → find (is_seat ws u) (m.membership.docs db.memberships) ≡ some seat
      → is_owner seat.role ≡ false
      → IsSoundIn db
      → IsSoundIn (free_seat ws seat db)
  unfolding free_seat
  free_seat-IsSound ws u seat db found no_owner h =
      rw (m.membership.docs-delete_one (λ d. d.id == seat.id) db.memberships) (
        rw (m.workspace.docs-update_one (is_workspace ws) one_less db.workspaces)
          (leave-IsSound _ _ h ws u seat found no_owner))

  pub notify_members-Keeps :
      (ws : ℕ) (recipients : List ℕ) (type : NotificationType) (message : String) (actor : ℕ)
      (link : AppLink) (db : Db m)
      → IsSoundIn db
      → Keeps IsSoundIn (notify_members ws recipients type message actor link) db
  unfolding notify_members modify
  notify_members-Keeps ws recipients type message actor link db h = record { at = h }

  pub tell_about_role-Keeps :
      (ws u : ℕ) (previous role : WorkspaceRole) (actor : ℕ) (db : Db m)
      → IsSoundIn db
      → Keeps IsSoundIn (tell_about_role ws u previous role actor) db
  unfolding tell_about_role
  tell_about_role-Keeps ws u previous role actor db h =
      Keeps-gets _ _ _ _ (notify_members-Keeps ws _ _ _ actor _ db h)

  pub tell_about_removal-Keeps :
      (ws u actor : ℕ) (db : Db m)
      → IsSoundIn db
      → Keeps IsSoundIn (tell_about_removal ws u actor) db
  unfolding tell_about_removal
  tell_about_removal-Keeps ws u actor db h = Keeps-gets _ _ _ _ (
      Keeps-gets _ _ _ _ (elim (Bool-cases (actor == u)) [
        | inl left ↦ rw left (notify_members-Keeps ws _ _ _ actor _ db h)
        | inr removed ↦ rw removed (notify_members-Keeps ws _ _ _ actor _ db h)
      ]))

  forget_membership-Keeps :
      (now ws u : ℕ) (db : Db m) → IsSoundIn db → Keeps IsSoundIn (forget_membership now ws u) db
  unfolding forget_membership on_cache
  forget_membership-Keeps now ws u db h = record { at = h }

  pub remove_member-Keeps :
      (now ws u actor : ℕ) (db : Db m)
      → IsSoundIn db
      → Keeps IsSoundIn (remove_member now ws u actor) db
  unfolding remove_member invalidate_workspace
  remove_member-Keeps now ws u actor db h = Keeps-reads _ _ _ _ h λ seat e.
      Keeps-guard _ _ _ _ _ h λ no_owner. Keeps-modify _ _ _ _ (
        Keeps-call _ _ _ _
          (forget_membership-Keeps now ws u _
            (free_seat-IsSound ws u seat db (load_seat-find ws u _ db seat e) no_owner h))
          λ _ s hs. Keeps-modify _ _ _ _ (
            Keeps-call _ _ _ _ (tell_about_removal-Keeps ws u actor _ hs)
              (λ _ s' hs'. Keeps-pure _ _ s' hs')))

  pub leave_workspace-Keeps :
      (now ws u : ℕ) (db : Db m) → IsSoundIn db → Keeps IsSoundIn (leave_workspace now ws u) db
  unfolding leave_workspace
  leave_workspace-Keeps now ws u db h =
      Keeps-reads _ _ _ _ h
        λ seat _. Keeps-guard _ _ _ _ _ h λ _. remove_member-Keeps now ws u u db h

  pub add_member-Keeps :
      (id ws actor : ℕ) (input : AddMemberInput) (db : Db m)
      → count (has_seat_id id) (m.membership.docs db.memberships) ≡ 0
      → IsSoundIn db
      → Keeps IsSoundIn (add_member id ws actor input) db
  unfolding add_member invalidate_workspace take_seat
  add_member-Keeps id ws actor input db fresh h = Keeps-reads _ _ _ _ h λ account _.
      Keeps-gets _ _ _ _ (
        Keeps-guard _ _ _ _ _ h λ vacant.
          let seat = new_seat id ws account.id actor (as_role input.role) in
          Keeps-modify _ _ _ _ (
            Keeps-modify _ _ _ _ (
              Keeps-gets _ _ _ _ (
                Keeps-call _ _ _ _
                  (notify_members-Keeps ws _ _ _ actor _ _ (
                    rw (m.membership.docs-create seat db.memberships) (
                      rw (m.workspace.docs-update_one (is_workspace ws) one_more db.workspaces) (
                        join-IsSound _ _ h seat fresh (find_one-found ws account.id db vacant)
                          (as_role-below input.role)))))
                  (λ _ s' hs. Keeps-pure _ _ s' hs)))))

  update_role-IsSound :
      (ws u : ℕ) (seat : Membership) (role : WorkspaceRole) (db : Db m)
      → find (is_seat ws u) (m.membership.docs db.memberships) ≡ some seat
      → is_owner seat.role ≡ false
      → is_owner role ≡ false
      → IsSoundIn db
      → IsSound (m.workspace.docs db.workspaces) (
          m.membership.docs
            (m.membership.update_one (λ d. d.id == seat.id) (with_role role) db.memberships))
  update_role-IsSound ws u seat role db found no_owner none_given h =
      rw (m.membership.docs-update_one (λ d. d.id == seat.id) (with_role role) db.memberships)
        (with_role-IsSound _ _ h ws u seat role found no_owner none_given)

  pub update_member_role-Keeps :
      (now ws u : ℕ) (role : WorkspaceRole) (actor : ℕ) (db : Db m)
      → IsSoundIn db
      → Keeps IsSoundIn (update_member_role now ws u role actor) db
  unfolding update_member_role invalidate_workspace
  update_member_role-Keeps now ws u role actor db h = Keeps-guard _ _ _ _ _ h λ none_given.
      Keeps-reads _ _ _ _ h λ seat e. Keeps-guard _ _ _ _ _ h λ no_owner.
        let kept =
          update_role-IsSound ws u seat role db (load_seat-find ws u _ db seat e) no_owner
            none_given h in
        Keeps-modify _ _ _ _ (
          Keeps-call _ _ _ _ (forget_membership-Keeps now ws u _ kept) λ _ s hs.
            Keeps-modify _ _ _ _ (
              Keeps-call _ _ _ _
                (Keeps-when _ _ _ _ hs (tell_about_role-Keeps ws u seat.role role actor _ hs))
                (λ _ s' hs'. Keeps-pure _ _ s' hs')))

  pub current_owner-find :
      (ws actor : ℕ) (db : Db m) (w : Workspace)
      → find (is_workspace ws) (m.workspace.docs db.workspaces) ≡ some w
      → current_owner ws actor db ≡ w.owner
  unfolding current_owner
  current_owner-find ws actor db w found =
      let e : m.workspace.find_one (is_workspace ws) db.workspaces ≡ some w =
        m.workspace.find_one_lem (is_workspace ws) db.workspaces ∙ found in
      rw (e, current_owner) refl

  hand_over-IsSound :
      (ws actor next : ℕ) (seat : Membership) (db : Db m)
      → find (is_seat ws next) (m.membership.docs db.memberships) ≡ some seat
      → IsSoundIn db
      → IsSoundIn (hand_over ws (current_owner ws actor db) next db)
  unfolding hand_over
  hand_over-IsSound ws actor next seat db found h =
      rw
        (m.membership.docs-update_one (is_seat ws next) (with_role WorkspaceRole.owner) (
          m.membership.update_one (is_seat ws (current_owner ws actor db))
            (with_role WorkspaceRole.admin) db.memberships))
        (rw
          (m.membership.docs-update_one (is_seat ws (current_owner ws actor db))
            (with_role WorkspaceRole.admin) db.memberships)
          (rw (m.workspace.docs-update_one (is_workspace ws) (owned_by next) db.workspaces) (
            handover-IsSound ws (current_owner ws actor db) next _ _
              (current_owner-find ws actor db) (find-count_pos _ _ seat found) h)))

  pub transfer_ownership-Keeps :
      (now ws actor next : ℕ) (db : Db m)
      → IsSoundIn db
      → Keeps IsSoundIn (transfer_ownership now ws actor next) db
  unfolding transfer_ownership invalidate_workspace
  transfer_ownership-Keeps now ws actor next db h = Keeps-reads _ _ _ _ h λ seat e.
      Keeps-gets _ _ _ _ (
        Keeps-modify _ _ _ _ (
          Keeps-call _ _ _ _
            (forget_membership-Keeps now ws _ _
              (hand_over-IsSound ws actor next seat db (load_seat-find ws next _ db seat e) h))
            λ _ s hs. Keeps-call _ _ _ _ (forget_membership-Keeps now ws next _ hs) λ _ s' hs'.
              Keeps-modify _ _ _ _ (
                Keeps-gets _ _ _ _ (
                  Keeps-call _ _ _ _ (notify_members-Keeps ws _ _ _ actor _ _ hs')
                    (λ _ s'' hs''. Keeps-pure _ _ s'' hs'')))))
