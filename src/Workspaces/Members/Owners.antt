-- ===== src/Workspaces/Members/Owners.antt =====
-- The owner of a workspace under the requests of src/services/workspace.service.ts.
use flowdeck_backend.Constants.WorkspaceMessages
use flowdeck_backend.Base.{
  Bool-cases, Option-cases, String, ap, arith, count, count-and, count-found, false, find, find-All,
  find-count_zero, find-map_first, find-map_first_other, find_sound, inl, inr, refl, some, subst,
  true, ℕ, ◌==◌, ◌∙◌, ◌≡◌,
}
use flowdeck_backend.Models.{Db, Membership, Models, Workspace, WorkspaceRole, is_owner}
use flowdeck_backend.Security.{below}
use flowdeck_backend.Store.{
  Ensures, Ensures-call, Ensures-gets, Ensures-modify, Ensures-pure, Ensures-reads, UnlessRefused,
  bad_request, err, ok, reads-raises, reads-returns,
}
use flowdeck_backend.Workspaces.{invalidate_workspace, is_workspace}
use flowdeck_backend.Workspaces.Access.{IsForgotten, load_membership}
use flowdeck_backend.Workspaces.Members.{
  current_owner, hand_over, is_seat, leave_workspace, load_seat, notify_members, remove_member,
  transfer_ownership, update_member_role, with_role,
}
use flowdeck_backend.Workspaces.Members.Forgetting.{forget_membership-Returns}
use flowdeck_backend.Workspaces.Members.Handlers.{IsSoundIn, current_owner-find, load_seat-find}
use flowdeck_backend.Workspaces.Members.Outcome.{load_membership-eq, seats_of, stored_role-some}
use flowdeck_backend.Workspaces.Seats.{IsSeated, is_owner_seat}
use flowdeck_backend.Workspaces.Seats.Handover.{demoted, promoted}

module _ {m : Models} (ws : ℕ) (w : Workspace) (db : Db m) where
  -- In a sound database the owner has a seat, with the owner's role.
  owner_seat :
      IsSoundIn db
      → find (is_workspace ws) (m.workspace.docs db.workspaces) ≡ some w
      → (seat : Membership) × (find (is_seat ws w.owner) (seats_of db) ≡ some seat)
        × (is_owner seat.role ≡ true)
  owner_seat h found =
      let at = find_sound (is_workspace ws) _ w found in
      let same : w.id ≡ ws = ground arith in
      let s = find-All (IsSeated (seats_of db)) (is_workspace ws) _ w found h.seated in
      let named = subst (λ k. count (is_owner_seat k w.owner) (seats_of db) ≡ 1) same s.named in
      elim (Option-cases (find (is_seat ws w.owner) (seats_of db))) [
        | inl absent ↦ absurd (
            ground (
              arith,
              find-count_zero (is_seat ws w.owner) (seats_of db) absent,
              count-and (is_seat ws w.owner) (λ d. is_owner d.role) (seats_of db),
            ))
        | inr (seat, e) ↦ (
          seat,
          e,
          ground (
            arith,
            count-found (is_seat ws w.owner) (λ d. is_owner d.role) (seats_of db) seat e
                (h.unique_seats ws w.owner),
          ),
        )
      ]

  load_seat-ok :
      (u : ℕ) (message : String) (seat : Membership)
      → find (is_seat ws u) (seats_of db) ≡ some seat
      → load_seat ws u message db ≡ ok seat
  unfolding load_seat
  load_seat-ok u message seat e =
      rw (m.membership.find_one_lem (is_seat ws u) db.memberships) (rw e refl)

  -- Of the owner of a workspace, no request to be removed, by whomever, or to leave, or to change
  -- role, does anything but raise the error that says so.
  pub owner-locked :
      (now actor : ℕ) (role : WorkspaceRole)
      → IsSoundIn db
      → find (is_workspace ws) (m.workspace.docs db.workspaces) ≡ some w
      → (remove_member now ws w.owner actor db
          ≡ (err (bad_request WorkspaceMessages.owner_cannot_leave), db))
        × (leave_workspace now ws w.owner db
            ≡ (err (bad_request WorkspaceMessages.owner_cannot_leave), db))
        × (update_member_role now ws w.owner role actor db
            ≡ (err (bad_request WorkspaceMessages.owner_role_locked), db))
  unfolding remove_member leave_workspace update_member_role
  owner-locked now actor role h found =
      let (seat, e, owns) = owner_seat h found in
      let load = λ (message : String). load_seat-ok w.owner message seat e in
      (
        reads-returns _ _ _ _ (load _) ∙ reads-raises _ _ _ _ (rw owns refl),
        reads-returns _ _ _ _ (load _) ∙ reads-raises _ _ _ _ (rw owns refl),
        elim (Bool-cases (is_owner role)) [
          | inl owner ↦ reads-raises _ _ _ _ (rw owner refl)
          | inr below ↦
              reads-returns _ _ _ tt (rw below refl)
              ∙ (reads-returns _ _ _ _ (load _) ∙ reads-raises _ _ _ _ (rw owns refl))
        ],
      )

module _ {m : Models} (ws actor heir : ℕ) (w : Workspace) (db : Db m) where
  -- The seats after a transfer to another member.
  handed_over :
      (seat : Membership)
      → IsSoundIn db
      → find (is_workspace ws) (m.workspace.docs db.workspaces) ≡ some w
      → (w.owner == heir) ≡ false
      → find (is_seat ws heir) (seats_of db) ≡ some seat
      → (old : Membership) × (find
            (is_seat ws heir)
            (promoted ws heir (demoted ws w.owner (seats_of db)))
          ≡ some (with_role WorkspaceRole.owner seat))
        × (find (is_seat ws w.owner) (promoted ws heir (demoted ws w.owner (seats_of db)))
            ≡ some (with_role WorkspaceRole.admin old))
  handed_over seat h found other e =
      let (old, e', owns) = owner_seat ws w db h found in
      let seats = seats_of db in
      let at = find_sound (is_seat ws heir) seats seat e in
      let at' = find_sound (is_seat ws w.owner) seats old e' in
      (
        old,
        find-map_first (is_seat ws heir) (with_role WorkspaceRole.owner) (demoted ws w.owner seats)
            seat
            (find-map_first_other (is_seat ws heir) (is_seat ws w.owner)
                (with_role WorkspaceRole.admin) seats (λ d here. ground arith)
              ∙ e)
            at,
        find-map_first_other (is_seat ws w.owner) (is_seat ws heir) (with_role WorkspaceRole.owner)
              (demoted ws w.owner seats) (λ d here. ground arith)
            ∙ find-map_first (is_seat ws w.owner) (with_role WorkspaceRole.admin) seats old e' at',
      )

  handed-up :
      (u : ℕ) → m.redis.up db.cached ≡ true → m.redis.up (hand_over ws u heir db).cached ≡ true
  unfolding hand_over
  handed-up u up = up

  docs-hand_over :
      (u : ℕ)
      → m.membership.docs (hand_over ws u heir db).memberships
        ≡ promoted ws heir (demoted ws u (seats_of db))
  unfolding hand_over
  docs-hand_over u =
      rw
        (m.membership.docs-update_one (is_seat ws heir) (with_role WorkspaceRole.owner)
          (m.membership.update_one (is_seat ws u) (with_role WorkspaceRole.admin) db.memberships))
        (rw
          (m.membership.docs-update_one (is_seat ws u) (with_role WorkspaceRole.admin)
            db.memberships)
          refl)

  -- While Redis answers, a request to transfer a workspace to someone else than its owner is refused
  -- and changes nothing, or the next check of the new owner, at any time, loads the owner's role, and
  -- that of the old one the administrator's.
  pub transfer_ownership-Outcome :
      (now later : ℕ)
      → IsSoundIn db
      → m.redis.up db.cached ≡ true
      → find (is_workspace ws) (m.workspace.docs db.workspaces) ≡ some w
      → (w.owner == heir) ≡ false
      → Ensures
          (UnlessRefused db (λ _ db'.
            ((load_membership later ws heir db').0 ≡ ok (some WorkspaceRole.owner))
            × ((load_membership later ws w.owner db').0 ≡ ok (some WorkspaceRole.admin))))
          (transfer_ownership now ws actor heir)
          db
  unfolding transfer_ownership invalidate_workspace notify_members
  transfer_ownership-Outcome now later h up found other =
      Ensures-reads _ _ _ _ (λ _. refl)
        λ seat e.
          let (old, owns, below) =
            handed_over seat h found other (load_seat-find ws heir _ db seat e) in
          let current = current_owner-find ws actor db w found in
          let docs : seats_of (hand_over ws (current_owner ws actor db) heir db)
              ≡ promoted ws heir (demoted ws w.owner (seats_of db)) =
            rw current (docs-hand_over w.owner) in
          Ensures-gets _ _ _ _ (
            Ensures-modify _ _ _ _ (
              Ensures-call _ _ _ _ _ (forget_membership-Returns now ws _ _ (handed-up _ up))
                λ _ s (kept, gone, _).
                  Ensures-call _ _ _ _ _ (forget_membership-Returns now ws heir s gone.0)
                    λ _ s' (same, gone', still). Ensures-modify _ _ _ _ (
                      Ensures-gets _ _ _ _ (
                        Ensures-modify _ _ _ _ (
                          let seats : seats_of s'
                              ≡ promoted ws heir (demoted ws w.owner (seats_of db)) =
                            ap (m.membership.docs) (same ∙ kept) ∙ docs in
                          Ensures-pure _ _ _ (
                            load_membership-eq later ws heir (some WorkspaceRole.owner) _ gone' (
                                stored_role-some ws heir s' (with_role WorkspaceRole.owner seat)
                                  (ap (find (is_seat ws heir)) seats ∙ owns)),
                            load_membership-eq later ws w.owner (some WorkspaceRole.admin) _
                                (subst (λ u. IsForgotten ws u s') current (still _ gone))
                                (stored_role-some ws w.owner s' (with_role WorkspaceRole.admin old)
                                  (ap (find (is_seat ws w.owner)) seats ∙ below)),
                          ))))))
