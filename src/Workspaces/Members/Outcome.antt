-- ===== src/Workspaces/Members/Outcome.antt =====
-- What a request of src/services/workspace.service.ts about a member leaves for
-- `require_workspace_role` to find.
use flowdeck_backend.Constants.WorkspaceMessages
use flowdeck_backend.Base.{
  Bool, Bool-cases, List, Option, ap, arith, count-remove_first, false, find, find-map_first,
  find-none, find_sound, find_unique, inl, inr, map_first-same, none, not, refl, some, subst, sym,
  true, ℕ, ◌==◌, ◌∙◌, ◌≡◌,
}
use flowdeck_backend.Cache.{CacheKey}
use flowdeck_backend.Models.{Db, Membership, Models, SystemRole, WorkspaceRole, is_owner, same_role}
use flowdeck_backend.Store.{
  Ensures, Ensures-call, Ensures-gets, Ensures-guard, Ensures-map, Ensures-modify, Ensures-pure,
  Ensures-reads, Returns, UnlessRefused, err, forbidden, modify, ok, pure, reads, when, ◌>>=◌,
}
use flowdeck_backend.Workspaces.{invalidate_workspace}
use flowdeck_backend.Workspaces.Access.{
  IsForgotten, is_super_admin, load_membership, load_membership-forgotten, require_workspace_role,
  require_workspace_role-loaded, role_of_seat, stored_role,
}
use flowdeck_backend.Workspaces.Members.{
  free_seat, is_seat, notify_members, remove_member, tell_about_removal, tell_about_role,
  update_member_role, with_role,
}
use flowdeck_backend.Workspaces.Members.Forgetting.{forget_membership-Returns}
use flowdeck_backend.Workspaces.Members.Handlers.{IsSoundIn, load_seat-find}
use flowdeck_backend.Workspaces.Seats.{has_seat_id}

module _ {m : Models} where
  abbrev pub seats_of : Db m → List Membership
  seats_of db = m.membership.docs db.memberships

  pub stored_role-some :
      (ws u : ℕ) (db : Db m) (seat : Membership)
      → find (is_seat ws u) (seats_of db) ≡ some seat
      → stored_role ws u db ≡ some seat.role
  stored_role-some ws u db seat e =
      ap role_of_seat (m.membership.find_one_lem (is_seat ws u) db.memberships ∙ e)

  stored_role-none :
      (ws u : ℕ) (db : Db m) → find (is_seat ws u) (seats_of db) ≡ none → stored_role ws u db ≡ none
  stored_role-none ws u db e =
      ap role_of_seat (m.membership.find_one_lem (is_seat ws u) db.memberships ∙ e)

  -- What the next check loads of a membership that Redis holds nothing of.
  pub load_membership-eq :
      (later ws u : ℕ) (a : Option WorkspaceRole) (db : Db m)
      → IsForgotten ws u db
      → stored_role ws u db ≡ a
      → (load_membership later ws u db).0 ≡ ok a
  load_membership-eq later ws u a db gone e = load_membership-forgotten later ws u db gone ∙ ap ok e

  -- The seat that a removal frees is not found again.
  free_seat-vacant :
      (ws u : ℕ) (seat : Membership) (db : Db m)
      → find (is_seat ws u) (seats_of db) ≡ some seat
      → IsSoundIn db
      → find (is_seat ws u) (seats_of (free_seat ws seat db)) ≡ none
  unfolding free_seat
  free_seat-vacant ws u seat db found h =
      rw (m.membership.docs-delete_one (λ d. d.id == seat.id) db.memberships) (
        let at = find_sound (is_seat ws u) (seats_of db) seat found in
        let here : find (has_seat_id seat.id) (seats_of db) ≡ some seat =
          find_unique (is_seat ws u) (has_seat_id seat.id) (seats_of db) seat found (ground arith)
            (h.unique_ids seat.id) in
        find-none (is_seat ws u) _ (
          ground (
            arith,
            count-remove_first (has_seat_id seat.id) (is_seat ws u) (seats_of db) seat here,
            h.unique_seats ws u,
          )))

  tell_about_removal-Returns :
      (ws u actor : ℕ) (db : Db m)
      → Ensures
          (Returns (λ db'. (db'.memberships ≡ db.memberships) × (db'.cached ≡ db.cached)))
          (tell_about_removal ws u actor)
          db
  unfolding tell_about_removal notify_members modify
  tell_about_removal-Returns ws u actor db = Ensures-gets _ _ _ _ (
      Ensures-gets _ _ _ _ (elim (Bool-cases (actor == u)) [
        | inl left ↦ rw left (record { at = (refl, refl) })
        | inr removed ↦ rw removed (record { at = (refl, refl) })
      ]))

  tell_about_role-Returns :
      (told : Bool) (ws u : ℕ) (previous role : WorkspaceRole) (actor : ℕ) (db : Db m)
      → Ensures
          (Returns (λ db'. (db'.memberships ≡ db.memberships) × (db'.cached ≡ db.cached)))
          (when told (tell_about_role ws u previous role actor))
          db
  unfolding tell_about_role notify_members modify when pure reads ◌>>=◌
  tell_about_role-Returns true ws u previous role actor db = record { at = (refl, refl) }
  tell_about_role-Returns false ws u previous role actor db = record { at = (refl, refl) }

  find-with_role :
      (ws u : ℕ) (role : WorkspaceRole) (seat : Membership) (db : Db m)
      → find (is_seat ws u) (seats_of db) ≡ some seat
      → IsSoundIn db
      → find (is_seat ws u) (
          m.membership.docs
            (m.membership.update_one (λ d. d.id == seat.id) (with_role role) db.memberships))
        ≡ some (with_role role seat)
  find-with_role ws u role seat db found h =
      let at = find_sound (is_seat ws u) (seats_of db) seat found in
      let here : find (has_seat_id seat.id) (seats_of db) ≡ some seat =
        find_unique (is_seat ws u) (has_seat_id seat.id) (seats_of db) seat found (ground arith)
          (h.unique_ids seat.id) in
      rw (m.membership.docs-update_one (λ d. d.id == seat.id) (with_role role) db.memberships) (
        rw
          (map_first-same (has_seat_id seat.id) (is_seat ws u) (with_role role) (seats_of db) seat
            here found)
          (find-map_first (is_seat ws u) (with_role role) (seats_of db) seat found at))

  IsForgotten-cached :
      (ws u : ℕ) (db db' : Db m)
      → db'.cached ≡ db.cached
      → IsForgotten ws u db
      → IsForgotten ws u db'
  IsForgotten-cached ws u db db' same gone =
      subst (λ c. (m.redis.up c ≡ true) × (m.redis.find (CacheKey.membership ws u) c ≡ none))
        (sym same) gone

  -- A request to remove a member is refused and changes nothing, or it leaves that user no
  -- membership in the workspace, in the store or in the cache.
  remove_member-vacates :
      (now ws u actor : ℕ) (db : Db m)
      → IsSoundIn db
      → m.redis.up db.cached ≡ true
      → Ensures
          (UnlessRefused db (λ _ db'. IsForgotten ws u db' × (stored_role ws u db' ≡ none)))
          (remove_member now ws u actor)
          db
  unfolding remove_member invalidate_workspace free_seat
  remove_member-vacates now ws u actor db h up =
      Ensures-reads _ _ _ _ (λ _. refl)
        λ seat e. Ensures-guard _ _ _ _ _ refl λ _. Ensures-modify _ _ _ _ (
          Ensures-call _ _ _ _ _ (forget_membership-Returns now ws u _ up) λ _ s (kept, gone, _).
            Ensures-modify _ _ _ _ (
              Ensures-call _ _ _ _ _ (tell_about_removal-Returns ws u actor _)
                λ _ s' (same, cached). Ensures-pure _ _ _ (
                  IsForgotten-cached ws u s s' cached gone,
                  stored_role-none ws u s' (
                      subst (λ c. find (is_seat ws u) (m.membership.docs c) ≡ none)
                        (sym (same ∙ kept))
                        (free_seat-vacant ws u seat db (load_seat-find ws u _ db seat e) h)),
                )))

  -- While Redis answers, once a request to remove a member has been carried out, the next check of a
  -- role of that user in the workspace, at any time, refuses the user as no member, unless the user is
  -- a super administrator.
  pub remove_member-revokes :
      (now later ws u actor : ℕ) (minimum : WorkspaceRole) (role : SystemRole) (db : Db m)
      → is_super_admin role ≡ false
      → IsSoundIn db
      → m.redis.up db.cached ≡ true
      → Ensures
          (UnlessRefused db (λ _ db'.
            (require_workspace_role later minimum role (some ws) u db').0
            ≡ err (forbidden WorkspaceMessages.not_a_member)))
          (remove_member now ws u actor)
          db
  remove_member-revokes now later ws u actor minimum role db plain h up =
      Ensures-map db _ _ _ db (remove_member-vacates now ws u actor db h up)
        λ _ s' (gone, none_left).
          require_workspace_role-loaded later minimum role ws u none s' plain
            (load_membership-eq later ws u none s' gone none_left)

  -- While Redis answers, a request to change a role is refused and changes nothing, or the next check
  -- of the user, at any time, loads the role that it asks for, which is not the owner's.
  pub update_member_role-Outcome :
      (now later ws u : ℕ) (role : WorkspaceRole) (actor : ℕ) (db : Db m)
      → IsSoundIn db
      → m.redis.up db.cached ≡ true
      → Ensures
          (UnlessRefused db (λ seat db'.
            ((load_membership later ws u db').0 ≡ ok (some role))
            × (seat.role ≡ role)
            × (is_owner role ≡ false)))
          (update_member_role now ws u role actor)
          db
  unfolding update_member_role invalidate_workspace
  update_member_role-Outcome now later ws u role actor db h up =
      Ensures-guard _ _ _ _ _ refl λ none_given.
        Ensures-reads _ _ _ _ (λ _. refl)
          λ seat e. Ensures-guard _ _ _ _ _ refl λ _. Ensures-modify _ _ _ _ (
            Ensures-call _ _ _ _ _ (forget_membership-Returns now ws u _ up) λ _ s (kept, gone, _).
              Ensures-modify _ _ _ _ (
                Ensures-call _ _ _ _ _
                  (tell_about_role-Returns (not (same_role seat.role role)) ws u seat.role role
                    actor _)
                  λ _ s' (same, cached). Ensures-pure _ _ _ (
                    load_membership-eq later ws u (some role) s'
                        (IsForgotten-cached ws u s s' cached gone)
                        (stored_role-some ws u s' (with_role role seat) (
                          subst
                            (λ c.
                              find (is_seat ws u) (m.membership.docs c)
                              ≡ some (with_role role seat))
                            (sym (same ∙ kept))
                            (find-with_role ws u role seat db (load_seat-find ws u _ db seat e)
                              h))),
                    refl,
                    none_given,
                  )))
