-- ===== src/Workspaces/Members/Additions.antt =====
-- `addMember` of src/services/workspace.service.ts: what it leaves, and what the cache still says.
use flowdeck_backend.Constants.WorkspaceMessages
use flowdeck_backend.Base.{
  [], ap, arith, false, find, find-append_new, none, refl, some, subst, sym, true, ℕ, ◌++◌, ◌∙◌,
  ◌∷◌, ◌≡◌,
}
use flowdeck_backend.Models.{Db, Membership, Models, SystemRole, User, WorkspaceRole}
use flowdeck_backend.Store.{
  Ensures, Ensures-gets, Ensures-guard, Ensures-modify, Ensures-pure, Ensures-reads, UnlessRefused,
  err, forbidden, ok, or_raise-eq-ok,
}
use flowdeck_backend.Workspaces.{invalidate_workspace}
use flowdeck_backend.Workspaces.Access.{
  is_super_admin, load_membership-recalled, recalled_role, require_workspace_role,
  require_workspace_role-loaded,
}
use flowdeck_backend.Workspaces.Members.{
  AddMemberInput, add_member, as_role, has_email, is_seat, new_seat, notify_members, take_seat,
}
use flowdeck_backend.Workspaces.Members.Handlers.{find_one-found}
use flowdeck_backend.Workspaces.Members.Outcome.{seats_of}

module _ {m : Models} where
  -- What a request to add a member leaves: a new seat, of the account with that email, which had none,
  -- and the cached memberships, the counters and the flags as they were.
  abbrev pub Added : ℕ → ℕ → ℕ → AddMemberInput → Db m → Membership × User → Db m → Type 0
  Added id ws actor input db added db' =
      (find (has_email input.email) (m.user.docs db.users) ≡ some added.1)
      × (find (is_seat ws added.1.id) (seats_of db) ≡ none)
      × (added.0 ≡ new_seat id ws added.1.id actor (as_role input.role))
      × (seats_of db' ≡ seats_of db ++ added.0 ∷ [])
      × (db'.cached ≡ db.cached)

  -- A request to add a member is refused and changes nothing, or it adds one seat, with the role that
  -- it asks for, of the account with that email, which had none, and leaves the cached
  -- memberships as they were, with the counters and flags in Redis.
  pub add_member-Outcome :
      (id ws actor : ℕ) (input : AddMemberInput) (db : Db m)
      → Ensures (UnlessRefused db (Added id ws actor input db)) (add_member id ws actor input) db
  unfolding add_member invalidate_workspace notify_members take_seat
  add_member-Outcome id ws actor input db =
      Ensures-reads _ _ _ _ (λ _. refl)
        λ account e. Ensures-gets _ _ _ _ (
          Ensures-guard _ _ _ _ _ refl λ vacant. Ensures-modify _ _ _ _ (
            Ensures-modify _ _ _ _ (
              Ensures-gets _ _ _ _ (
                Ensures-modify _ _ _ _ (
                  Ensures-pure _ _ _ (
                    sym (m.user.find_one_lem (has_email input.email) db.users)
                        ∙ or_raise-eq-ok _ _ account e,
                    find_one-found ws account.id db vacant,
                    refl,
                    m.membership.docs-create _ db.memberships,
                    refl,
                  ))))))

  add_member-Added :
      (id ws actor : ℕ) (input : AddMemberInput) (added : Membership × User) (db : Db m)
      → (add_member id ws actor input db).0 ≡ ok added
      → Added id ws actor input db added (add_member id ws actor input db).1
  add_member-Added id ws actor input added db done =
      subst
        (λ r. UnlessRefused db (Added id ws actor input db) r (add_member id ws actor input db).1)
        done (add_member-Outcome id ws actor input db).at

  -- Where Redis answers, and holds from an earlier check that an account is no member, the addition of
  -- that account leaves the entry there: until it expires, checks refuse the new member.
  pub add_member-stale :
      (later id ws actor : ℕ) (input : AddMemberInput) (minimum : WorkspaceRole) (role : SystemRole)
      (added : Membership × User) (db : Db m)
      → is_super_admin role ≡ false
      → m.redis.up db.cached ≡ true
      → (add_member id ws actor input db).0 ≡ ok added
      → recalled_role later ws added.1.id db ≡ some none
      → (find (is_seat ws added.1.id) (seats_of (add_member id ws actor input db).1) ≡ some added.0)
        × ((require_workspace_role later minimum role
              (some ws)
              added.1.id
              (add_member id ws actor input db).1).0
            ≡ err (forbidden WorkspaceMessages.not_a_member))
  add_member-stale later id ws actor input minimum role added db plain up done held =
      let db' = (add_member id ws actor input db).1 in
      let u = added.1.id in
      let (_, absent, seat, docs, cached) = add_member-Added id ws actor input added db done in
      let stale = load_membership-recalled later ws u none db' (ap (m.redis.up) cached ∙ up) (
        subst (λ c. recalled_role later ws u (record db { cached = c }) ≡ some none) (sym cached)
          held) in
      (
        rw docs (
            find-append_new (is_seat ws u) (seats_of db) added.0 absent
              (ap (is_seat ws u) seat ∙ ground arith)),
        require_workspace_role-loaded later minimum role ws u none db' plain (ap (λ r. r.0) stale),
      )
