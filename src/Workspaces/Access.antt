-- ===== src/Workspaces/Access.antt =====
-- src/middlewares/workspaceAccess.ts and src/helpers/access.ts: the role that a request needs, with
-- the cache in front of the memberships. The clock `now` counts milliseconds, that of Redis seconds.
use flowdeck_backend.Constants.WorkspaceMessages
use flowdeck_backend.Base.{
  Bool, Option, ap, false, find, if◌then◌else◌, ltb, none, refl, some, true, ℕ, ◌/◌, ◌≡◌,
}
use flowdeck_backend.Cache.{CacheKey, Value}
use flowdeck_backend.Cache.Remember.{recalled, remember, remember-recalled, remember-resolved}
use flowdeck_backend.Models.{Db, Membership, Models, SystemRole, WorkspaceRole, workspace_role_rank}
use flowdeck_backend.Store.{
  Exec, Result, bad_request, call-returns, err, forbidden, gets, ok, pure, reads, ◌>>=◌,
}
use flowdeck_backend.Workspaces.Members.{is_seat}

abbrev pub is_super_admin : SystemRole → Bool
is_super_admin SystemRole.super_admin = true
is_super_admin SystemRole.user = false
is_super_admin SystemRole.support = false

-- `CACHE_TTL.MEDIUM`
abbrev pub membership_ttl : ℕ
membership_ttl = 120

-- What is cached is the role of a membership or, where there is none, `false`; either is found again.
abbrev pub parse_membership : Value → Option (Option WorkspaceRole)
parse_membership (Value.integer n) = none
parse_membership (Value.json a) = some a
parse_membership (Value.text t) = none

abbrev pub role_of_seat : Option Membership → Option WorkspaceRole
role_of_seat none = none
role_of_seat (some d) = some d.role

-- The guards on the membership that was loaded.
abbrev pub admitted : WorkspaceRole → Option WorkspaceRole → Result WorkspaceRole
admitted minimum none = err (forbidden WorkspaceMessages.not_a_member)
admitted minimum (some r) =
    if ltb (workspace_role_rank r) (workspace_role_rank minimum)
    then err (forbidden WorkspaceMessages.role_too_low)
    else ok r

module _ {m : Models} where
  -- The query behind the cache.
  abbrev pub stored_role : ℕ → ℕ → Db m → Option WorkspaceRole
  stored_role ws u db = role_of_seat (m.membership.find_one (is_seat ws u) db.memberships)

  unfoldable pub load_membership : ℕ → ℕ → ℕ → Exec (Db m) (Option WorkspaceRole)
  load_membership now ws u =
      remember Value.json parse_membership (now / 1000) (CacheKey.membership ws u) membership_ttl
        (gets (stored_role ws u))

  -- The role of the request's membership, or the refusal.
  unfoldable pub require_workspace_role :
      ℕ → WorkspaceRole → SystemRole → Option ℕ → ℕ → Exec (Db m) WorkspaceRole
  require_workspace_role now minimum role none u =
      reads (λ _. err (bad_request "A workspace identifier is required"))
  require_workspace_role now minimum role (some ws) u = do
    membership ←
        if is_super_admin role then pure (some WorkspaceRole.owner) else load_membership now ws u
    reads (λ _. admitted minimum membership)

  -- What Redis holds of a membership.
  abbrev pub recalled_role : ℕ → ℕ → ℕ → Db m → Option (Option WorkspaceRole)
  recalled_role now ws u db =
      recalled {m = m} Value.json parse_membership (now / 1000) (CacheKey.membership ws u) db

  -- Redis answers, and holds nothing of the membership.
  abbrev pub IsForgotten : ℕ → ℕ → Db m → Type 0
  IsForgotten ws u db =
      (m.redis.up db.cached ≡ true) × (m.redis.find (CacheKey.membership ws u) db.cached ≡ none)

  pub load_membership-forgotten :
      (now ws u : ℕ) (db : Db m)
      → IsForgotten ws u db
      → (load_membership now ws u db).0 ≡ ok (stored_role ws u db)
  unfolding load_membership
  load_membership-forgotten now ws u db (up, gone) =
      remember-resolved Value.json parse_membership (now / 1000) (CacheKey.membership ws u)
        membership_ttl (stored_role ws u) db up (rw gone refl)

  pub load_membership-recalled :
      (now ws u : ℕ) (a : Option WorkspaceRole) (db : Db m)
      → m.redis.up db.cached ≡ true
      → recalled_role now ws u db ≡ some a
      → load_membership now ws u db ≡ (ok a, db)
  unfolding load_membership
  load_membership-recalled now ws u a db up held =
      remember-recalled Value.json parse_membership (now / 1000) (CacheKey.membership ws u)
        membership_ttl (gets (stored_role ws u)) a db up held

  -- A check answers by what is loaded.
  pub require_workspace_role-loaded :
      (now : ℕ) (minimum : WorkspaceRole) (role : SystemRole) (ws u : ℕ) (a : Option WorkspaceRole)
      (db : Db m)
      → is_super_admin role ≡ false
      → (load_membership now ws u db).0 ≡ ok a
      → (require_workspace_role now minimum role (some ws) u db).0 ≡ admitted minimum a
  unfolding require_workspace_role reads
  require_workspace_role-loaded now minimum role ws u a db plain loaded = rw plain (
      ap (λ r. r.0)
        (call-returns (load_membership now ws u) (λ a. reads (λ _. admitted minimum a)) db a
          (load_membership now ws u db).1 (ap (λ r. (r, (load_membership now ws u db).1)) loaded)))

-- The order of the roles: what a role is enough for.
abbrev pub is_enough_for : WorkspaceRole → WorkspaceRole → Bool
is_enough_for WorkspaceRole.viewer minimum = elim minimum [
  | WorkspaceRole.viewer ↦ true
  | _ ↦ false
]
is_enough_for WorkspaceRole.member minimum = elim minimum [
  | WorkspaceRole.viewer ↦ true
  | WorkspaceRole.member ↦ true
  | _ ↦ false
]
is_enough_for WorkspaceRole.admin minimum = elim minimum [ WorkspaceRole.owner ↦ false | _ ↦ true ]
is_enough_for WorkspaceRole.owner minimum = true
