-- ===== src/Workspaces/Seats/Handover.antt =====
-- What the writes of `transferOwnership` in workspace.service.ts do to the seats of a workspace.
use flowdeck_backend.Base.{
  All, All-map_first_found, All-of_none, Bool, List, Option-cases, [], arith, count, count-and,
  count-found, count-map_first, count-map_first_same, false, find, find-count_pos_by,
  find-count_zero, find_sound, inl, inr, map_first, map_first-absent, refl, some, subst, sym, true,
  ℕ, ◌==◌, ◌∙◌, ◌∷◌, ◌≡◌, ◌≤◌,
}
use flowdeck_backend.Models.{Membership, Workspace, WorkspaceRole, is_owner}
use flowdeck_backend.Workspaces.{is_workspace}
use flowdeck_backend.Workspaces.Members.{is_seat, owned_by, with_role}
use flowdeck_backend.Workspaces.Seats.{
  IsSeated, IsSound, has_seat_id, is_of, is_owner_of, is_owner_seat,
}

abbrev pub demoted : ℕ → ℕ → List Membership → List Membership
demoted ws u seats = map_first (is_seat ws u) (with_role WorkspaceRole.admin) seats

abbrev pub promoted : ℕ → ℕ → List Membership → List Membership
promoted ws u seats = map_first (is_seat ws u) (with_role WorkspaceRole.owner) seats

-- A test that does not look at roles counts as before.
count-with_role :
    (ws u : ℕ) (role : WorkspaceRole) (q : Membership → Bool) (seats : List Membership)
    → ((d : Membership) → q (with_role role d) ≡ q d)
    → count q (map_first (is_seat ws u) (with_role role) seats) ≡ count q seats
count-with_role ws u role q seats same =
    count-map_first_same (is_seat ws u) q (with_role role) seats (λ d _. same d)

-- The seats of other workspaces stay as they are.
count-elsewhere :
    (ws u : ℕ) (role : WorkspaceRole) (v : ℕ) (q : Membership → Bool) (seats : List Membership)
    → ((d : Membership) → is_of v d ≡ false → q d ≡ false)
    → (v == ws) ≡ false
    → count q (map_first (is_seat ws u) (with_role role) seats) ≡ count q seats
count-elsewhere ws u role v q seats only ne =
    count-map_first_same (is_seat ws u) q (with_role role) seats
      (λ d here. ground (arith, only d, only (with_role role d)))

count-seats :
    (ws u next v x : ℕ) (seats : List Membership)
    → count (is_seat v x) (promoted ws next (demoted ws u seats)) ≡ count (is_seat v x) seats
count-seats ws u next v x seats =
    count-with_role ws next WorkspaceRole.owner (is_seat v x) (demoted ws u seats) (λ _. refl)
    ∙ count-with_role ws u WorkspaceRole.admin (is_seat v x) seats (λ _. refl)

count-ids :
    (ws u next x : ℕ) (seats : List Membership)
    → count (has_seat_id x) (promoted ws next (demoted ws u seats)) ≡ count (has_seat_id x) seats
count-ids ws u next x seats =
    count-with_role ws next WorkspaceRole.owner (has_seat_id x) (demoted ws u seats) (λ _. refl)
    ∙ count-with_role ws u WorkspaceRole.admin (has_seat_id x) seats (λ _. refl)

-- The one owner steps down.
demoted-owners :
    (ws u : ℕ) (seats : List Membership)
    → count (is_seat ws u) seats ≤ 1
    → count (is_owner_of ws) seats ≡ 1
    → count (is_owner_seat ws u) seats ≡ 1
    → count (is_owner_of ws) (demoted ws u seats) ≡ 0
demoted-owners ws u seats unique one named = elim (Option-cases (find (is_seat ws u) seats)) [
  | inl absent ↦ ground (
    arith,
    find-count_zero (is_seat ws u) seats absent,
    count-and (is_seat ws u) (λ d. is_owner d.role) seats,
  )
  | inr (seat, found) ↦
      let at = find_sound (is_seat ws u) seats seat found in
      ground (
        arith,
        count-found (is_seat ws u) (λ d. is_owner d.role) seats seat found unique,
        count-map_first (is_seat ws u) (is_owner_of ws) (with_role WorkspaceRole.admin) seats seat
            found,
      )
]

-- A seat becomes the one owner's.
promoted-owners :
    (ws next : ℕ) (seats : List Membership)
    → 1 ≤ count (is_seat ws next) seats
    → count (is_owner_of ws) seats ≡ 0
    → (count (is_owner_of ws) (promoted ws next seats) ≡ 1)
      × (count (is_owner_seat ws next) (promoted ws next seats) ≡ 1)
promoted-owners ws next seats some_seat none_yet =
    elim (Option-cases (find (is_seat ws next) seats)) [
      | inl absent ↦ ground (arith, find-count_zero (is_seat ws next) seats absent)
      | inr (seat, found) ↦
          let at = find_sound (is_seat ws next) seats seat found in
          let moved = λ (q : Membership → Bool).
            count-map_first (is_seat ws next) q (with_role WorkspaceRole.owner) seats seat found in
          (
            ground (
              arith,
              moved (is_owner_of ws),
              find-count_pos_by (is_seat ws next) (is_owner_of ws) seats seat found,
            ),
            ground (
              arith,
              moved (is_owner_seat ws next),
              owners_bound ws next seats,
              find-count_pos_by (is_seat ws next) (is_owner_of ws) seats seat found,
            ),
          )
    ]
  where
    owners_bound :
        (ws u : ℕ) (seats : List Membership)
        → count (is_owner_seat ws u) seats ≤ count (is_owner_of ws) seats
    owners_bound ws u [] = ground arith
    owners_bound ws u (d ∷ seats) = ground (arith, owners_bound ws u seats)

module _ (ws u next : ℕ) (workspaces : List Workspace) (seats : List Membership) where
  handover-elsewhere :
      (v : Workspace)
      → is_workspace ws v ≡ false
      → IsSeated seats v
      → IsSeated (promoted ws next (demoted ws u seats)) v
  handover-elsewhere v other s =
      let kept : (q : Membership → Bool)
          → ((d : Membership) → is_of v.id d ≡ false → q d ≡ false)
          → count q (promoted ws next (demoted ws u seats)) ≡ count q seats =
        λ q only.
          count-elsewhere ws next WorkspaceRole.owner v.id q (demoted ws u seats) only other
          ∙ count-elsewhere ws u WorkspaceRole.admin v.id q seats only other in
      record {
        counted = s.counted ∙ sym (kept (is_of v.id) (λ d out. out));
        one_owner = kept (is_owner_of v.id) (λ d out. ground arith) ∙ s.one_owner;
        named = kept (is_owner_seat v.id v.owner) (λ d out. ground arith) ∙ s.named;
      }

  handover-here :
      (w : Workspace)
      → is_workspace ws w ≡ true
      → u ≡ w.owner
      → 1 ≤ count (is_seat ws next) seats
      → count (is_seat ws u) seats ≤ 1
      → IsSeated seats w
      → IsSeated (promoted ws next (demoted ws u seats)) (owned_by next w)
  handover-here w at owns seat unique s =
      let same : w.id ≡ ws = ground arith in
      let none_left =
        demoted-owners ws u seats unique
          (subst (λ k. count (is_owner_of k) seats ≡ 1) same s.one_owner)
          (rw owns (subst (λ k. count (is_owner_seat k w.owner) seats ≡ 1) same s.named)) in
      let again = count-with_role ws u WorkspaceRole.admin (is_seat ws next) seats (λ _. refl) in
      let (one, named) = promoted-owners ws next (demoted ws u seats) (rw again seat) none_left in
      rw same (record {
        counted =
            subst (λ k. w.member_count ≡ count (is_of k) seats) same s.counted
            ∙ sym (
                count-with_role ws next WorkspaceRole.owner (is_of ws) (demoted ws u seats)
                  (λ _. refl)
                ∙ count-with_role ws u WorkspaceRole.admin (is_of ws) seats (λ _. refl));
        one_owner = one;
        named = named;
      })

  -- Where the workspace exists, `u` is its owner, and `next` has a seat in it.
  pub handover-IsSound :
      ((w : Workspace) → find (is_workspace ws) workspaces ≡ some w → u ≡ w.owner)
      → 1 ≤ count (is_seat ws next) seats
      → IsSound workspaces seats
      → IsSound
          (map_first (is_workspace ws) (owned_by next) workspaces)
          (promoted ws next (demoted ws u seats))
  handover-IsSound owns seat h = record {
    unique_workspaces = λ x.
        rw
          (count-map_first_same (is_workspace ws) (is_workspace x) (owned_by next) workspaces
            (λ a _. refl))
          (h.unique_workspaces x);
    unique_ids = λ x. rw (count-ids ws u next x seats) (h.unique_ids x);
    unique_seats = λ v x. rw (count-seats ws u next v x seats) (h.unique_seats v x);
    seated = elim (Option-cases (find (is_workspace ws) workspaces)) [
      | inl absent ↦
          subst (All (IsSeated (promoted ws next (demoted ws u seats))))
            (sym (map_first-absent (is_workspace ws) (owned_by next) workspaces absent))
            (All-of_none _ _ (is_workspace ws) workspaces (find-count_zero _ workspaces absent)
              handover-elsewhere h.seated)
      | inr (w, found) ↦
          All-map_first_found _ _ (is_workspace ws) (owned_by next) workspaces w found
            (h.unique_workspaces ws) handover-elsewhere
            (handover-here w (find_sound (is_workspace ws) workspaces w found) (owns w found) seat
              (h.unique_seats ws u))
            h.seated
    ];
  }
