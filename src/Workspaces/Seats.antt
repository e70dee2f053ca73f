-- ===== src/Workspaces/Seats.antt =====
-- The invariant of workspaces and memberships for src/services/workspace.service.ts, and what the
-- writes of its operations do to it.
pub mod Handover
use flowdeck_backend.Base.{
  ==_iff, All, All-append, All-map_first, All-map, All-of_none, Bool, List, [], ap, arith, count,
  count-and, count-append, count-map_first, count-map_first_same, count-remove_first, false, find,
  find-count_zero, find_unique, find_sound, map_first, none, refl, remove_first, some, zero, ℕ,
  ◌&&◌, ◌++◌, ◌==◌, ◌∷◌, ◌≡◌, ◌≤◌,
}
use flowdeck_backend.Models.{Membership, Workspace, WorkspaceRole, is_owner}
use flowdeck_backend.Workspaces.{first_seat, is_workspace}
use flowdeck_backend.Workspaces.Members.{is_seat, one_less, one_more, with_role}

-- A membership of the workspace; one of an owner; that of the owner `u`.
abbrev pub is_of : ℕ → Membership → Bool
is_of ws d = d.workspace == ws

abbrev pub is_owner_of : ℕ → Membership → Bool
is_owner_of ws d = d.workspace == ws && is_owner d.role

abbrev pub is_owner_seat : ℕ → ℕ → Membership → Bool
is_owner_seat ws u d = is_seat ws u d && is_owner d.role

abbrev pub has_seat_id : ℕ → Membership → Bool
has_seat_id x d = d.id == x

-- The workspace counts its memberships, has one owner, and names that owner.
pub record IsSeated (seats : List Membership) (w : Workspace) : Type 0 where
  pub counted : w.member_count ≡ count (is_of w.id) seats
  pub one_owner : count (is_owner_of w.id) seats ≡ 1
  pub named : count (is_owner_seat w.id w.owner) seats ≡ 1

-- Ids are unique, nobody has two seats in one workspace, and every workspace is seated.
pub record IsSound (workspaces : List Workspace) (seats : List Membership) : Type 0 where
  pub unique_workspaces : (x : ℕ) → count (is_workspace x) workspaces ≤ 1
  pub unique_ids : (x : ℕ) → count (has_seat_id x) seats ≤ 1
  pub unique_seats : (ws u : ℕ) → count (is_seat ws u) seats ≤ 1
  pub seated : All (IsSeated seats) workspaces

module _ (workspaces : List Workspace) (seats : List Membership)
    (h : IsSound workspaces seats) where
  -- A seat that is not the owner's goes, and the count with it.
  pub leave-IsSound :
      (ws u : ℕ) (seat : Membership)
      → find (is_seat ws u) seats ≡ some seat
      → is_owner seat.role ≡ false
      → IsSound
          (map_first (is_workspace ws) one_less workspaces)
          (remove_first (has_seat_id seat.id) seats)
  leave-IsSound ws u seat found no_owner =
      let at = find_sound (is_seat ws u) seats seat found in
      let here : find (has_seat_id seat.id) seats ≡ some seat =
        find_unique (is_seat ws u) (has_seat_id seat.id) seats seat found (ground arith)
          (h.unique_ids seat.id) in
      let less =
        λ (q : Membership → Bool). count-remove_first (has_seat_id seat.id) q seats seat here in
      record {
        unique_workspaces = λ x.
            rw
              (count-map_first_same (is_workspace ws) (is_workspace x) one_less workspaces
                (λ a _. refl))
              (h.unique_workspaces x);
        unique_ids = λ x. omega (arith, less (has_seat_id x), h.unique_ids x);
        unique_seats = λ v x. omega (arith, less (is_seat v x), h.unique_seats v x);
        seated =
            All-map_first _ _ (is_workspace ws) one_less workspaces (h.unique_workspaces ws)
              (λ w other s. record {
                counted = ground (arith, less (is_of w.id), s.counted);
                one_owner = ground (arith, less (is_owner_of w.id), s.one_owner);
                named = ground (arith, less (is_owner_seat w.id w.owner), s.named);
              })
              (λ w same s. record {
                counted = ground (arith, less (is_of w.id), s.counted);
                one_owner = ground (arith, less (is_owner_of w.id), s.one_owner);
                named = ground (arith, less (is_owner_seat w.id w.owner), s.named);
              })
              h.seated;
      }

  -- A new seat in a workspace, with a role below the owner's.
  pub join-IsSound :
      (seat : Membership)
      → count (has_seat_id seat.id) seats ≡ 0
      → find (is_seat seat.workspace seat.user) seats ≡ none
      → is_owner seat.role ≡ false
      → IsSound (map_first (is_workspace seat.workspace) one_more workspaces) (seats ++ seat ∷ [])
  join-IsSound seat fresh vacant no_owner =
      let ws = seat.workspace in
      let more = λ (q : Membership → Bool). count-append q seats (seat ∷ []) in
      let zero = find-count_zero (is_seat ws seat.user) seats vacant in
      record {
        unique_workspaces = λ x.
            rw
              (count-map_first_same (is_workspace ws) (is_workspace x) one_more workspaces
                (λ a _. refl))
              (h.unique_workspaces x);
        unique_ids = λ x. grind (arith, more (has_seat_id x), h.unique_ids x, ==_iff seat.id x);
        unique_seats = λ v x.
            grind (arith, more (is_seat v x), h.unique_seats v x, ==_iff ws v, ==_iff seat.user x);
        seated =
            All-map_first _ _ (is_workspace ws) one_more workspaces (h.unique_workspaces ws)
              (λ w other s. record {
                counted = ground (arith, more (is_of w.id), s.counted);
                one_owner = ground (arith, more (is_owner_of w.id), s.one_owner);
                named = ground (arith, more (is_owner_seat w.id w.owner), s.named);
              })
              (λ w same s. record {
                counted = ground (arith, more (is_of w.id), s.counted);
                one_owner = ground (arith, more (is_owner_of w.id), s.one_owner);
                named = ground (arith, more (is_owner_seat w.id w.owner), s.named);
              })
              h.seated;
      }

  -- A role below the owner's becomes another below the owner's.
  pub with_role-IsSound :
      (ws u : ℕ) (seat : Membership) (role : WorkspaceRole)
      → find (is_seat ws u) seats ≡ some seat
      → is_owner seat.role ≡ false
      → is_owner role ≡ false
      → IsSound workspaces (map_first (has_seat_id seat.id) (with_role role) seats)
  with_role-IsSound ws u seat role found no_owner none_given =
      let at = find_sound (is_seat ws u) seats seat found in
      let p = has_seat_id seat.id in
      let here : find p seats ≡ some seat =
        find_unique (is_seat ws u) p seats seat found (ground arith) (h.unique_ids seat.id) in
      let moved = λ (q : Membership → Bool). count-map_first p q (with_role role) seats seat here in
      record {
        unique_workspaces = h.unique_workspaces;
        unique_ids = λ x. ground (arith, moved (has_seat_id x), h.unique_ids x);
        unique_seats = λ v x. ground (arith, moved (is_seat v x), h.unique_seats v x);
        seated =
            All-map _ _ workspaces
              (λ w s. record {
                counted = ground (arith, moved (is_of w.id), s.counted);
                one_owner = ground (arith, moved (is_owner_of w.id), s.one_owner);
                named = ground (arith, moved (is_owner_seat w.id w.owner), s.named);
              })
              h.seated;
      }

  -- A new workspace with its owner's seat.
  pub found-IsSound :
      (w : Workspace) (seat : ℕ)
      → count (is_workspace w.id) workspaces ≡ 0
      → count (has_seat_id seat) seats ≡ 0
      → count (is_of w.id) seats ≡ 0
      → w.member_count ≡ 1
      → IsSound (workspaces ++ w ∷ []) (seats ++ first_seat seat w.id w.owner ∷ [])
  found-IsSound w seat fresh fresh_seat empty one =
      let new = first_seat seat w.id w.owner in
      let more = λ (q : Membership → Bool). count-append q seats (new ∷ []) in
      record {
        unique_workspaces = λ x. grind (
          arith,
          count-append (is_workspace x) workspaces (w ∷ []),
          h.unique_workspaces x,
          ==_iff w.id x,
        );
        unique_ids = λ x. grind (arith, more (has_seat_id x), h.unique_ids x, ==_iff seat x);
        unique_seats = λ v x. grind (
          arith,
          more (is_seat v x),
          h.unique_seats v x,
          ==_iff w.id v,
          count-and (is_of w.id) (λ d. d.user == x) seats,
        );
        seated =
            All-append _ workspaces (w ∷ [])
              (All-of_none _ _ (is_workspace w.id) workspaces fresh
                (λ v other s. record {
                  counted = ground (arith, more (is_of v.id), s.counted);
                  one_owner = ground (arith, more (is_owner_of v.id), s.one_owner);
                  named = ground (arith, more (is_owner_seat v.id v.owner), s.named);
                })
                h.seated)
              (
                record {
                  counted = ground (arith, more (is_of w.id));
                  one_owner = ground (
                    arith,
                    more (is_owner_of w.id),
                    count-and (is_of w.id) (λ d. is_owner d.role) seats,
                  );
                  named = ground (
                    arith,
                    more (is_owner_seat w.id w.owner),
                    count-and (is_of w.id) (λ d. d.user == w.owner && is_owner d.role) seats,
                  );
                },
                tt,
              );
      }

  -- Fields of a workspace change that its seats do not show in.
  pub change-IsSound :
      (ws : ℕ) (f : Workspace → Workspace)
      → ((w : Workspace)
          → ((f w).id ≡ w.id) × ((f w).owner ≡ w.owner) × ((f w).member_count ≡ w.member_count))
      → IsSound (map_first (is_workspace ws) f workspaces) seats
  change-IsSound ws f same = record {
    unique_workspaces = λ x.
        rw
          (count-map_first_same (is_workspace ws) (is_workspace x) f workspaces
            (λ w _. ap (λ k. k == x) (same w).0))
          (h.unique_workspaces x);
    unique_ids = h.unique_ids;
    unique_seats = h.unique_seats;
    seated =
        All-map_first _ _ (is_workspace ws) f workspaces (h.unique_workspaces ws) (λ w _ s. s)
          (λ w _ s. let (i, o, c) = same w in record { counted = cc; one_owner = cc; named = cc })
          h.seated;
  }
