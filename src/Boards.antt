-- ===== src/Boards.antt =====
-- src/services/board.service.ts, lines 1 to 120: the guards and the notification that the board
-- operations share. The children hold the operations and what is proved of them.
pub mod Moves
pub mod Cards
pub mod Manage
pub mod Requests
mod Tests
pub mod Positions
use flowdeck_backend.Base.{
  ℕ, String, Bool, some, List, [], ◌∷◌, ◌++◌, ◌==◌, ◌&&◌, not, is_none, elem, length, if◌then◌else◌,
  filter,
}
use flowdeck_backend.Store.{Result, ok, err, or_raise, not_found, bad_request, Exec}
use flowdeck_backend.Models.{
  Board, BoardList, Card, Models, Db, cause, NotificationType, AppLink, AuditEntity, Effect,
}
use flowdeck_backend.Constants.BoardMessages

-- The members of a JavaScript `Set`, in the order of insertion.
unfoldable pub set_of : List ℕ → List ℕ
set_of [] = []
set_of (x ∷ xs) = let rest = set_of xs in x ∷ filter (λ y. not (y == x)) rest

abbrev pub is_board : ℕ → ℕ → Board → Bool
is_board ws b d = d.id == b && d.workspace == ws && is_none d.archived_at

abbrev pub is_list : ℕ → ℕ → BoardList → Bool
is_list b l d = d.id == l && d.board == b && is_none d.archived_at

abbrev pub is_card : ℕ → ℕ → Card → Bool
is_card b c d = d.id == c && d.board == b && is_none d.archived_at

module _ {m : Models} where
  pub load_board : ℕ → ℕ → Db m → Result Board
  load_board ws b db =
      or_raise (m.board.find_one (is_board ws b) db.boards) (not_found BoardMessages.not_found)

  pub load_list : ℕ → ℕ → Db m → Result BoardList
  load_list b l db =
      or_raise (m.board_list.find_one (is_list b l) db.lists)
        (not_found BoardMessages.list_not_found)

  pub load_card : ℕ → ℕ → Db m → Result Card
  load_card b c db =
      or_raise (m.card.find_one (is_card b c) db.cards) (not_found BoardMessages.card_not_found)

  -- `countDocuments({ workspace, user: { $in: userIds } })` against the size of the set of ids
  pub assert_members : ℕ → List ℕ → Db m → Result (Unit {0})
  assert_members ws [] db = ok tt
  assert_members ws (u ∷ us) db =
      let found =
        m.membership.count_documents (λ d. d.workspace == ws && elem d.user (u ∷ us))
          db.memberships in
      if found == length (set_of (u ∷ us))
      then ok tt
      else err (bad_request BoardMessages.assignee_not_member)

  pub invalidate : ℕ → Exec (Db m) (Unit {0})
  invalidate ws = cause (Effect.invalidate ws)

  pub notify_about_card :
      ℕ → ℕ → Card → ℕ → NotificationType → String → List ℕ → String → Exec (Db m) (Unit {0})
  notify_about_card ws b card actor type message recipients body = cause (
      Effect.notify (record {
        recipients = recipients;
        workspace = ws;
        type = type;
        message = message;
        body = some body;
        actor = some actor;
        entity_type = some AuditEntity.card;
        entity_id = some card.id;
        link = some (AppLink.board ws b);
      }))

pub card_watchers : Card → List ℕ
card_watchers card = card.assignees ++ card.created_by ∷ []
