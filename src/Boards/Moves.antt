-- ===== src/Boards/Moves.antt =====
-- src/services/board.service.ts: `moveCard` and `archiveCard`, the operations that shift positions.
pub mod Contiguous
pub mod Handlers
pub mod Retire
pub mod Outcome
use mathlib.Core.Option
use flowdeck_backend.Base.{
  ℕ, ◌+◌, ◌-◌, Bool, true, false, none, some, Option, ◌∷◌, [], ◌==◌, ◌&&◌, not, is_none, ltb, leb,
  min, get_or, concat,
}
use flowdeck_backend.Store.{bad_request, Exec, reads, gets, modify, raise_if, pure, ◌>>=◌, ◌>>◌}
use flowdeck_backend.Models.{
  BoardList, Card, Models, Db, cause, NotificationType, SocketEvent, Effect,
}
use flowdeck_backend.Constants.BoardMessages
use flowdeck_backend.Boards.{
  load_board, load_list, load_card, invalidate, notify_about_card, card_watchers,
}

pub record MoveCardInput : Type 0 where
  pub list : Option ℕ
  pub position : Option ℕ

-- `list.cardLimit && n >= list.cardLimit`: a null or zero limit is no limit.
unfoldable pub reaches_limit : Option ℕ → ℕ → Bool
reaches_limit none n = false
reaches_limit (some limit) n = ltb 0 limit && leb limit n

-- The filter of the first `updateMany`: the active cards of the source list behind the card.
abbrev pub is_behind : Card → Card → Bool
is_behind card d =
    d.list == card.list
    && ltb card.position d.position
    && is_none d.archived_at
    && not (d.id == card.id)

-- The filter of the second `updateMany`: the active cards of the target list from the new position.
abbrev pub is_from : Card → ℕ → ℕ → Card → Bool
is_from card target next d =
    d.list == target && leb next d.position && is_none d.archived_at && not (d.id == card.id)

abbrev pub step_back : Card → Card
step_back d = record d { position = d.position - 1 }

abbrev pub step_on : Card → Card
step_on d = record d { position = d.position + 1 }

abbrev pub place : ℕ → ℕ → Card → Card
place target next d = record d { list = target; position = next }

abbrev pub retire : ℕ → Card → Card
retire now d = record d { archived_at = some now }

-- The filter of `archiveCard`: the active cards behind the archived one.
abbrev pub is_after : Card → Card → Bool
is_after card d = d.list == card.list && ltb card.position d.position && is_none d.archived_at

module _ {m : Models} where
  -- The two shifts and the save of the card, which one transaction makes.
  unfoldable pub shift_cards : Card → ℕ → ℕ → Db m → Db m
  shift_cards card target next db =
      let closed = m.card.update_many (is_behind card) step_back db.cards in
      let opened = m.card.update_many (is_from card target next) step_on closed in
      record db { cards = m.card.update_one (λ d. d.id == card.id) (place target next) opened }

  -- What follows a move between lists: the watchers are told both names.
  unfoldable pub tell_about_move : Bool → ℕ → ℕ → Card → BoardList → ℕ → Exec (Db m) (Unit {0})
  tell_about_move true ws b card target actor = pure tt
  tell_about_move false ws b card target actor = do
    source ← gets (λ db. m.board_list.find_one (λ d. d.id == card.list) db.lists)
    notify_about_card ws b card actor NotificationType.card_moved
        (concat ("moved \"" ∷ card.title ∷ "\" to " ∷ target.name ∷ [])) (card_watchers card)
        (concat (
          "From "
          ∷ get_or (Option.map (λ d. d.name) source) "another list"
          ∷ " to "
          ∷ target.name
          ∷ []))

  unfoldable pub move_card : ℕ → ℕ → ℕ → ℕ → MoveCardInput → Exec (Db m) Card
  move_card ws b c actor input = do
    reads (load_board ws b)
    card ← reads (load_card b c)
    target ← reads (load_list b (get_or input.list card.list))
    occupied ← gets (λ db.
        m.card.count_documents
          (λ d. d.list == target.id && is_none d.archived_at && not (d.id == card.id)) db.cards)
    let same_list = target.id == card.list
    raise_if (not same_list && reaches_limit target.card_limit occupied)
        (bad_request BoardMessages.list_full)
    let next = min (get_or input.position occupied) occupied
    modify (shift_cards card target.id next)
    invalidate ws
    cause (Effect.emit_to_board b (SocketEvent.card_moved card.id target.id next card.list))
    tell_about_move same_list ws b card target actor
    pure (place target.id next card)

  -- The transaction of `archiveCard`: the card is archived, then the active cards behind it close up.
  unfoldable pub retire_card : Card → ℕ → Db m → Db m
  retire_card card now db = record db {
    cards =
        m.card.update_many (is_after card) step_back
          (m.card.update_one (λ d. d.id == card.id) (retire now) db.cards);
  }

  unfoldable pub archive_card : ℕ → ℕ → ℕ → ℕ → ℕ → Exec (Db m) ℕ
  archive_card ws b c actor now = do
    reads (load_board ws b)
    card ← reads (load_card b c)
    modify (retire_card card now)
    invalidate ws
    cause (Effect.emit_to_board b (SocketEvent.card_archived card.id card.list))
    notify_about_card ws b card actor NotificationType.card_archived
        (concat ("archived \"" ∷ card.title ∷ "\"" ∷ [])) (card_watchers card) card.title
    pure card.id
