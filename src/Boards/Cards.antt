-- ===== src/Boards/Cards.antt =====
-- src/services/board.service.ts: `createCard` and `updateCard`.
pub mod Handlers
pub mod Outcome
use text.Mathlib.Text.{◌==◌ as str_eq}
use flowdeck_backend.Constants.BoardMessages
use flowdeck_backend.Base.{
  Bool, List, Option, String, [], concat, elem, false, filter, get_or, if◌then◌else◌, is_none, none,
  not, some, true, ℕ, ◌&&◌, ◌++◌, ◌==◌, ◌∷◌,
}
use flowdeck_backend.Boards.{
  assert_members, card_watchers, invalidate, load_board, load_card, load_list, notify_about_card,
  set_of,
}
use flowdeck_backend.Boards.Moves.{reaches_limit}
use flowdeck_backend.Boards.Positions.{is_active_in}
use flowdeck_backend.Models.{
  Card, CardPriority, Db, Effect, Models, NotificationType, SocketEvent, card_priority_weight,
  cause,
}
use flowdeck_backend.Store.{
  Exec, bad_request, gets, modify, pure, raise_if, reads, when, ◌>>=◌, ◌>>◌,
}

pub record CreateCardInput : Type 0 where
  pub list : ℕ
  pub title : String
  pub description : Option String
  pub priority : Option CardPriority
  pub labels : Option (List String)
  pub assignees : Option (List ℕ)
  pub due_at : Option ℕ

-- The document that `Card.create` makes of the payload, with the defaults of the schema.
abbrev pub new_card : ℕ → ℕ → ℕ → ℕ → ℕ → CreateCardInput → Card
new_card id ws b author position payload = record {
  id = id;
  board = b;
  list = payload.list;
  workspace = ws;
  title = payload.title;
  description = get_or payload.description "";
  position = position;
  priority = get_or payload.priority CardPriority.normal;
  labels = get_or payload.labels [];
  assignees = get_or payload.assignees [];
  due_at = payload.due_at;
  completed_at = none;
  created_by = author;
  archived_at = none;
}

abbrev pub is_nonempty : List ℕ → Bool
is_nonempty [] = false
is_nonempty (x ∷ xs) = true

module _ {m : Models} where
  -- `id` is the object id that the new document gets.
  unfoldable pub create_card : ℕ → ℕ → ℕ → ℕ → CreateCardInput → Exec (Db m) Card
  create_card id ws b author payload = do
    reads (load_board ws b)
    list ← reads (load_list b payload.list)
    reads (assert_members ws (get_or payload.assignees []))
    position ← gets (λ db. m.card.count_documents (is_active_in list.id) db.cards)
    raise_if (reaches_limit list.card_limit position) (bad_request BoardMessages.list_full)
    let card = record (new_card id ws b author position payload) { list = list.id }
    modify (λ db. record db { cards = m.card.create card db.cards })
    invalidate ws
    when (is_nonempty (get_or payload.assignees [])) (
        notify_about_card ws b card author NotificationType.card_assigned
          (concat ("assigned you \"" ∷ card.title ∷ "\"" ∷ [])) (get_or payload.assignees [])
          card.title)
    cause (Effect.emit_to_board b (SocketEvent.card_created card))
    pure card

pub record UpdateCardInput : Type 0 where
  pub title : Option String
  pub description : Option String
  pub priority : Option CardPriority
  pub labels : Option (List String)
  pub assignees : Option (List ℕ)
  -- `null` clears the date
  pub due_at : Option (Option ℕ)
  pub completed : Option Bool

abbrev pub is_done : Card → Bool
is_done card = not (is_none card.completed_at)

-- `if (completed !== undefined && completed !== wasDone)`
unfoldable pub new_completed_at : Option Bool → ℕ → Card → Option ℕ
new_completed_at none now card = card.completed_at
new_completed_at (some true) now card = if is_done card then card.completed_at else some now
new_completed_at (some false) now card = none

-- `card.set(changes)`, with the completion.
abbrev pub with_changes : UpdateCardInput → ℕ → Card → Card
with_changes changes now card = record card {
  title = get_or changes.title card.title;
  description = get_or changes.description card.description;
  priority = get_or changes.priority card.priority;
  labels = get_or changes.labels card.labels;
  assignees = get_or changes.assignees card.assignees;
  due_at = get_or changes.due_at card.due_at;
  completed_at = new_completed_at changes.completed now card;
}

unfoldable pub strings_eq : List String → List String → Bool
strings_eq [] [] = true
strings_eq (s ∷ ss) (t ∷ ts) = str_eq s t && strings_eq ss ts
strings_eq _ _ = false

unfoldable pub dates_eq : Option ℕ → Option ℕ → Bool
dates_eq none none = true
dates_eq (some a) (some b) = a == b
dates_eq _ _ = false

unfoldable pub label_if : Bool → String → List String
label_if changed label = if changed then label ∷ [] else []

-- The labels of the paths that `set` has modified, in the order of the payload's fields.
unfoldable pub changed_fields : Card → Card → List String
changed_fields old new =
    label_if (not (str_eq old.title new.title)) "title"
    ++ label_if (not (str_eq old.description new.description)) "description"
    ++ label_if (not (card_priority_weight old.priority == card_priority_weight new.priority))
        "priority"
    ++ label_if (not (strings_eq old.labels new.labels)) "labels"
    ++ label_if (not (dates_eq old.due_at new.due_at)) "due date"

-- `values.join(', ')`
unfoldable pub join_comma : List String → String
join_comma [] = ""
join_comma (s ∷ []) = s
join_comma (s ∷ ss) = concat (s ∷ ", " ∷ join_comma ss ∷ [])

unfoldable pub missing_from : List ℕ → List ℕ → List ℕ
missing_from xs ys = filter (λ x. not (elem x ys)) xs

unfoldable pub is_nonempty_strings : List String → Bool
is_nonempty_strings [] = false
is_nonempty_strings (x ∷ xs) = true

module _ {m : Models} where
  -- The notifications of `updateCard`, from the card before and after.
  unfoldable pub tell_about_update : ℕ → ℕ → ℕ → Card → Card → Exec (Db m) (Unit {0})
  tell_about_update ws b actor old card = do
    let added = missing_from card.assignees old.assignees
    let removed = missing_from (set_of old.assignees) card.assignees
    let fields = changed_fields old card
    when (is_nonempty added) (
        notify_about_card ws b card actor NotificationType.card_assigned
          (concat ("assigned you \"" ∷ card.title ∷ "\"" ∷ [])) added card.title)
    when (is_nonempty removed) (
        notify_about_card ws b card actor NotificationType.card_unassigned
          (concat ("removed you from \"" ∷ card.title ∷ "\"" ∷ [])) removed card.title)
    when (is_done card && not (is_done old)) (
        notify_about_card ws b card actor NotificationType.card_completed
          (concat ("marked \"" ∷ card.title ∷ "\" as done" ∷ [])) (card_watchers card) card.title)
    when (is_done old && not (is_done card)) (
        notify_about_card ws b card actor NotificationType.card_reopened
          (concat ("reopened \"" ∷ card.title ∷ "\"" ∷ [])) (card_watchers card) card.title)
    when (is_nonempty_strings fields) (
        notify_about_card ws b card actor NotificationType.card_updated
          (concat ("changed the " ∷ join_comma fields ∷ " of \"" ∷ card.title ∷ "\"" ∷ []))
          (missing_from (card_watchers card) added) card.title)

  unfoldable pub update_card : ℕ → ℕ → ℕ → ℕ → ℕ → UpdateCardInput → Exec (Db m) Card
  update_card now ws b c actor changes = do
    reads (load_board ws b)
    old ← reads (load_card b c)
    reads (assert_members ws (get_or changes.assignees []))
    let card = with_changes changes now old
    modify (λ db. record db {
      cards = m.card.update_one (λ d. d.id == old.id) (with_changes changes now) db.cards;
    })
    invalidate ws
    cause (Effect.emit_to_board b (SocketEvent.card_updated card))
    tell_about_update ws b actor old card
    pure card
