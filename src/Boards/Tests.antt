-- ===== src/Boards/Tests.antt =====
-- Requests on one small board, and the theorems at concrete inputs.
use flowdeck_backend.Constants.BoardMessages
use flowdeck_backend.Base.{List, String, [], arith, map, none, refl, some, ℕ, ◌+◌, ◌∷◌, ◌≡◌}
use flowdeck_backend.Boards.{
  assert_members, invalidate, load_board, load_card, load_list, notify_about_card, set_of,
}
use flowdeck_backend.Boards.Cards.{
  CreateCardInput, changed_fields, create_card, missing_from, new_card, new_completed_at,
  tell_about_update, update_card,
}
use flowdeck_backend.Boards.Cards.Outcome.{IsCreated, create_card-Outcome}
use flowdeck_backend.Boards.Manage.{
  archive_board, archive_list, create_board, create_list, create_lists, new_list,
}
use flowdeck_backend.Boards.Manage.Handlers.{archive_board-IsOrdered}
use flowdeck_backend.Boards.Moves.{
  MoveCardInput, archive_card, move_card, reaches_limit, retire_card, shift_cards, tell_about_move,
}
use flowdeck_backend.Boards.Moves.Handlers.{archive_card-IsOrdered, move_card-IsOrdered}
use flowdeck_backend.Boards.Moves.Outcome.{IsMoved, move_card-Outcome}
use flowdeck_backend.Boards.Positions.{IsOrdered, cards_at, size_of}
use flowdeck_backend.Boards.Requests.{Reach, Reach-IsOrdered, Step, here, next}
use flowdeck_backend.Models.{Board, BoardList, Card, Db, empty_db, list_models}
use flowdeck_backend.Store.{
  Ensures, UnlessRefused, bad_request, err, modify, not_found, pure, reads, when, ◌>>=◌,
}

abbrev board : Board
board = record {
  id = 1;
  workspace = 7;
  name = "Roadmap";
  description = "";
  colour = "slate";
  created_by = 40;
  archived_at = none;
}

abbrev backlog : BoardList
backlog = new_list 10 1 7 "Backlog" none 0

abbrev review : BoardList
review = new_list 11 1 7 "Review" (some 2) 1

abbrev payload : ℕ → String → CreateCardInput
payload list title = record {
  list = list;
  title = title;
  description = none;
  priority = none;
  labels = none;
  assignees = none;
  due_at = none;
}

abbrev card_of : ℕ → ℕ → ℕ → Card
card_of id list position = new_card id 7 1 40 position (payload list "Task")

abbrev start : Db list_models
start = record empty_db {
  boards = board ∷ [];
  lists = backlog ∷ review ∷ [];
  cards = card_of 100 10 0 ∷ card_of 101 10 1 ∷ card_of 102 10 2 ∷ card_of 103 11 0 ∷ [];
}

start-IsOrdered : IsOrdered start
unfolding cards_at size_of
start-IsOrdered = (λ x. ground arith, λ l k. ground arith)

boards : Unit {0}
unfolding move_card archive_card create_card update_card archive_list archive_board create_board
    create_list load_board load_list load_card assert_members invalidate notify_about_card
    tell_about_move shift_cards retire_card reaches_limit ◌>>=◌ reads modify pure when create_lists
    set_of tell_about_update changed_fields new_completed_at missing_from
boards = tt

abbrev positions : Db list_models → List (ℕ × ℕ × ℕ)
positions db = map (λ d. (d.id, d.list, d.position)) db.cards

-- Down within a list, and past the end.
move_down :
    positions (move_card 7 1 100 40 (record { list = none; position = some 9 }) start).1
    ≡ (100, 10, 2) ∷ (101, 10, 0) ∷ (102, 10, 1) ∷ (103, 11, 0) ∷ []
unfolding boards
move_down = refl

-- To the front of another list.
move_across :
    positions (move_card 7 1 101 40 (record { list = some 11; position = some 0 }) start).1
    ≡ (100, 10, 0) ∷ (101, 11, 0) ∷ (102, 10, 1) ∷ (103, 11, 1) ∷ []
unfolding boards
move_across = refl

-- A full list takes no card, and a card that is not there cannot be moved.
refusals :
    ((create_card 105 7 1 40 (payload 11 "c") (create_card 104 7 1 40 (payload 11 "b") start).1).0
      ≡ err (bad_request BoardMessages.list_full))
    × ((move_card 7 1 999 40 (record { list = none; position = none }) start).0
        ≡ err (not_found BoardMessages.card_not_found))
unfolding boards
refusals = (refl, refl)

new_board_lists :
    map {B = String × ℕ}
      (λ l. (l.name, l.position))
      (create_board 2
        (λ i. 20 + i)
        7
        40
        (record { name = "b"; description = none; colour = none })
        empty_db).1.lists
    ≡ ("Backlog", 0) ∷ ("In Progress", 1) ∷ ("Review", 2) ∷ ("Done", 3) ∷ []
unfolding boards
new_board_lists = refl

abbrev to_review : MoveCardInput
to_review = record { list = some 11; position = some 0 }

move_card-IsOrdered_example : IsOrdered (move_card 7 1 101 40 to_review start).1
move_card-IsOrdered_example = move_card-IsOrdered 7 1 101 40 to_review start start-IsOrdered

move_card-Outcome_example :
    Ensures
      (UnlessRefused start (λ moved db'. IsMoved 1 101 to_review start moved db'.cards))
      (move_card 7 1 101 40 to_review)
      start
move_card-Outcome_example = move_card-Outcome 7 1 101 40 to_review start start-IsOrdered

create_card-Outcome_example :
    Ensures
      (UnlessRefused start (λ card db'. IsCreated 1 (payload 11 "b") start card db'.cards))
      (create_card 104 7 1 40 (payload 11 "b"))
      start
create_card-Outcome_example = create_card-Outcome 104 7 1 40 (payload 11 "b") start

archive_card-IsOrdered_example : IsOrdered (archive_card 7 1 100 40 5 start).1
archive_card-IsOrdered_example = archive_card-IsOrdered 7 1 100 40 5 start start-IsOrdered

archive_board-IsOrdered_example : IsOrdered (archive_board 5 7 1 start).1
archive_board-IsOrdered_example =
    archive_board-IsOrdered (λ _. 1) 5 7 1 start (refl, (refl, (refl, (refl, tt)))) start-IsOrdered

abbrev after_three : Db list_models
after_three =
    (archive_list 6 7 1 10
      (move_card 7 1 101 40 to_review (create_card 104 7 1 40 (payload 10 "b") start).1).1).1

three_requests : Reach start after_three
three_requests =
    next
      (next (next here (Step.create_card 104 7 1 40 (payload 10 "b") refl))
        (Step.move_card 7 1 101 40 to_review))
      (Step.archive_list 6 7 1 10)

Reach-IsOrdered_example : IsOrdered after_three
Reach-IsOrdered_example = Reach-IsOrdered three_requests start-IsOrdered
