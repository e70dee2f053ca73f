-- ===== src/Boards/Manage.antt =====
-- src/services/board.service.ts: the operations on boards and lists.
pub mod Handlers
use flowdeck_backend.Base.{
  List, Option, String, [], get_or, is_none, ltb, none, some, ℕ, ◌&&◌, ◌+◌, ◌-◌, ◌==◌, ◌∷◌,
}
use flowdeck_backend.Boards.{invalidate, load_board, load_list}
use flowdeck_backend.Boards.Moves.{retire}
use flowdeck_backend.Models.{Board, BoardList, Db, Models, default_lists}
use flowdeck_backend.Store.{Exec, gets, modify, pure, reads, ◌>>=◌, ◌>>◌}

pub record CreateBoardInput : Type 0 where
  pub name : String
  pub description : Option String
  pub colour : Option String

pub record UpdateBoardInput : Type 0 where
  pub name : Option String
  pub description : Option String
  pub colour : Option String

pub record CreateListInput : Type 0 where
  pub name : String
  pub card_limit : Option ℕ

pub record UpdateListInput : Type 0 where
  pub name : Option String
  -- `null` takes the limit away
  pub card_limit : Option (Option ℕ)
  pub position : Option ℕ

abbrev pub new_list : ℕ → ℕ → ℕ → String → Option ℕ → ℕ → BoardList
new_list id b ws name card_limit position = record {
  id = id;
  board = b;
  workspace = ws;
  name = name;
  position = position;
  card_limit = card_limit;
  archived_at = none;
}

abbrev pub archive_board_doc : ℕ → Board → Board
archive_board_doc now d = record d { archived_at = some now }

abbrev pub archive_list_doc : ℕ → BoardList → BoardList
archive_list_doc now d = record d { archived_at = some now }

module _ {m : Models} where
  -- The lists of a new board, in order, from the given position on.
  unfoldable pub create_lists : ℕ → ℕ → (ℕ → ℕ) → ℕ → List String → Db m → Db m
  create_lists b ws ids position [] db = db
  create_lists b ws ids position (name ∷ names) db =
      create_lists b ws ids (position + 1) names (record db {
        lists = m.board_list.create (new_list (ids position) b ws name none position) db.lists;
      })

  -- `id` and `ids` are the object ids that the board and its lists get.
  unfoldable pub create_board : ℕ → (ℕ → ℕ) → ℕ → ℕ → CreateBoardInput → Exec (Db m) Board
  create_board id ids ws author payload = do
    let created : Board = record {
      id = id;
      workspace = ws;
      name = payload.name;
      description = get_or payload.description "";
      colour = get_or payload.colour "slate";
      created_by = author;
      archived_at = none;
    }
    modify (λ db. record db { boards = m.board.create created db.boards })
    modify (create_lists id ws ids 0 default_lists)
    invalidate ws
    pure created

  unfoldable pub update_board : ℕ → ℕ → UpdateBoardInput → Exec (Db m) Board
  update_board ws b payload = do
    board ← reads (load_board ws b)
    let change = λ (d : Board). record d {
      name = get_or payload.name d.name;
      description = get_or payload.description d.description;
      colour = get_or payload.colour d.colour;
    }
    modify
        (λ db. record db { boards = m.board.update_one (λ d. d.id == board.id) change db.boards })
    invalidate ws
    pure (change board)

  unfoldable pub archive_board : ℕ → ℕ → ℕ → Exec (Db m) ℕ
  archive_board now ws b = do
    board ← reads (load_board ws b)
    modify (λ db. record db {
      boards = m.board.update_one (λ d. d.id == board.id) (archive_board_doc now) db.boards;
      lists = m.board_list.update_many (λ d. d.board == board.id) (archive_list_doc now) db.lists;
      cards = m.card.update_many (λ d. d.board == board.id) (retire now) db.cards;
    })
    invalidate ws
    pure board.id

  unfoldable pub create_list : ℕ → ℕ → ℕ → CreateListInput → Exec (Db m) BoardList
  create_list id ws b payload = do
    board ← reads (load_board ws b)
    position ← gets (λ db.
        m.board_list.count_documents (λ d. d.board == board.id && is_none d.archived_at) db.lists)
    let list = new_list id board.id ws payload.name payload.card_limit position
    modify (λ db. record db { lists = m.board_list.create list db.lists })
    invalidate ws
    pure list

  unfoldable pub update_list : ℕ → ℕ → ℕ → UpdateListInput → Exec (Db m) BoardList
  update_list ws b l payload = do
    reads (load_board ws b)
    list ← reads (load_list b l)
    let change = λ (d : BoardList). record d {
      name = get_or payload.name d.name;
      card_limit = get_or payload.card_limit d.card_limit;
      position = get_or payload.position d.position;
    }
    modify
        (λ db. record db { lists = m.board_list.update_one (λ d. d.id == list.id) change db.lists })
    invalidate ws
    pure (change list)

  unfoldable pub archive_list : ℕ → ℕ → ℕ → ℕ → Exec (Db m) ℕ
  archive_list now ws b l = do
    reads (load_board ws b)
    list ← reads (load_list b l)
    modify (λ db. record db {
      lists =
          m.board_list.update_many
            (λ d. d.board == b && ltb list.position d.position && is_none d.archived_at)
            (λ d. record d { position = d.position - 1 })
            (m.board_list.update_one (λ d. d.id == list.id) (archive_list_doc now) db.lists);
      cards =
          m.card.update_many (λ d. d.list == list.id && is_none d.archived_at) (retire now)
            db.cards;
    })
    invalidate ws
    pure list.id
