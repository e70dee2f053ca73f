-- ===== src/Models/Boards.antt =====
-- src/models/board.model.ts, boardList.model.ts, card.model.ts and constants/board.ts. Object ids,
-- users and dates are numbers: the code compares them and does nothing else with them. The
-- timestamps that mongoose keeps are left out.
use flowdeck_backend.Base.{ℕ, String, Option, List, [], ◌∷◌}

pub data CardPriority : Type 0 where
  low normal high urgent : CardPriority

abbrev pub card_priority_weight : CardPriority → ℕ
card_priority_weight low = 1
card_priority_weight normal = 2
card_priority_weight high = 3
card_priority_weight urgent = 4

abbrev pub default_lists : List String
default_lists = "Backlog" ∷ "In Progress" ∷ "Review" ∷ "Done" ∷ []

pub record Board : Type 0 where
  pub id : ℕ
  pub workspace : ℕ
  pub name : String
  pub description : String
  pub colour : String
  pub created_by : ℕ
  pub archived_at : Option ℕ

pub record BoardList : Type 0 where
  pub id : ℕ
  pub board : ℕ
  pub workspace : ℕ
  pub name : String
  pub position : ℕ
  pub card_limit : Option ℕ
  pub archived_at : Option ℕ

pub record Card : Type 0 where
  pub id : ℕ
  pub board : ℕ
  pub list : ℕ
  pub workspace : ℕ
  pub title : String
  pub description : String
  pub position : ℕ
  pub priority : CardPriority
  pub labels : List String
  pub assignees : List ℕ
  pub due_at : Option ℕ
  pub completed_at : Option ℕ
  pub created_by : ℕ
  pub archived_at : Option ℕ
