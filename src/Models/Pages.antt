-- ===== src/Models/Pages.antt =====
-- src/models/page.model.ts and pageRevision.model.ts
use flowdeck_backend.Base.{ℕ, String, Option, List}

pub record Page : Type 0 where
  pub id : ℕ
  pub workspace : ℕ
  pub parent : Option ℕ
  pub path : List ℕ
  pub title : String
  pub body : String
  pub icon : Option String
  pub position : ℕ
  pub version : ℕ
  pub created_by : ℕ
  pub updated_by : Option ℕ
  pub archived_at : Option ℕ

pub record PageRevision : Type 0 where
  pub page : ℕ
  pub workspace : ℕ
  pub version : ℕ
  pub title : String
  pub body : String
  pub edited_by : ℕ
