-- ===== src/Models/Tokens.antt =====
-- src/models/refreshToken.model.ts. A moment counts milliseconds.
use flowdeck_backend.Base.{Bool, List, Option, String, is_none, ltb, ℕ, ◌&&◌}

pub record RefreshToken : Type 0 where
  pub id : ℕ
  pub user : ℕ
  pub token_hash : String
  pub family : String
  pub user_agent : Option String
  pub ip : Option (List ℕ)
  pub expires_at : ℕ
  pub revoked_at : Option ℕ
  pub created_at : ℕ

abbrev pub is_usable : ℕ → RefreshToken → Bool
is_usable now t = is_none t.revoked_at && ltb now t.expires_at
