-- ===== src/Models/Channels.antt =====
-- src/models/channel.model.ts, channelMember.model.ts, message.model.ts and constants/channel.ts
use flowdeck_backend.Base.{Bool, List, Option, String, [], ℕ, ◌∷◌}

pub data ChannelVisibility : Type 0 where
  public private : ChannelVisibility

abbrev pub allowed_reactions : List String
allowed_reactions = "like" ∷ "celebrate" ∷ "eyes" ∷ "thanks" ∷ "fire" ∷ "question" ∷ []

pub record Channel : Type 0 where
  pub id : ℕ
  pub workspace : ℕ
  pub name : String
  pub slug : String
  pub topic : String
  pub visibility : ChannelVisibility
  pub created_by : ℕ
  pub member_count : ℕ
  pub message_count : ℕ
  pub last_message_at : Option ℕ
  pub archived_at : Option ℕ

pub record ChannelMember : Type 0 where
  pub id : ℕ
  pub channel : ℕ
  pub workspace : ℕ
  pub user : ℕ
  pub last_read_at : Option ℕ
  pub muted : Bool

pub record Reaction : Type 0 where
  pub emoji : String
  pub users : List ℕ

pub record Message : Type 0 where
  pub id : ℕ
  pub channel : ℕ
  pub workspace : ℕ
  pub author : ℕ
  pub body : String
  pub parent : Option ℕ
  pub reply_count : ℕ
  pub mentions : List ℕ
  pub attachments : List ℕ
  pub reactions : List Reaction
  pub edited_at : Option ℕ
  pub deleted_at : Option ℕ
