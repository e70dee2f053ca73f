-- ===== src/Models/Effects.antt =====
-- What leaves the process: cache invalidation (cache.service.ts), socket events
-- (sockets/emitter.ts, constants/events.ts) and notifications (notification.service.ts,
-- constants/notifications.ts), as values in the order in which the services cause them.
use flowdeck_backend.Base.{ℕ, String, Option, List}
use flowdeck_backend.Models.Boards.{Card}
use flowdeck_backend.Models.Channels.{Message}

pub data NotificationType : Type 0 where
  mention card_assigned card_unassigned card_moved card_completed card_reopened card_updated
        card_archived card_due_soon page_edited page_archived member_added member_role_changed
        member_removed member_left ownership_transferred :
      NotificationType

-- The constructors are the functions of `appLink`.
pub data AppLink : Type 0 where
  workspace members : ℕ → AppLink
  board page channel : ℕ → ℕ → AppLink
  home : AppLink

pub data AuditEntity : Type 0 where
  workspace member page board list card channel message file : AuditEntity

pub record NotificationDraft : Type 0 where
  pub recipients : List ℕ
  pub workspace : ℕ
  pub type : NotificationType
  pub message : String
  pub body : Option String
  pub actor : Option ℕ
  pub entity_type : Option AuditEntity
  pub entity_id : Option ℕ
  pub link : Option AppLink

-- src/models/notification.model.ts. The body is the list of its code units.
pub record Notification : Type 0 where
  pub id : ℕ
  pub user : ℕ
  pub workspace : ℕ
  pub type : NotificationType
  pub title : String
  pub body : List ℕ
  pub entity_type : Option AuditEntity
  pub entity_id : Option ℕ
  pub actor : Option ℕ
  pub link : Option AppLink
  pub read_at : Option ℕ

-- src/models/fileAsset.model.ts
pub record FileAsset : Type 0 where
  pub id : ℕ
  pub workspace : ℕ
  pub uploaded_by : ℕ
  pub original_name : String
  pub stored_name : String
  pub mime_type : String
  pub size : ℕ
  pub checksum : String
  pub entity_type : Option AuditEntity
  pub entity_id : Option ℕ

-- A file on disk: that of an asset, or one that an upload has just written.
pub data FilePath : Type 0 where
  stored : ℕ → String → FilePath
  target : String → FilePath

pub data SocketEvent : Type 0 where
  card_created card_updated : Card → SocketEvent
  card_moved : ℕ → ℕ → ℕ → ℕ → SocketEvent
  card_archived : ℕ → ℕ → SocketEvent
  page_updated : ℕ → String → ℕ → SocketEvent
  message_created message_updated reaction_updated : Message → SocketEvent
  message_deleted : ℕ → SocketEvent
  -- with the name of the actor
  notification_created : Notification → Option String → SocketEvent

pub data Effect : Type 0 where
  -- `dropByPrefix(cacheKey.workspaceTag(workspaceId))`
  invalidate : ℕ → Effect
  emit_to_board emit_to_workspace emit_to_channel emit_to_user : ℕ → SocketEvent → Effect
  notify : NotificationDraft → Effect
  -- `unlink(path)`
  unlink : FilePath → Effect
