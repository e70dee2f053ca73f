-- ===== src/Notifications.antt =====
-- src/services/notification.service.ts: who is told, what is stored, and what has been read.
pub mod Recipients
pub mod Inbox
mod Tests
use Prim.Native.Char.{code}
use Prim.Native.String
use Prim.Native.String.{String}
use flowdeck_backend.Auth.{is_user}
use flowdeck_backend.Base.{
  Bool, List, Option, [], any, codes, concat, elem, false, filter, get_or, if◌then◌else◌, is_none,
  leb, length, ltb, map, none, not, same_text, some, take, true, ℕ, ◌%◌, ◌&&◌, ◌*◌, ◌++◌, ◌+◌, ◌-◌,
  ◌/◌, ◌==◌, ◌∷◌,
}
use flowdeck_backend.Boards.{set_of}
use flowdeck_backend.Helpers.Password.{is_space}
use flowdeck_backend.Models.{
  AppLink, AuditEntity, Card, Db, Effect, Models, Notification, NotificationDraft, NotificationType,
  SocketEvent, User, cause,
}
use flowdeck_backend.Store.{
  Exec, gets, modify, not_found, or_raise, pure, raise_if, reads, unprocessable, ◌>>=◌, ◌>>◌,
}
use flowdeck_backend.Workspaces.Access.{is_super_admin}

-- The UTF-16 code units of a text.
unfoldable pub units : String → List ℕ
units String.[] = []
units (String.◌∷◌ c s) =
    if ltb (code c) 0x10000
    then code c ∷ units s
    else (0xd800 + (code c - 0x10000) / 1024) ∷ (0xdc00 + (code c - 0x10000) % 1024) ∷ units s

abbrev pub preview_length : ℕ
preview_length = 140

-- `maxlength` of the title in src/models/notification.model.ts
abbrev pub title_limit : ℕ
title_limit = 160

unfoldable pub trim_start : List ℕ → List ℕ
trim_start [] = []
trim_start (c ∷ cs) = if is_space c then trim_start cs else c ∷ cs

abbrev pub before_spaces : ℕ → List ℕ → List ℕ
before_spaces c [] = if is_space c then [] else c ∷ []
before_spaces c (d ∷ ds) = c ∷ d ∷ ds

unfoldable pub trim_spaces_end : List ℕ → List ℕ
trim_spaces_end [] = []
trim_spaces_end (c ∷ cs) = before_spaces c (trim_spaces_end cs)

unfoldable pub preview : List ℕ → List ℕ
unfolding trim_start trim_spaces_end
preview text =
    let trimmed = trim_spaces_end (trim_start text) in
    if ltb preview_length (length trimmed)
    then take preview_length trimmed ++ codes "..."
    else trimmed

-- `userId !== actor`
abbrev pub is_not : Option ℕ → ℕ → Bool
is_not none u = true
is_not (some a) u = not (u == a)

unfoldable pub recipients_of : NotificationDraft → List ℕ
unfolding set_of
recipients_of draft = filter (is_not draft.actor) (set_of draft.recipients)

-- `name ? ... : ...`
abbrev pub title_of : Option String → String → String
title_of none message = message
title_of (some name) message =
    if same_text name "" then message else concat (name ∷ " " ∷ message ∷ [])

abbrev pub new_notification : (ℕ → ℕ) → NotificationDraft → String → ℕ → Notification
new_notification new_id draft title u = record {
  id = new_id u;
  user = u;
  workspace = draft.workspace;
  type = draft.type;
  title = title;
  body = preview (units (get_or draft.body ""));
  entity_type = draft.entity_type;
  entity_id = draft.entity_id;
  actor = draft.actor;
  link = draft.link;
  read_at = none;
}

abbrev pub is_unread_of : ℕ → Notification → Bool
is_unread_of u n = n.user == u && is_none n.read_at

abbrev pub read : ℕ → Notification → Notification
read now n = record n { read_at = some now }

-- `filter.workspace`, if the request gives one
abbrev pub is_in : Option ℕ → Notification → Bool
is_in none n = true
is_in (some ws) n = n.workspace == ws

abbrev pub within : ℕ → ℕ → Option ℕ → Bool
within from to none = false
within from to (some t) = leb from t && leb t to

abbrev pub is_due : ℕ → Card → Bool
is_due now c =
    within now (now + 24 * 60 * 60 * 1000) c.due_at
    && is_none c.completed_at
    && is_none c.archived_at
    && not (length c.assignees == 0)

abbrev pub due_draft : Card → NotificationDraft
due_draft card = record {
  recipients = card.assignees;
  workspace = card.workspace;
  type = NotificationType.card_due_soon;
  message = concat ("\"" ∷ card.title ∷ "\" is due within a day" ∷ []);
  body = some card.title;
  actor = none;
  entity_type = some AuditEntity.card;
  entity_id = some card.id;
  link = some (AppLink.board card.workspace card.board);
}

abbrev pub name_or_someone : Option User → Option String
name_or_someone none = some "Someone"
name_or_someone (some u) = some u.name

module _ {m : Models} where
  unfoldable pub actor_name : Option ℕ → Db m → Option String
  actor_name none db = none
  actor_name (some a) db = name_or_someone (m.user.find_one (is_user a) db.users)

  -- Those of the recipients who are no super administrators.
  unfoldable pub inboxes_of : List ℕ → Db m → List ℕ
  inboxes_of recipients db =
      let admins = m.user.find_many (λ d. elem d.id recipients && is_super_admin d.role) db.users in
      filter (λ u. not (any (is_user u) admins)) recipients

  abbrev pub save_notification : Notification → Db m → Db m
  save_notification n db = record db { notifications = m.notification.create n db.notifications }

  unfoldable pub save_notifications : List Notification → Db m → Db m
  save_notifications [] db = db
  save_notifications (n ∷ ns) db = save_notifications ns (save_notification n db)

  -- `insertMany`, which stores nothing when a title is too long
  unfoldable pub insert_many : List Notification → Exec (Db m) (Unit {0})
  insert_many ns = do
    raise_if (any (λ n. ltb title_limit (length (units n.title))) ns)
        (unprocessable "Request payload failed validation")
    modify (save_notifications ns)

  unfoldable pub emit_all : Option String → List Notification → Exec (Db m) (Unit {0})
  emit_all name [] = pure tt
  emit_all name (n ∷ ns) = do
    cause (Effect.emit_to_user n.user (SocketEvent.notification_created n name))
    emit_all name ns

  unfoldable pub deliver_to : (ℕ → ℕ) → NotificationDraft → List ℕ → Exec (Db m) (List Notification)
  deliver_to new_id draft [] = pure []
  deliver_to new_id draft (u ∷ us) = do
    name ← gets (actor_name draft.actor)
    let created = map (new_notification new_id draft (title_of name draft.message)) (u ∷ us)
    insert_many created
    emit_all name created
    pure created

  -- With no recipients there are no inboxes.
  unfoldable pub deliver : (ℕ → ℕ) → NotificationDraft → Exec (Db m) (List Notification)
  deliver new_id draft = do
    inboxes ← gets (inboxes_of (recipients_of draft))
    deliver_to new_id draft inboxes

  unfoldable pub mark_read : ℕ → ℕ → ℕ → Exec (Db m) Notification
  mark_read now u id = do
    n ← reads (λ db.
        or_raise (m.notification.find_one (λ n. n.id == id && is_unread_of u n) db.notifications)
          (not_found "Notification not found"))
    modify (λ db. record db {
      notifications =
          m.notification.update_one (λ n. n.id == id && is_unread_of u n) (read now)
            db.notifications;
    })
    pure (read now n)

  unfoldable pub mark_all_read : ℕ → ℕ → Option ℕ → Exec (Db m) ℕ
  mark_all_read now u ws = do
    n ← gets (λ db.
        m.notification.count_documents (λ n. is_unread_of u n && is_in ws n) db.notifications)
    modify (λ db. record db {
      notifications =
          m.notification.update_many (λ n. is_unread_of u n && is_in ws n) (read now)
            db.notifications;
    })
    pure n

  -- The loop, with how many have been delivered.
  unfoldable pub remind_all : (ℕ → ℕ → ℕ) → ℕ → List Card → Exec (Db m) ℕ
  remind_all new_id delivered [] = pure delivered
  remind_all new_id delivered (card ∷ cards) = do
    created ← deliver (new_id card.id) (due_draft card)
    remind_all new_id (delivered + length created) cards

  -- How many cards are due, and how many notifications were sent.
  unfoldable pub remind_due_cards : (ℕ → ℕ → ℕ) → ℕ → Exec (Db m) (ℕ × ℕ)
  remind_due_cards new_id now = do
    due ← gets (λ db. m.card.find_many (is_due now) db.cards)
    delivered ← remind_all new_id 0 due
    pure (length due, delivered)
