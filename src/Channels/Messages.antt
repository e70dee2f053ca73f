-- ===== src/Channels/Messages.antt =====
-- src/services/channel.service.ts: messages, replies and reactions.
pub mod Reactions
pub mod Guards
mod Tests
use flowdeck_backend.Constants.ChannelMessages
use flowdeck_backend.Base.{
  Bool, List, Option, String, [], any, concat, elem, false, filter, find, get_or, if◌then◌else◌,
  is_none, length, ltb, map_first, none, not, same_text, some, ℕ, ◌&&◌, ◌++◌, ◌+◌, ◌-◌, ◌==◌, ◌∷◌,
}
use flowdeck_backend.Boards.{set_of}
use flowdeck_backend.Channels.{assert_can_post, has_channel_id, invalidate}
use flowdeck_backend.Models.{
  AppLink, AuditEntity, Channel, Db, Effect, Message, Models, NotificationType, Reaction,
  SocketEvent, allowed_reactions, cause,
}
use flowdeck_backend.Store.{
  Exec, Result, bad_request, err, forbidden, modify, not_found, ok, or_raise, pure, raise_if, reads,
  when, ◌>>=◌, ◌>>◌,
}

pub record SendMessageInput : Type 0 where
  pub body : String
  pub parent : Option ℕ
  pub mentions : Option (List ℕ)
  pub attachments : Option (List ℕ)

abbrev pub new_message : ℕ → ℕ → ℕ → ℕ → SendMessageInput → Message
new_message id c ws author payload = record {
  id = id;
  channel = c;
  workspace = ws;
  author = author;
  body = payload.body;
  parent = payload.parent;
  reply_count = 0;
  mentions = get_or payload.mentions [];
  attachments = get_or payload.attachments [];
  reactions = [];
  edited_at = none;
  deleted_at = none;
}

abbrev pub has_message_id : ℕ → Message → Bool
has_message_id x d = d.id == x

abbrev pub is_message : ℕ → ℕ → Message → Bool
is_message c x d = d.id == x && d.channel == c && is_none d.deleted_at

abbrev pub one_message_more : ℕ → Channel → Channel
one_message_more now d = record d {
  message_count = d.message_count + 1;
  last_message_at = some now;
}

abbrev pub one_message_less : Channel → Channel
one_message_less d = record d { message_count = d.message_count - 1 }

abbrev pub one_reply_more : Message → Message
one_reply_more d = record d { reply_count = d.reply_count + 1 }

abbrev pub one_reply_less : Message → Message
one_reply_less d = record d { reply_count = d.reply_count - 1 }

abbrev pub deleted_message : ℕ → Message → Message
deleted_message now d = record d { deleted_at = some now; body = "" }

abbrev pub edited_message : ℕ → String → Message → Message
edited_message now body d = record d { body = body; edited_at = some now }

abbrev pub is_for : String → Reaction → Bool
is_for emoji r = same_text r.emoji emoji

-- Add the user to the reaction, or take the user off it.
abbrev pub toggle_user : ℕ → Reaction → Reaction
toggle_user u r = record r {
  users = if elem u r.users then filter (λ x. not (x == u)) r.users else r.users ++ u ∷ [];
}

abbrev pub is_used : Reaction → Bool
is_used r = ltb 0 (length r.users)

-- The reactions of a message after a user's click on an emoji.
unfoldable pub toggled : String → ℕ → List Reaction → List Reaction
toggled emoji u rs = filter is_used (
    if is_none (find (is_for emoji) rs)
    then rs ++ record { emoji = emoji; users = u ∷ [] } ∷ []
    else map_first (is_for emoji) (toggle_user u) rs)

abbrev pub with_reactions : List Reaction → Message → Message
with_reactions rs d = record d { reactions = rs }

module _ (m : Models) where
  -- The write for the parent of a message, if it has one.
  unfoldable pub update_parent : Option ℕ → (Message → Message) → m.message.Coll → m.message.Coll
  update_parent none f messages = messages
  update_parent (some p) f messages = m.message.update_one (has_message_id p) f messages

module _ {m : Models} where
  unfoldable pub assert_mentions : ℕ → List ℕ → Db m → Result (Unit {0})
  assert_mentions ws [] db = ok tt
  assert_mentions ws (u ∷ us) db =
      let members =
        m.membership.count_documents (λ d. d.workspace == ws && elem d.user (u ∷ us))
          db.memberships in
      if members == length (set_of (u ∷ us))
      then ok tt
      else err (bad_request ChannelMessages.mentions_not_members)

  unfoldable pub emit_to_channel : ℕ → SocketEvent → Exec (Db m) (Unit {0})
  emit_to_channel c event = cause (Effect.emit_to_channel c event)

  unfoldable pub store_message : ℕ → Message → Db m → Db m
  store_message now message db = record db {
    messages = update_parent m message.parent one_reply_more (m.message.create message db.messages);
    channels =
        m.channel.update_one (has_channel_id message.channel) (one_message_more now) db.channels;
  }

  unfoldable pub tell_mentioned : ℕ → Channel → Message → ℕ → Exec (Db m) (Unit {0})
  tell_mentioned ws channel message author = cause (
      Effect.notify (record {
        recipients = message.mentions;
        workspace = ws;
        type = NotificationType.mention;
        message = concat ("mentioned you in #" ∷ channel.name ∷ []);
        body = some message.body;
        actor = some author;
        entity_type = some AuditEntity.message;
        entity_id = some message.id;
        link = some (AppLink.channel ws channel.id);
      }))

  unfoldable pub send_message : ℕ → ℕ → ℕ → ℕ → ℕ → SendMessageInput → Exec (Db m) Message
  send_message id now ws c author payload = do
    found ← reads (assert_can_post ws c author false)
    reads (assert_mentions ws (get_or payload.mentions []))
    let message = new_message id found.0.id ws author payload
    modify (store_message now message)
    invalidate ws
    emit_to_channel found.0.id (SocketEvent.message_created message)
    when (ltb 0 (length message.mentions)) (tell_mentioned ws found.0 message author)
    pure message

  unfoldable pub load_message : ℕ → ℕ → Db m → Result Message
  load_message c x db =
      or_raise (m.message.find_one (is_message c x) db.messages)
        (not_found ChannelMessages.message_not_found)

  unfoldable pub load_own_message : ℕ → ℕ → ℕ → Db m → Result Message
  load_own_message c x u db = elim (load_message c x db) [
    | err e ↦ err e
    | ok message ↦
        if message.author == u
        then ok message
        else err (forbidden ChannelMessages.not_message_author)
  ]

  unfoldable pub edit_message : ℕ → ℕ → ℕ → ℕ → ℕ → String → Exec (Db m) Message
  edit_message now ws c x u body = do
    found ← reads (assert_can_post ws c u false)
    message ← reads (load_own_message found.0.id x u)
    modify (λ db. record db {
      messages =
          m.message.update_one (has_message_id message.id) (edited_message now body) db.messages;
    })
    emit_to_channel found.0.id (SocketEvent.message_updated (edited_message now body message))
    pure (edited_message now body message)

  unfoldable pub erase_message : ℕ → ℕ → Message → Db m → Db m
  erase_message now c message db = record db {
    messages =
        update_parent m message.parent one_reply_less
          (m.message.update_one (has_message_id message.id) (deleted_message now) db.messages);
    channels = m.channel.update_one (has_channel_id c) one_message_less db.channels;
  }

  unfoldable pub delete_message : ℕ → ℕ → ℕ → ℕ → ℕ → Exec (Db m) ℕ
  delete_message now ws c x u = do
    found ← reads (assert_can_post ws c u false)
    message ← reads (load_own_message found.0.id x u)
    modify (erase_message now found.0.id message)
    emit_to_channel found.0.id (SocketEvent.message_deleted message.id)
    pure message.id

  unfoldable pub toggle_reaction : ℕ → ℕ → ℕ → ℕ → String → Exec (Db m) Message
  toggle_reaction ws c x u emoji = do
    raise_if (not (any (λ r. same_text r emoji) allowed_reactions))
        (bad_request ChannelMessages.reaction_not_allowed)
    found ← reads (assert_can_post ws c u false)
    message ← reads (load_message found.0.id x)
    let reactions = toggled emoji u message.reactions
    modify (λ db. record db {
      messages =
          m.message.update_one (has_message_id message.id) (with_reactions reactions) db.messages;
    })
    emit_to_channel found.0.id (SocketEvent.reaction_updated (with_reactions reactions message))
    pure (with_reactions reactions message)
