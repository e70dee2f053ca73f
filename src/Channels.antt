-- ===== src/Channels.antt =====
-- src/services/channel.service.ts: who may read and post, and the operations on channels. The
-- children hold the messages and what is proved.
pub mod Messages
use flowdeck_backend.Constants.ChannelMessages
use flowdeck_backend.Base.{
  Bool, Option, String, false, get_or, if◌then◌else◌, is_none, none, not, same_text, some, true, ℕ,
  ◌&&◌, ◌+◌, ◌-◌, ◌==◌,
}
use flowdeck_backend.Models.{Channel, ChannelMember, ChannelVisibility, Db, Effect, Models, cause}
use flowdeck_backend.Store.{
  Exec, Result, bad_request, conflict, err, forbidden, gets, modify, not_found, ok, or_raise, pure,
  raise_if, reads, ◌>>=◌, ◌>>◌,
}

pub record CreateChannelInput : Type 0 where
  pub name : String
  pub topic : Option String
  pub visibility : ChannelVisibility

pub record UpdateChannelInput : Type 0 where
  pub name : Option String
  pub topic : Option String
  pub visibility : Option ChannelVisibility

abbrev pub is_private : ChannelVisibility → Bool
is_private ChannelVisibility.private = true
is_private ChannelVisibility.public = false

abbrev pub is_channel : ℕ → ℕ → Channel → Bool
is_channel ws c d = d.id == c && d.workspace == ws && is_none d.archived_at

abbrev pub has_channel_id : ℕ → Channel → Bool
has_channel_id c d = d.id == c

abbrev pub is_member_of : ℕ → ℕ → ChannelMember → Bool
is_member_of c u d = d.channel == c && d.user == u

abbrev pub new_member : ℕ → ℕ → ℕ → ℕ → ℕ → ChannelMember
new_member id c ws u now = record {
  id = id;
  channel = c;
  workspace = ws;
  user = u;
  last_read_at = some now;
  muted = false;
}

module _ {m : Models} where
  unfoldable pub invalidate : ℕ → Exec (Db m) (Unit {0})
  invalidate ws = cause (Effect.invalidate ws)

  unfoldable pub load_channel : ℕ → ℕ → Db m → Result Channel
  load_channel ws c db =
      or_raise (m.channel.find_one (is_channel ws c) db.channels)
        (not_found ChannelMessages.not_found)

  -- The channel and the membership that `assertCanRead` finds; the last argument is `unrestricted`.
  unfoldable pub assert_can_read : ℕ → ℕ → ℕ → Bool → Db m → Result (Channel × Option ChannelMember)
  assert_can_read ws c u unrestricted db = elim (load_channel ws c db) [
    | err e ↦ err e
    | ok channel ↦
        let membership = m.channel_member.find_one (is_member_of channel.id u) db.channel_members in
        if is_private channel.visibility && is_none membership && not unrestricted
        then err (forbidden ChannelMessages.private_access)
        else ok (channel, membership)
  ]

  unfoldable pub assert_can_post : ℕ → ℕ → ℕ → Bool → Db m → Result (Channel × ChannelMember)
  assert_can_post ws c u unrestricted db = elim (assert_can_read ws c u unrestricted db) [
    | err e ↦ err e
    | ok (channel, none) ↦ err (forbidden ChannelMessages.not_joined)
    | ok (channel, some membership) ↦ ok (channel, membership)
  ]

  -- `id` and `member` are the object ids that the channel and its first member get, and `slug` is what
  -- `slugify` returns for the name.
  unfoldable pub create_channel :
      ℕ → ℕ → String → ℕ → ℕ → ℕ → CreateChannelInput → Exec (Db m) Channel
  create_channel id member slug now ws author payload = do
    taken ←
        gets
          (λ db. m.channel.find_one (λ d. d.workspace == ws && same_text d.slug slug) db.channels)
    raise_if (not (is_none taken)) (conflict ChannelMessages.name_taken)
    let created : Channel = record {
      id = id;
      workspace = ws;
      name = payload.name;
      slug = slug;
      topic = get_or payload.topic "";
      visibility = payload.visibility;
      created_by = author;
      member_count = 1;
      message_count = 0;
      last_message_at = none;
      archived_at = none;
    }
    modify (λ db. record db { channels = m.channel.create created db.channels })
    modify (λ db. record db {
      channel_members =
          m.channel_member.create (new_member member id ws author now) db.channel_members;
    })
    invalidate ws
    pure created

  unfoldable pub update_channel : ℕ → ℕ → ℕ → UpdateChannelInput → Exec (Db m) (Option Channel)
  update_channel ws c u payload = do
    reads (assert_can_post ws c u false)
    let here = λ (d : Channel). d.id == c && d.workspace == ws
    modify (λ db. record db {
      channels =
          m.channel.update_one here
            (λ d. record d {
              name = get_or payload.name d.name;
              topic = get_or payload.topic d.topic;
              visibility = get_or payload.visibility d.visibility;
            })
            db.channels;
    })
    channel ← gets (λ db. m.channel.find_one here db.channels)
    invalidate ws
    pure channel

  unfoldable pub archive_channel : ℕ → ℕ → ℕ → Exec (Db m) ℕ
  archive_channel now ws c = do
    channel ← reads (load_channel ws c)
    modify (λ db. record db {
      channels =
          m.channel.update_one (has_channel_id channel.id)
            (λ d. record d { archived_at = some now }) db.channels;
    })
    invalidate ws
    pure channel.id

  unfoldable pub add_channel_member : ChannelMember → Db m → Db m
  add_channel_member member db = record db {
    channel_members = m.channel_member.create member db.channel_members;
    channels =
        m.channel.update_one (has_channel_id member.channel)
          (λ d. record d { member_count = d.member_count + 1 }) db.channels;
  }

  unfoldable pub drop_channel_member : ℕ → ChannelMember → Db m → Db m
  drop_channel_member c member db = record db {
    channel_members = m.channel_member.delete_one (λ d. d.id == member.id) db.channel_members;
    channels =
        m.channel.update_one (has_channel_id c)
          (λ d. record d { member_count = d.member_count - 1 }) db.channels;
  }

  unfoldable pub join_channel : ℕ → ℕ → ℕ → ℕ → ℕ → Bool → Exec (Db m) ℕ
  join_channel id now ws c u unrestricted = do
    channel ← reads (load_channel ws c)
    raise_if (is_private channel.visibility && not unrestricted)
        (forbidden ChannelMessages.private_access)
    already ← gets (λ db. m.channel_member.find_one (is_member_of channel.id u) db.channel_members)
    raise_if (not (is_none already)) (conflict ChannelMessages.already_joined)
    modify (add_channel_member (new_member id channel.id ws u now))
    invalidate ws
    pure channel.id

  unfoldable pub leave_channel : ℕ → ℕ → ℕ → Exec (Db m) ℕ
  leave_channel ws c u = do
    channel ← reads (load_channel ws c)
    member ← reads (λ db.
        or_raise (m.channel_member.find_one (is_member_of channel.id u) db.channel_members)
          (bad_request ChannelMessages.not_joined))
    modify (drop_channel_member channel.id member)
    invalidate ws
    pure channel.id

  unfoldable pub mark_read : ℕ → ℕ → ℕ → ℕ → Exec (Db m) ℕ
  mark_read now ws c u = do
    found ← reads (assert_can_post ws c u false)
    modify (λ db. record db {
      channel_members =
          m.channel_member.update_one (is_member_of found.0.id u)
            (λ d. record d { last_read_at = some now }) db.channel_members;
    })
    pure found.0.id
