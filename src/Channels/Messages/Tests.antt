-- ===== src/Channels/Messages/Tests.antt =====
-- Requests on one channel, and the theorems at concrete inputs.
use flowdeck_backend.Base.{List, [], arith, false, map, none, not, refl, some, ◌∷◌, ◌≡◌}
use flowdeck_backend.Boards.{set_of}
use flowdeck_backend.Channels.{
  add_channel_member, archive_channel, assert_can_post, assert_can_read, create_channel,
  drop_channel_member, invalidate, join_channel, leave_channel, load_channel, mark_read, new_member,
  update_channel,
}
use flowdeck_backend.Channels.Messages.{
  SendMessageInput, assert_mentions, delete_message, edit_message, emit_to_channel, erase_message,
  load_message, load_own_message, send_message, store_message, tell_mentioned, toggle_reaction,
  toggled, update_parent,
}
use flowdeck_backend.Channels.Messages.Guards.{IsRefused, not_member-IsRefused}
use flowdeck_backend.Channels.Messages.Reactions.{has_reacted, has_reacted-toggled}
use flowdeck_backend.Models.{Channel, ChannelVisibility, Db, Reaction, empty_db, list_models}
use flowdeck_backend.Store.{modify, pure, reads, when, ◌>>=◌}

abbrev general : Channel
general = record {
  id = 3;
  workspace = 7;
  name = "General";
  slug = "general";
  topic = "";
  visibility = ChannelVisibility.public;
  created_by = 40;
  member_count = 1;
  message_count = 0;
  last_message_at = none;
  archived_at = none;
}

abbrev start : Db list_models
start = record empty_db { channels = general ∷ []; channel_members = new_member 1 3 7 40 0 ∷ [] }

channels : Unit {0}
unfolding invalidate load_channel assert_can_read assert_can_post create_channel update_channel
    archive_channel add_channel_member drop_channel_member join_channel leave_channel mark_read
    update_parent assert_mentions emit_to_channel store_message tell_mentioned send_message
    load_message load_own_message edit_message erase_message delete_message toggle_reaction toggled
    set_of ◌>>=◌ reads modify pure when
channels = tt

abbrev note : SendMessageInput
note = record { body = "hi"; parent = none; mentions = none; attachments = none }

abbrev sent : Db list_models
sent = (send_message 50 9 7 3 40 note start).1

-- A reply counts on its parent, a deletion takes it back, and a reaction can be given and taken.
counts :
    (map
        (λ d. d.message_count)
        (send_message 51 9 7 3 40 (record note { parent = some 50 }) sent).1.channels
      ≡ 2 ∷ [])
    × (map
          (λ d. d.reply_count)
          (send_message 51 9 7 3 40 (record note { parent = some 50 }) sent).1.messages
        ≡ 1 ∷ 0 ∷ [])
    × (map (λ d. d.message_count) (delete_message 10 7 3 50 40 sent).1.channels ≡ 0 ∷ [])
unfolding channels
counts = (refl, refl, refl)

reactions :
    (map (λ d. d.reactions) (toggle_reaction 7 3 50 40 "fire" sent).1.messages
      ≡ (record { emoji = "fire"; users = 40 ∷ [] } ∷ []) ∷ [])
    × (map
          (λ d. d.reactions)
          (toggle_reaction 7 3 50 40 "fire" (toggle_reaction 7 3 50 40 "fire" sent).1).1.messages
        ≡ [] ∷ [])
unfolding channels
reactions = (refl, refl)

joined : map (λ d. d.member_count) (join_channel 2 9 7 3 41 false start).1.channels ≡ 2 ∷ []
unfolding channels
joined = refl

abbrev two_reactions : List Reaction
two_reactions =
    record { emoji = "like"; users = 40 ∷ [] }
    ∷ record { emoji = "fire"; users = 40 ∷ 41 ∷ [] }
    ∷ []

has_reacted-toggled_example :
    has_reacted "like" 40 (toggled "like" 40 two_reactions)
    ≡ not (has_reacted "like" 40 two_reactions)
has_reacted-toggled_example = has_reacted-toggled "like" 40 two_reactions (ground arith)

not_member-IsRefused_example :
    IsRefused (send_message 60 9 7 3 42 note start) start
    × IsRefused (edit_message 9 7 3 60 42 "x" start) start
    × IsRefused (delete_message 9 7 3 60 42 start) start
    × IsRefused (toggle_reaction 7 3 60 42 "fire" start) start
    × IsRefused (mark_read 9 7 3 42 start) start
    × IsRefused
        (update_channel 7 3 42 (record { name = none; topic = some "t"; visibility = none }) start)
        start
not_member-IsRefused_example =
    not_member-IsRefused 7 3 42 9 60 start note
      (record { name = none; topic = some "t"; visibility = none }) "x" "fire" refl
