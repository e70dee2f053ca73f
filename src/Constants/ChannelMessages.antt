-- ===== src/Constants/ChannelMessages.antt =====
-- `CHANNEL_MESSAGES` of src/constants/messages.ts, and two messages of channel.service.ts
use flowdeck_backend.Base.{String}

abbrev pub not_found : String
not_found = "Channel not found"

abbrev pub name_taken : String
name_taken = "A channel with this name already exists in the workspace"

abbrev pub private_access : String
private_access = "This channel is private, ask a member to invite you"

abbrev pub already_joined : String
already_joined = "You are already in this channel"

abbrev pub not_joined : String
not_joined = "Join the channel before posting"

abbrev pub message_not_found : String
message_not_found = "Message not found"

abbrev pub not_message_author : String
not_message_author = "You can only change your own messages"

abbrev pub mentions_not_members : String
mentions_not_members = "Mentions must be workspace members"

abbrev pub reaction_not_allowed : String
reaction_not_allowed = "Reaction must be one of like, celebrate, eyes, thanks, fire, question"
