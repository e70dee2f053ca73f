-- ===== src/Constants.antt =====
-- src/constants/messages.ts: the messages that the modelled services raise.
pub mod AuthMessages
pub mod BoardMessages
pub mod WorkspaceMessages
pub mod PageMessages
pub mod ChannelMessages
pub mod FileMessages
