-- ===== src/Models.antt =====
-- The documents of src/models, the effects that leave the process, and the state of the services:
-- one collection for each mongoose model and the list of effects so far.
mod Boards
mod Pages
mod Tokens
pub mod Workspaces
mod Channels
mod Effects
mod State
pub use Boards.*
pub use Pages.*
pub use Tokens.*
pub use Workspaces.*
pub use Channels.*
pub use Effects.*
unfoldable pub use State.*
