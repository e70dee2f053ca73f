-- ===== src/Store.antt =====
-- What the services work on: error values (helpers/apiError.ts), one MongoDB collection behind the
-- driver's documented behaviour, and actions on a state that may raise.
mod Errors
mod Collections
mod Actions
mod Outcomes
pub use Errors.*
pub use Collections.*
unfoldable pub use Actions.*
pub use Outcomes.*
