-- ===== src/Helpers.antt =====
-- The pure helpers of src/helpers.
pub mod Pagination
pub mod Password
pub mod Slug
mod Tests
