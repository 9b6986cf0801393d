-- ===== src/Tests.antt =====
-- Runs of the theorems on a small world: each example applies a theorem of the development to
-- concrete accounts.
pub mod World
pub mod Desk
pub mod Client
pub mod Forms
pub mod Mocked
pub mod Screens
pub mod Running
pub mod Trading
pub mod Managing
pub mod Limits
pub mod Lives
