-- ===== src/Store.antt =====
-- internal/store: the SQLite database and its operations.
pub mod Database
pub mod Tasks
pub mod Timeline
pub mod Runs
pub mod Schedules
pub mod Desktop
pub mod Agents
pub mod Conversations
pub mod Sidebar
pub mod Access
pub mod Sync
pub mod Listing
