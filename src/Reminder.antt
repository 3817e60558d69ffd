-- ===== src/Reminder.antt =====
-- The reminder component (reminder/).
pub mod Migrations
pub mod Model
pub mod History
pub mod Database
pub mod Store
mod Examples
pub mod Service
pub mod Dispatcher
pub mod Lifecycle
pub mod Memory
pub mod Options
