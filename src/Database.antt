-- ===== src/Database.antt =====
-- app/database: the tables, the locks and the runtime settings.
pub mod Models
pub mod Session
pub mod Locks
pub mod Settings
