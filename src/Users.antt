-- ===== src/Users.antt =====
-- app/users: ownership and the deletion of users.
pub mod Lifecycle
