-- ===== src/Rebecca.antt =====
-- app/rebecca: the adapter to the Rebecca panel.
pub mod Models
pub mod Interface
pub mod Capabilities
pub mod Http
