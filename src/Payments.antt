-- ===== src/Payments.antt =====
-- app/payments: orders, Plisio and its callback.
pub mod Service
pub mod Plisio
pub mod Webhook
