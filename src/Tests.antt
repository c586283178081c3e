-- ===== src/Tests.antt =====
-- The theorems at concrete inputs: a Rebecca service in memory, an order, a reseller and a product.
pub mod World
mod Parts
mod Services
mod Jobs
mod Bots
mod Handlers
mod Renewals
pub mod Registry
