-- ===== src/Payments/Service.antt =====
-- app/payments/service.py: the approval of a card payment, entitlement snapshots, and `apply_order`,
-- which carries a paid renewal out. The per-order `asyncio.Lock` makes the calls for one order follow
-- each other; here they are a sequence of calls.
pub mod Snapshots
pub mod Approval
pub mod Apply
pub mod Target
pub mod Success
pub mod Named
pub mod Once
pub mod Expired
pub mod Renewed
