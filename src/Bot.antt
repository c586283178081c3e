-- ===== src/Bot.antt =====
-- app/bot: card numbers, and the membership of required channels.
pub mod Cards
pub mod Membership
pub mod Transactions
pub mod Receipts
pub mod Checkout
pub mod Trials
pub mod Values
pub mod Owner
pub mod Console
