-- ===== src/Orders.antt =====
-- The life of an order over app/bot/handlers/common.py, app/bot/handlers/owner/console.py and
-- app/payments/webhook.py: the diagram of its states, the table of the orders under the handlers, and
-- whole sequences of their calls.
pub mod Diagram
pub mod Table
pub mod Changes
pub mod Actions
pub mod Approvals
pub mod Rejections
pub mod Placing
pub mod Callback
pub mod Calls
pub mod Settled
