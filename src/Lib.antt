-- ===== src/Lib.antt =====
-- The core of a Telegram bot that sells reseller accounts of Rebecca, a panel for proxy users: what
-- it does with payments, with the entitlements of resellers and with their users. The sources are
-- in Python, under app/.
--
-- The parts and their files:
--
-- - Rebecca (app/rebecca): the administrators and users that Rebecca reports (`Admin`, `User`),
--   the abstract client (`RebeccaClient`, a record of actions on a type of worlds), the routes that
--   the OpenAPI schema advertises, and `HTTPRebeccaClient` with all its requests (Rebecca/Http), of which
--   `http_client` is the abstract client.
--   The client is a parameter of the code that calls Rebecca; what is needed of one is a named
--   record of laws.
-- - Database (app/database): the tables as records, a session as what is written and what is
--   committed, the locks, and the settings of the owner.
-- - Reseller (app/reseller): the arithmetic of quotas, passwords and usernames, the provisioning
--   of an administrator, and trials.
-- - Payments (app/payments): `apply_order`, which carries a paid renewal out and may be called
--   again after any failure, Plisio's signatures and answers, and the callback that marks an order
--   as paid.
-- - Users (app/users): ownership, and the deletion of users behind its guards.
-- - Bot (app/bot/handlers/common.py, app/bot/handlers/owner/console.py, app/bot/settings.py,
--   app/bot/middlewares/membership.py): the transactions of the handlers (Bot/Transactions), the orders
--   that customers place (Bot/Checkout), receipts and their approval or rejection (Bot/Receipts), the
--   free trial (Bot/Trials), the values of settings that owners enter (Bot/Values), the commands of owners
--   that change something (Bot/Owner) and the buttons of their console (Bot/Console); card numbers and the membership of channels.
-- - Orders: the diagram of an order's states, the table of the orders under each handler, and
--   sequences of calls of the handlers and of the callback, in any order.
-- - Scheduler (app/scheduler/jobs.py, app/notifications/service.py, app/audit/service.py): the
--   jobs of `LifecycleRunner`. They work on the session and on the world; the lock
--   `scheduler:global` surrounds them. The order job calls `provision` and `apply_order` with
--   `session.commit` as the callback that makes a target durable.
-- - Prelude: texts, integers, results, JSON and sorting. Tests: the theorems at concrete inputs,
--   with two Rebecca services in memory: one administrator (Tests/World), and any number with their names
--   (Tests/Registry).
--
-- How code becomes definitions: an `async` function is an action from a state to a result and a
-- state, where the result is a value or an exception and the state is kept after an exception. Rows
-- are records; a query is a filter of a table, and a write is an update of the rows with that key.
-- A `with` or `try` block is a function of its own. An instant is the number of microseconds since
-- the epoch, amounts are hundredths, and texts are lists of code points. The case of letters
-- follows ASCII.
--
-- Bounds and fuel: the loop of `generate_password` has no bound in the source; here it has fuel,
-- and it is enough if one of the draws within the fuel holds no forbidden value. `_available_username` tries
-- 100 times, as in the source. The printing of numbers has as much fuel as the number itself.
-- Batches have the size of the source, a parameter.
--
-- Parameters, since the code is not in the repository: HMAC-SHA1 and the JSON printer, the HTTP
-- requests to Plisio and to Rebecca, the validation of pydantic, the random draws, `str` of a time,
-- and the bot of Telegram. The redaction of audit texts, by regular expressions, is a parameter as
-- well.
--
-- Not modelled: `parse_expire` of app/rebecca/models.py: the times of a read are those that the validation of
-- pydantic returns, and at the aware time that `verify_entitlement` passes it keeps the instant; what the
-- handlers only show (the panels of app/bot/handlers/customer/panels.py and
-- app/bot/handlers/owner/panels.py, the pages, reports and keyboards, the answers to callbacks), the
-- wizards that create products and channels, start-up and configuration (app/main.py, app/config.py,
-- app/database/session.py), and the task of app/payments/reconciliation.py: that a handler schedules it is
-- part of its answer. A conversation's state is an argument of the handler that it leads to. Commands
-- come as their parts. Messages are kept by their variable parts, without the Persian texts. The
-- days and percentages of the warnings are compared exactly, where the source has floats; the amount of
-- a crypto order is the exact quotient rounded, where Decimal keeps 28 digits, and a rate that is NaN or
-- infinite counts as no rate.
pub mod Prelude
pub mod Rebecca
pub mod Database
pub mod Reseller
pub mod Payments
pub mod Users
pub mod Bot
pub mod Orders
pub mod Scheduler
pub mod Tests
