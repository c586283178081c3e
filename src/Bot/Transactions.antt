-- ===== src/Bot/Transactions.antt =====
-- What the handlers of app/bot work with: `async with sessions() as session, session.begin()`, the rows
-- by their keys, and the messages that go out.
use rebecca_reseller_bot.Prelude.{ℕ, Bool, Option, List, [], ◌∷◌, any, first, ◌==◌}
use rebecca_reseller_bot.Prelude.Text.{Text}
use rebecca_reseller_bot.Prelude.Effects.{Action, Result, ok, raised, pure, ◌>>◌}
use rebecca_reseller_bot.Database.Models.{Order, Payment, Product, Reseller, Database}
use rebecca_reseller_bot.Database.Session.{commit, rollback}
use rebecca_reseller_bot.Scheduler.State.{Run, remote}

-- A message of the bot to a chat, by its variable parts; the Persian wording is left out.
pub data Message : Type 0 where
  receipt_received : Order → Reseller → Product → Text → Message
  approval_for_customer approval_for_owner order_rejected : Text → Message
  would_provision_trial trial_failed : ℕ → Message
  trial_credentials : Text → Text → Message

-- `bot.send_message`, which may raise.
pub record Telegram (W : Type 0) : Type 0 where
  pub send_message : ℕ → Message → Action W (Unit {0})
  pub get_chat_member : Text → ℕ → Action W Text

-- `user_id in owner_ids`
unfoldable pub owner_access : ℕ → List ℕ → Bool
owner_access user_id = any (λ owner. user_id == owner)

module _ {W : Type 0} where
  -- A new session sees what is committed.
  unfoldable pub begin : Run W → Run W
  begin r = record r { session = rollback r.session }

  unfoldable pub finish_transaction : {A : Type 0} → Result A → Run W → Result A × Run W
  finish_transaction (ok a) r = (ok a, record r { session = commit r.session })
  finish_transaction (raised e) r = (raised e, record r { session = rollback r.session })

  -- What the block returns is committed, and what it raises is rolled back.
  unfoldable pub in_transaction : {A : Type 0} → Action (Run W) A → Action (Run W) A
  in_transaction body r = let (result, s) = body (begin r) in finish_transaction result s

  unfoldable pub notify : Telegram W → ℕ → Message → Action (Run W) (Unit {0})
  notify bot chat_id message = remote (bot.send_message chat_id message)

  unfoldable pub notify_all : Telegram W → List ℕ → Message → Action (Run W) (Unit {0})
  notify_all bot [] message = pure tt
  notify_all bot (owner ∷ owners) message =
      notify bot owner message >> notify_all bot owners message

unfoldable pub get_order : ℕ → Database → Option Order
get_order id db = first (λ (o : Order). o.id == id) db.orders

unfoldable pub get_product : ℕ → Database → Option Product
get_product id db = first (λ (p : Product). p.id == id) db.products

unfoldable pub get_reseller : ℕ → Database → Option Reseller
get_reseller id db = first (λ (x : Reseller). x.id == id) db.resellers

unfoldable pub reseller_of_customer : ℕ → Database → Option Reseller
reseller_of_customer telegram_id db =
    first (λ (x : Reseller). x.telegram_id == telegram_id) db.resellers

unfoldable pub payment_of : ℕ → Database → Option Payment
payment_of order_id db = first (λ (p : Payment). p.order_id == order_id) db.payments
