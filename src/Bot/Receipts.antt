-- ===== src/Bot/Receipts.antt =====
-- The receipts of card payments: `receipt`, `card_approve` and `card_reject` of app/bot/handlers/common.py,
-- and `order_approve`, `order_reject` and `order_retry` of app/bot/handlers/owner/console.py.
use rebecca_reseller_bot.Prelude.{
  ℕ, Bool, true, false, ◌&&◌, ◌||◌, not, Option, none, some, List, any, update_where, is_some, ◌==◌,
  if◌then◌else◌,
}
use rebecca_reseller_bot.Prelude.Text.{Text, lit, teq}
use rebecca_reseller_bot.Prelude.Time.{Instant}
use rebecca_reseller_bot.Prelude.Effects.{Action, ErrorKind, pure, raise, gets, ◌>>=◌, ◌>>◌}
use rebecca_reseller_bot.Database.Models.{
  Order, OrderStatus, Payment, Product, Reseller, Database, same_order_status,
}
use rebecca_reseller_bot.Database.Settings.{Settings, operations_mode}
use rebecca_reseller_bot.Scheduler.State.{Run, change, database, read, update_order, update_payment}
use rebecca_reseller_bot.Bot.Transactions.{
  Telegram, receipt_received, approval_for_customer, approval_for_owner, order_rejected,
  owner_access, in_transaction, notify, notify_all, get_order, get_product, get_reseller,
  payment_of,
}

-- The configuration that these handlers read; `has_lifecycle` says that there is a lifecycle runner.
pub record Desk (W : Type 0) : Type 0 where
  pub bot : Telegram W
  pub owner_ids : List ℕ
  pub settings : Settings
  pub has_lifecycle : Bool

-- What a handler answers, and whether it schedules the reconciliation of paid orders.
pub data Answer : Type 0 where
  unauthorized not_accepted already_processed not_eligible : Answer
  receipt_kept rejected : Answer
  approved retried : Bool → Answer

unfoldable pub missing_row : {S A : Type 0} → Action S A
missing_row = raise ErrorKind.attribute_error (lit "'NoneType' object has no attribute")

-- `row` of `session.get`, where the code goes on to use it.
unfoldable pub needed : {S A : Type 0} → Option A → Action S A
needed none = missing_row
needed (some a) = pure a

-- Is it an order of that number in that status?
unfoldable pub is_claimable : ℕ → OrderStatus → Order → Bool
is_claimable id status o = (o.id == id) && same_order_status o.status status

-- `UPDATE orders SET … WHERE id = :id AND status = :status`
unfoldable pub claim : ℕ → OrderStatus → (Order → Order) → Database → Database
claim id status f db = record db { orders = update_where (is_claimable id status) f db.orders }

-- `rowcount == 1`, for the primary key of the table.
unfoldable pub is_claimed : ℕ → OrderStatus → Database → Bool
is_claimed id status db = any (is_claimable id status) db.orders

unfoldable pub set_paid : Instant → Order → Order
set_paid now o = record o { status = OrderStatus.paid; paid_at = some now }

unfoldable pub set_rejected : Order → Order
set_rejected o = record o { status = OrderStatus.rejected }

unfoldable pub set_waiting_receipt : Order → Order
set_waiting_receipt o = record o { status = OrderStatus.waiting_receipt }

-- `OrderStatus.FAILED and o.paid_at`
unfoldable pub is_retryable : Order → Bool
is_retryable o = same_order_status o.status OrderStatus.failed && is_some o.paid_at

unfoldable pub set_retried : Order → Order
set_retried o =
    if is_retryable o then record o { status = OrderStatus.paid; apply_error = none } else o

unfoldable pub is_eligible : Order → Bool
is_eligible o =
    same_order_status o.status OrderStatus.paid || same_order_status o.status OrderStatus.applying

module _ {W : Type 0} (desk : Desk W) where
  -- The writes of `receipt` for the order of the conversation.
  unfoldable pub keep_receipt : Text → Order → Payment → Action (Run W) Bool
  keep_receipt file_id order payment =
      if not (same_order_status order.status OrderStatus.pending) then pure false else (do
        change (update_order order.id set_waiting_receipt)
        change (
            update_payment payment.id (λ p. record p {
              telegram_file_id = some file_id;
              status = lit "WAITING_OWNER_APPROVAL";
            }))
        pure true)

  -- The rows that the messages use.
  unfoldable pub kept_rows :
      Order → Bool → Action (Run W) (Option (Order × Option Reseller × Option Product))
  kept_rows order false = pure none
  kept_rows order true = gets λ r. some (
    order,
    get_reseller order.reseller_id (database r),
    get_product order.product_id (database r),
  )

  unfoldable pub receipt_of :
      Text → Order → Payment → Action (Run W) (Option (Order × Option Reseller × Option Product))
  receipt_of file_id order payment = keep_receipt file_id order payment >>= kept_rows order

  unfoldable pub receipt_for :
      Text → Order → Action (Run W) (Option (Order × Option Reseller × Option Product))
  receipt_for file_id order =
      gets (λ r. payment_of order.id (database r)) >>= needed >>= receipt_of file_id order

  -- The order and the payment are used before the order's status is tested.
  unfoldable pub receipt_rows :
      ℕ → Text → Action (Run W) (Option (Order × Option Reseller × Option Product))
  receipt_rows order_id file_id =
      gets (λ r. get_order order_id (database r)) >>= needed >>= receipt_for file_id

  -- The photo or document that goes to every owner.
  unfoldable pub tell_owners : Text → Order → Reseller → Product → Action (Run W) Answer
  tell_owners file_id order reseller product =
      notify_all desk.bot desk.owner_ids (receipt_received order reseller product file_id)
      >> pure receipt_kept

  -- The caption uses the reseller and then the product.
  unfoldable pub caption : Text → Order → Option Product → Reseller → Action (Run W) Answer
  caption file_id order wanted reseller = needed wanted >>= tell_owners file_id order reseller

  unfoldable pub announce_receipt :
      Text → Option (Order × Option Reseller × Option Product) → Action (Run W) Answer
  announce_receipt file_id none = pure not_accepted
  announce_receipt file_id (some (order, found, wanted)) =
      needed found >>= caption file_id order wanted

  -- `order_id` and `file_id` are those of the conversation and of the message.
  unfoldable pub receipt : ℕ → Text → Action (Run W) Answer
  receipt order_id file_id =
      in_transaction (receipt_rows order_id file_id) >>= announce_receipt file_id

  -- The reseller of the order, and the mode of operation.
  unfoldable pub approval_of : Bool → Order → Action (Run W) (Bool × Order × Option Reseller × Bool)
  approval_of changed order = do
    reseller ← gets (λ r. get_reseller order.reseller_id (database r))
    mode ← read (λ (db : Database). operations_mode desk.settings db.settings)
    pure (changed, order, reseller, teq mode (lit "dry_run"))

  -- The rows that an approval reads after its update.
  unfoldable pub approval_rows : ℕ → Bool → Action (Run W) (Bool × Order × Option Reseller × Bool)
  approval_rows order_id changed =
      gets (λ r. get_order order_id (database r)) >>= needed >>= approval_of changed

  unfoldable pub claim_approval :
      ℕ → Instant → Action (Run W) (Bool × Order × Option Reseller × Bool)
  claim_approval order_id now = do
    changed ← gets (λ r. is_claimed order_id OrderStatus.waiting_receipt (database r))
    change (claim order_id OrderStatus.waiting_receipt (set_paid now))
    approval_rows order_id changed

  -- `if owner_text:` of `send_approval_notifications`.
  unfoldable pub tell_waiting : Bool → Order → Action (Run W) (Unit {0})
  tell_waiting false order = pure tt
  tell_waiting true order =
      notify_all desk.bot desk.owner_ids (approval_for_owner order.order_number)

  -- `send_approval_notifications`, and whether the reconciliation is scheduled.
  unfoldable pub tell_approval : Bool → Order → Reseller → Action (Run W) Answer
  tell_approval dry_run order reseller =
      notify desk.bot reseller.telegram_id (approval_for_customer order.order_number)
      >> (tell_waiting dry_run order >> pure (approved (not dry_run && desk.has_lifecycle)))

  unfoldable pub announce_approval : Bool × Order × Option Reseller × Bool → Action (Run W) Answer
  announce_approval (false, order, found, dry_run) = pure already_processed
  announce_approval (true, order, found, dry_run) = needed found >>= tell_approval dry_run order

  unfoldable pub card_approve : ℕ → ℕ → Instant → Action (Run W) Answer
  card_approve caller order_id now =
      if not (owner_access caller desk.owner_ids)
      then pure unauthorized
      else in_transaction (claim_approval order_id now) >>= announce_approval

  -- The handler of the console does the same with the same rows.
  unfoldable pub order_approve : ℕ → ℕ → Instant → Action (Run W) Answer
  order_approve caller order_id now =
      if not (owner_access caller desk.owner_ids)
      then pure unauthorized
      else in_transaction (claim_approval order_id now) >>= announce_approval

  unfoldable pub reject_waiting : Order → Action (Run W) (Option (Order × Option Reseller))
  reject_waiting order =
      if not (same_order_status order.status OrderStatus.waiting_receipt)
      then pure none
      else change (update_order order.id set_rejected)
        >> gets (λ r. some (order, get_reseller order.reseller_id (database r)))

  unfoldable pub reject_rows : ℕ → Action (Run W) (Option (Order × Option Reseller))
  reject_rows order_id = gets (λ r. get_order order_id (database r)) >>= needed >>= reject_waiting

  unfoldable pub tell_rejection : Order → Reseller → Action (Run W) Answer
  tell_rejection order reseller =
      notify desk.bot reseller.telegram_id (order_rejected order.order_number) >> pure rejected

  unfoldable pub announce_rejection : Option (Order × Option Reseller) → Action (Run W) Answer
  announce_rejection none = pure already_processed
  announce_rejection (some (order, found)) = needed found >>= tell_rejection order

  -- The reseller is read when its telegram number is needed.
  unfoldable pub card_reject : ℕ → ℕ → Action (Run W) Answer
  card_reject caller order_id =
      if not (owner_access caller desk.owner_ids)
      then pure unauthorized
      else in_transaction (reject_rows order_id) >>= announce_rejection

  unfoldable pub rejection_of : Bool → Order → Action (Run W) (Option (Order × Option Reseller))
  rejection_of changed order =
      gets λ r. if changed then some (order, get_reseller order.reseller_id (database r)) else none

  unfoldable pub rejection_rows : ℕ → Bool → Action (Run W) (Option (Order × Option Reseller))
  rejection_rows order_id changed =
      gets (λ r. get_order order_id (database r)) >>= needed >>= rejection_of changed

  unfoldable pub claim_rejection : ℕ → Action (Run W) (Option (Order × Option Reseller))
  claim_rejection order_id = do
    changed ← gets (λ r. is_claimed order_id OrderStatus.waiting_receipt (database r))
    change (claim order_id OrderStatus.waiting_receipt set_rejected)
    rejection_rows order_id changed

  unfoldable pub order_reject : ℕ → ℕ → Action (Run W) Answer
  order_reject caller order_id =
      if not (owner_access caller desk.owner_ids)
      then pure unauthorized
      else in_transaction (claim_rejection order_id) >>= announce_rejection

  unfoldable pub retry_of : Order → Action (Run W) Bool
  retry_of order =
      change (update_order order.id set_retried) >> pure (is_eligible (set_retried order))

  unfoldable pub retry_rows : ℕ → Action (Run W) Bool
  retry_rows order_id = gets (λ r. get_order order_id (database r)) >>= needed >>= retry_of

  unfoldable pub announce_retry : Bool → Action (Run W) Answer
  announce_retry eligible = pure (if eligible then retried desk.has_lifecycle else not_eligible)

  unfoldable pub order_retry : ℕ → ℕ → Action (Run W) Answer
  order_retry caller order_id =
      if not (owner_access caller desk.owner_ids)
      then pure unauthorized
      else in_transaction (retry_rows order_id) >>= announce_retry
