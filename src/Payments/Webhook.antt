-- ===== src/Payments/Webhook.antt =====
-- app/payments/webhook.py: the callback that marks an order as paid.
pub mod PaidOnce
use rebecca_reseller_bot.Prelude.{
  ℕ, Bool, true, false, ◌&&◌, not, Option, none, some, List, [], ◌∷◌, first, update_where, ◌==◌,
  if◌then◌else◌,
}
use rebecca_reseller_bot.Prelude.Text.{Text, lit, teq, upper, is_empty}
use rebecca_reseller_bot.Prelude.Time.{Instant}
use rebecca_reseller_bot.Prelude.Json.{Json, str, Fields, get_field}
use rebecca_reseller_bot.Prelude.Effects.{Result, ok, raised, ErrorKind, Exception}
use rebecca_reseller_bot.Database.Models.{
  Order, OrderStatus, Payment, Database, is_settled, same_order_status,
}
use rebecca_reseller_bot.Payments.Plisio.{Signing, verify, text_at, truthy, exact_amount}
use rebecca_reseller_bot.Payments.Plisio.Amount.{Decimal, decimal_eq, hundredths}

-- What the callback answers: `{"ok": true, "paid": …}`, idempotent or not, or an HTTP error.
pub data Reply : Type 0 where
  not_completed idempotent paid : Reply
  http_error : ℕ → Text → Reply
  -- an exception that is no `HTTPException`: the server answers 500
  crashed : Exception → Reply

-- `payment.plisio_txn_id != payload.get("txn_id")`, negated.
unfoldable pub same_txn : Text → Option Json → Bool
same_txn txn none = false
same_txn txn (some (str t)) = teq txn t
same_txn txn (some _) = false

-- The columns that the callback writes.
unfoldable pub mark_paid : ℕ → Instant → Database → Database
mark_paid order_id now db = record db {
  orders =
      update_where (λ (o : Order). o.id == order_id)
        (λ o. record o { status = OrderStatus.paid; paid_at = some now }) db.orders;
  payments =
      update_where (λ (p : Payment). p.order_id == order_id)
        (λ p. record p { status = lit "completed" }) db.payments;
}

module _ (signing : Signing) (secret source_currency : Text) where
  -- The checks after the amount is read.
  unfoldable pub settle : Fields → Instant → Order → Decimal → Database → Reply × Database
  settle payload now order amount db =
      if not (decimal_eq amount (hundredths order.amount))
      then (http_error 400 (lit "amount mismatch"), db)
      else if not (same_txn (lit "completed") (get_field (lit "status") payload))
      then (not_completed, db)
      else if is_settled order.status
      then (idempotent, db)
      else if not (same_order_status order.status OrderStatus.waiting_payment)
      then (http_error 409 (lit "invalid order state"), db)
      else (paid, mark_paid order.id now db)

  -- The checks of the transaction, the currency and the amount.
  unfoldable pub match_payment :
      Fields → Instant → Order → Option Payment → Database → Reply × Database
  match_payment payload now order none db = (http_error 400 (lit "missing stored transaction"), db)
  match_payment payload now order (some payment) db = elim payment.plisio_txn_id [
    | none ↦ (http_error 400 (lit "missing stored transaction"), db)
    | some txn ↦
        if is_empty txn
        then (http_error 400 (lit "missing stored transaction"), db)
        else if not (same_txn txn (get_field (lit "txn_id") payload))
        then (http_error 400 (lit "transaction mismatch"), db)
        else if not (
            teq (upper (text_at signing (lit "source_currency") [] payload))
              (upper source_currency))
        then (http_error 400 (lit "currency mismatch"), db)
        else elim (exact_amount (text_at signing (lit "source_amount") (lit "-1") payload)) [
          | raised e ↦ (crashed e, db)
          | ok amount ↦ settle payload now order amount db
        ]
  ]

  unfoldable pub find_order : Text → Database → Option Order
  find_order order_number db = first (λ (o : Order). teq o.order_number order_number) db.orders

  unfoldable pub find_payment : ℕ → Database → Option Payment
  find_payment order_id db = first (λ (p : Payment). p.order_id == order_id) db.payments

  -- One transaction: what is raised inside rolls it back, and nothing was written before.
  unfoldable pub callback : Fields → Instant → Database → Reply × Database
  callback payload now db = elim (verify signing payload secret) [
    | raised e ↦ (crashed e, db)
    | ok false ↦ (http_error 400 (lit "invalid signature"), db)
    | ok true ↦ elim (find_order (text_at signing (lit "order_number") [] payload) db) [
      | none ↦ (http_error 404 (lit "unknown order"), db)
      | some order ↦ match_payment payload now order (find_payment order.id db) db
    ]
  ]

  -- `if reconciliation is not None: reconciliation.trigger()`: does the call trigger it?
  unfoldable pub triggers : Reply → Bool
  triggers paid = true
  triggers _ = false
