-- ===== src/Scheduler/Plisio.antt =====
-- `_reconcile_plisio` of app/scheduler/jobs.py: open payments are looked up at Plisio.
use rebecca_reseller_bot.Prelude.{
  Bool, ◌&&◌, ◌||◌, not, none, some, List, [], ◌∷◌, ◌++◌, map, select, take, ◌==◌, if◌then◌else◌,
}
use rebecca_reseller_bot.Prelude.Text.{Text, lit, teq, upper, is_empty}
use rebecca_reseller_bot.Prelude.Json.{Fields}
use rebecca_reseller_bot.Prelude.Time.{Instant}
use rebecca_reseller_bot.Prelude.Effects.{Action, Exception, Result, ok, raised, pure, ◌>>=◌, ◌>>◌}
use rebecca_reseller_bot.Database.Models.{Order, OrderStatus, Payment, same_order_status}
use rebecca_reseller_bot.Payments.Plisio.{Signing, Operation, normalize_operation}
use rebecca_reseller_bot.Payments.Plisio.Amount.{decimal_eq, hundredths}
use rebecca_reseller_bot.Scheduler.State.{
  Run, Runner, remote, change, database, for_each, audit, update_order, update_payment,
}

-- The pairs of the join that the query selects.
unfoldable pub is_open : Order → Payment → Bool
is_open order payment =
    (payment.order_id == order.id)
    && same_order_status order.status OrderStatus.waiting_payment
    && teq payment.method (lit "PLISIO")

unfoldable pub open_payments : List Order → List Payment → List (Order × Payment)
open_payments [] payments = []
open_payments (order ∷ orders) payments =
    map (λ payment. (order, payment)) (select (is_open order) payments)
    ++ open_payments orders payments

-- `valid`
unfoldable pub is_valid : Order → Text → Operation → Bool
is_valid order txn remote =
    teq remote.order_number order.order_number
    && teq remote.id txn
    && teq remote.source_currency (upper order.currency)
    && decimal_eq remote.source_amount (hundredths order.amount)

unfoldable pub pay : Instant → Order → Order
pay now o = record o { status = OrderStatus.paid; paid_at = some now }

-- `transaction` is `PlisioClient.transaction`, the lookup over HTTP.
module _ {W : Type 0} (runner : Runner W) (signing : Signing) (transaction : Text → Action W Fields)
    (now : Instant) where
  unfoldable pub complete : Order → Operation → Action (Run W) (Unit {0})
  complete order operation =
      if teq operation.status (lit "completed")
      then (do
        change (update_order order.id (pay now))
        audit runner now (lit "PLISIO_RECONCILED") (lit "order") order.order_number (lit "PAID")
            (some order.id) none)
      else pure tt

  unfoldable pub check_operation : Order → Payment → Text → Operation → Action (Run W) (Unit {0})
  check_operation order payment txn operation =
      if not (is_valid order txn operation)
      then audit runner now (lit "PLISIO_RECONCILE_REJECTED") (lit "order") order.order_number
          (lit "REJECTED") (some order.id) none
      else (do
        change (update_payment payment.id (λ p. record p { status = operation.status }))
        complete order operation)

  unfoldable pub lookup_failed : Order → Exception → Action (Run W) (Unit {0})
  lookup_failed order e =
      audit runner now (lit "PLISIO_RECONCILE_FAILED") (lit "order") order.order_number
        (lit "ERROR") (some order.id) (some e.message)

  unfoldable pub on_transaction :
      Order → Payment → Text → Result Operation → Action (Run W) (Unit {0})
  on_transaction order payment txn (raised e) = lookup_failed order e
  on_transaction order payment txn (ok operation) = check_operation order payment txn operation

  unfoldable pub operation_of_answer : Result Fields → Result Operation
  operation_of_answer (raised e) = raised e
  operation_of_answer (ok fields) = normalize_operation signing fields

  -- `normalize_operation(await client.transaction(txn))` in its handler: what either raises is kept.
  unfoldable pub look_up_transaction : Text → Action (Run W) (Result Operation)
  look_up_transaction txn r =
      let (answer, w) = transaction txn r.world in
      (ok (operation_of_answer answer), record r { world = w })

  unfoldable pub reconcile_payment : Order × Payment → Action (Run W) (Unit {0})
  reconcile_payment (order, payment) = elim payment.plisio_txn_id [
    | none ↦ pure tt
    | some txn ↦
        if is_empty txn
        then pure tt
        else look_up_transaction txn >>= on_transaction order payment txn
  ]

  unfoldable pub reconcile_plisio : Action (Run W) (Unit {0})
  reconcile_plisio r =
      if not runner.plisio_enabled || is_empty runner.plisio_secret_key
      then (ok tt, r)
      else for_each reconcile_payment
          (take runner.batch_size (open_payments (database r).orders (database r).payments)) r
