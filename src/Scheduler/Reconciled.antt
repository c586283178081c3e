-- ===== src/Scheduler/Reconciled.antt =====
-- When the reconciliation with Plisio marks an order as paid.
use rebecca_reseller_bot.Prelude.{
  ◌≡◌, refl, ◌⊎◌, true, some, inl, inr, Bool-cases, Option-cases, update_where, ◌==◌,
}
use rebecca_reseller_bot.Prelude.Text.{Text, lit, teq, is_empty}
use rebecca_reseller_bot.Prelude.Json.{Fields}
use rebecca_reseller_bot.Prelude.Time.{Instant}
use rebecca_reseller_bot.Prelude.Effects.{Action, ok, Result-cases}
use rebecca_reseller_bot.Database.Models.{Order, Payment}
use rebecca_reseller_bot.Payments.Plisio.{Signing, Operation, normalize_operation}
use rebecca_reseller_bot.Scheduler.State.{
  Run, Runner, audit, database, update_order, update_payment,
}
use rebecca_reseller_bot.Scheduler.Plisio.{
  is_valid, pay, complete, check_operation, lookup_failed, on_transaction, look_up_transaction,
  operation_of_answer, reconcile_payment,
}

module _ {W : Type 0} (runner : Runner W) (signing : Signing) (transaction : Text → Action W Fields)
    (now : Instant) (order : Order) (payment : Payment) where
  -- What stands behind an order that the reconciliation marks as paid, from the state before.
  pub record Confirmed (r : Run W) : Type 0 where
    pub txn : Text
    pub has_txn : payment.plisio_txn_id ≡ some txn
    pub answer : Fields
    pub is_answer : (transaction txn r.world).0 ≡ ok answer
    pub operation : Operation
    pub is_operation : normalize_operation signing answer ≡ ok operation
    pub is_valid_operation : is_valid order txn operation ≡ true
    pub is_completed : teq operation.status (lit "completed") ≡ true

  check_operation-orders :
      (txn : Text) (operation : Operation) (r : Run W)
      → let after =
          (check_operation runner signing transaction now order payment txn operation r).1 in
        ((database after).orders ≡ (database r).orders)
        ⊎ ((is_valid order txn operation ≡ true)
            × (teq operation.status (lit "completed") ≡ true)
            × ((database after).orders
                ≡ update_where (λ (o : Order). o.id == order.id) (pay now) (database r).orders))
  unfolding check_operation complete audit update_order update_payment
  check_operation-orders txn operation r = elim (Bool-cases (is_valid order txn operation)) [
    | inr e ↦ inl (rw (e, check_operation) refl)
    | inl e ↦ elim (Bool-cases (teq operation.status (lit "completed"))) [
      | inr f ↦ inl (rw (e, f, check_operation, complete) refl)
      | inl f ↦ inr (e, f, rw (e, f, check_operation, complete) refl)
    ]
  ]

  -- Whatever Plisio answers, the reconciliation of a payment leaves the orders alone, or Plisio gave a
  -- valid and completed operation for the stored transaction (same order number, transaction, currency
  -- and amount), and exactly the payment's order is marked as paid.
  pub reconcile_payment-Confirmed :
      (r : Run W)
      → let after = (reconcile_payment runner signing transaction now (order, payment) r).1 in
        ((database after).orders ≡ (database r).orders)
        ⊎ (Confirmed r
            × ((database after).orders
                ≡ update_where (λ (o : Order). o.id == order.id) (pay now) (database r).orders))
  unfolding reconcile_payment look_up_transaction operation_of_answer on_transaction lookup_failed
      audit
  reconcile_payment-Confirmed r = elim (Option-cases payment.plisio_txn_id) [
    | inl n ↦ inl (rw (n, reconcile_payment) refl)
    | inr (txn, n) ↦ elim (Bool-cases (is_empty txn)) [
      | inl b ↦ inl (rw (n, reconcile_payment) (rw b refl))
      | inr b ↦ elim (Result-cases (transaction txn r.world).0) [
        | inr (_, e) ↦ inl (rw (n, reconcile_payment) (rw b (rw e refl)))
        | inl (answer, e) ↦ elim (Result-cases (normalize_operation signing answer)) [
          | inr (_, f) ↦ inl (rw (n, reconcile_payment) (rw b (rw e (rw f refl))))
          | inl (operation, f) ↦
              let s : Run W = record r { world = (transaction txn r.world).1 } in
              elim (check_operation-orders txn operation s) [
                | inl g ↦ inl (rw (n, reconcile_payment) (rw b (rw e (rw f g))))
                | inr (valid, completed, g) ↦ inr (
                  record {
                    txn = txn;
                    has_txn = n;
                    answer = answer;
                    is_answer = e;
                    operation = operation;
                    is_operation = f;
                    is_valid_operation = valid;
                    is_completed = completed;
                  },
                  rw (n, reconcile_payment) (rw b (rw e (rw f g))),
                )
              ]
        ]
      ]
    ]
  ]
