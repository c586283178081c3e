-- ===== src/Orders/Rejections.antt =====
-- The handlers that reject an order or try it again, of app/bot/handlers/common.py and app/bot/handlers/owner/console.py, on the
-- table of the orders.
use rebecca_reseller_bot.Prelude.{ℕ, ◌≡◌, refl, Option, none, some, inl, inr, Bool-cases}
use rebecca_reseller_bot.Prelude.Effects.{pure, ◌>>=◌}
use rebecca_reseller_bot.Database.Models.{Order, OrderStatus, Reseller, same_order_status}
use rebecca_reseller_bot.Scheduler.State.{Run, change, database}
use rebecca_reseller_bot.Bot.Transactions.{notify, get_order, order_rejected, in_transaction}
use rebecca_reseller_bot.Bot.Receipts.{
  Desk, rejected, unauthorized, needed, claim, is_claimed, set_rejected, set_retried,
  reject_waiting, reject_rows, tell_rejection, announce_rejection, card_reject, rejection_of,
  rejection_rows, claim_rejection, order_reject, retry_of, retry_rows, announce_retry, order_retry,
}
use rebecca_reseller_bot.Orders.Changes.{
  is_waiting_receipt, set_rejected-IsMove, set_retried-IsMove, set_retried-id,
}
use rebecca_reseller_bot.Orders.Table.{Moves}
use rebecca_reseller_bot.Orders.Actions.{
  RunMoves, RunMoves-refl, RunMoves-trans, Moving, Silent, >>=-Silent, needed-Silent, >>-Silent,
  with_order_lem, update_order-RunMoves, transaction_then-Moves,
}
use rebecca_reseller_bot.Orders.Approvals.{claim-RunMoves, guarded-Moves}

module _ {W : Type 0} (desk : Desk W) where
  reject_waiting-RunMoves :
      (id : ℕ) (o : Order) (r : Run W)
      → get_order id (database r) ≡ some o
      → RunMoves r (reject_waiting desk o r).1
  unfolding reject_waiting set_rejected
  reject_waiting-RunMoves id o r h =
      elim (Bool-cases (same_order_status o.status OrderStatus.waiting_receipt)) [
        | inr e ↦ rw (e, reject_waiting) (RunMoves-refl r)
        | inl e ↦
            rw (e, reject_waiting)
              (update_order-RunMoves id set_rejected o r (λ _. refl) h
                (set_rejected-IsMove o (is_waiting_receipt o.status e)))
      ]

  tell_rejection-Silent :
      (o : Order) (reseller : Reseller) → Silent (tell_rejection desk o reseller)
  unfolding tell_rejection notify
  tell_rejection-Silent o reseller =
      >>-Silent (notify desk.bot reseller.telegram_id (order_rejected o.order_number))
        (pure rejected) (λ _. refl) (λ _. refl)

  announce_rejection-Silent :
      (found : Option (Order × Option Reseller)) → Silent (announce_rejection desk found)
  unfolding announce_rejection
  announce_rejection-Silent none r = refl
  announce_rejection-Silent (some (o, found)) r =
      >>=-Silent (needed found) (tell_rejection desk o) (needed-Silent found)
        (tell_rejection-Silent o) r

  pub card_reject-Moves :
      (caller order_id : ℕ) (r : Run W)
      → Moves r.session.committed.orders
          (card_reject desk caller order_id r).1.session.committed.orders
  unfolding card_reject reject_rows
  card_reject-Moves caller order_id r =
      guarded-Moves desk caller
        (in_transaction (reject_rows desk order_id) >>= announce_rejection desk) unauthorized r
        (transaction_then-Moves (reject_rows desk order_id) (announce_rejection desk) r
          (with_order_lem order_id (reject_waiting desk) (reject_waiting-RunMoves order_id))
          announce_rejection-Silent)

  claim_rejection-Moving : (order_id : ℕ) → Moving (claim_rejection desk order_id)
  unfolding claim_rejection rejection_rows rejection_of set_rejected
  claim_rejection-Moving order_id r =
      let s = (change (claim order_id OrderStatus.waiting_receipt set_rejected) r).1 in
      let changed = is_claimed order_id OrderStatus.waiting_receipt (database r) in
      RunMoves-trans r s (rejection_rows desk order_id changed s).1
        (claim-RunMoves desk order_id set_rejected r (λ _. refl) set_rejected-IsMove)
        (with_order_lem order_id (rejection_of desk changed) (λ _ t _. RunMoves-refl t) s)

  pub order_reject-Moves :
      (caller order_id : ℕ) (r : Run W)
      → Moves r.session.committed.orders
          (order_reject desk caller order_id r).1.session.committed.orders
  unfolding order_reject
  order_reject-Moves caller order_id r =
      guarded-Moves desk caller
        (in_transaction (claim_rejection desk order_id) >>= announce_rejection desk) unauthorized r
        (transaction_then-Moves (claim_rejection desk order_id) (announce_rejection desk) r
          (claim_rejection-Moving order_id) announce_rejection-Silent)

  pub order_retry-Moves :
      (caller order_id : ℕ) (r : Run W)
      → Moves r.session.committed.orders
          (order_retry desk caller order_id r).1.session.committed.orders
  unfolding order_retry retry_rows retry_of announce_retry
  order_retry-Moves caller order_id r =
      guarded-Moves desk caller (in_transaction (retry_rows desk order_id) >>= announce_retry desk)
        unauthorized r
        (transaction_then-Moves (retry_rows desk order_id) (announce_retry desk) r
          (with_order_lem order_id (retry_of desk) (λ o s h.
            update_order-RunMoves order_id set_retried o s set_retried-id h (set_retried-IsMove o)))
          (λ _ _. refl))
