-- ===== src/Orders/Changes.antt =====
-- What each handler of an order does to one row, by its state before.
use rebecca_reseller_bot.Prelude.{
  ℕ, ◌≡◌, refl, sym, true, false, inl, inr, is_some, arith, Bool-cases,
}
use rebecca_reseller_bot.Prelude.Time.{Instant}
use rebecca_reseller_bot.Database.Models.{Order, OrderStatus, same_order_status}
use rebecca_reseller_bot.Bot.Receipts.{
  is_claimable, is_retryable, set_paid, set_rejected, set_waiting_receipt, set_retried,
}
use rebecca_reseller_bot.Orders.Diagram.{one_move, send_receipt, approve, reject}
use rebecca_reseller_bot.Orders.Table.{IsMove, IsConsistent, Follows, Follows-refl}

pub is_pending :
    (s : OrderStatus) → same_order_status s OrderStatus.pending ≡ true → s ≡ OrderStatus.pending
is_pending OrderStatus.pending h = refl
is_pending _ h = absurd (ground (arith, h))

pub is_waiting_receipt :
    (s : OrderStatus)
    → same_order_status s OrderStatus.waiting_receipt ≡ true
    → s ≡ OrderStatus.waiting_receipt
is_waiting_receipt OrderStatus.waiting_receipt h = refl
is_waiting_receipt _ h = absurd (ground (arith, h))

is_failed :
    (s : OrderStatus) → same_order_status s OrderStatus.failed ≡ true → s ≡ OrderStatus.failed
is_failed OrderStatus.failed h = refl
is_failed _ h = absurd (ground (arith, h))

-- A receipt moves an order that waits for one.
pub set_waiting_receipt-IsMove :
    (o : Order) → o.status ≡ OrderStatus.pending → IsMove set_waiting_receipt o
unfolding IsMove Follows IsConsistent set_waiting_receipt
set_waiting_receipt-IsMove o h consistent =
    ((refl, refl, refl, rw h (one_move send_receipt)), rw h at consistent)

pub set_paid-IsMove :
    (now : Instant) (o : Order) → o.status ≡ OrderStatus.waiting_receipt → IsMove (set_paid now) o
unfolding IsMove Follows IsConsistent set_paid
set_paid-IsMove now o h consistent = ((refl, refl, refl, rw h (one_move approve)), refl)

pub set_rejected-IsMove :
    (o : Order) → o.status ≡ OrderStatus.waiting_receipt → IsMove set_rejected o
unfolding IsMove Follows IsConsistent set_rejected
set_rejected-IsMove o h consistent =
    ((refl, refl, refl, rw h (one_move reject)), rw h at consistent)

-- A failed order has no payment, so the retry of the console changes nothing of a consistent order.
pub set_retried_lem : (o : Order) → IsConsistent o → set_retried o ≡ o
unfolding IsConsistent set_retried is_retryable
set_retried_lem o consistent = elim (Bool-cases (same_order_status o.status OrderStatus.failed)) [
  | inr e ↦ rw e refl
  | inl e ↦
      let unpaid : is_some o.paid_at ≡ false = sym (rw (is_failed o.status e) at consistent) in
      rw (e, unpaid) refl
]

pub set_retried-IsMove : (o : Order) → IsMove set_retried o
unfolding IsMove
set_retried-IsMove o consistent = rw (set_retried_lem o consistent) (Follows-refl o, consistent)

pub set_retried-id : (o : Order) → (set_retried o).id ≡ o.id
unfolding set_retried
set_retried-id o = elim (Bool-cases (is_retryable o)) [ inl e ↦ rw e refl | inr e ↦ rw e refl ]

pub claimable_status :
    (id : ℕ) (s : OrderStatus) (o : Order)
    → is_claimable id s o ≡ true
    → same_order_status o.status s ≡ true
unfolding is_claimable
claimable_status id s o h = ground (arith, h)
