-- ===== src/Payments/Service/Approval.antt =====
-- `approve_card` of app/payments/service.py.
use rebecca_reseller_bot.Prelude.{Bool, true, false, some, not, if◌then◌else◌}
use rebecca_reseller_bot.Prelude.Time.{Instant}
use rebecca_reseller_bot.Database.Models.{Order, OrderStatus, is_settled, same_order_status}

unfoldable pub approve_card : Instant → Order → Bool × Order
approve_card now order =
    if is_settled order.status
    then (false, order)
    else if not (same_order_status order.status OrderStatus.waiting_receipt)
    then (false, order)
    else (true, record order { status = OrderStatus.paid; paid_at = some now })
