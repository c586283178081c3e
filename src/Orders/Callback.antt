-- ===== src/Orders/Callback.antt =====
-- The callback of app/payments/webhook.py on the table of the orders.
use rebecca_reseller_bot.Prelude.{◌≡◌, refl, [], inl, inr}
use rebecca_reseller_bot.Prelude.Text.{Text, teq, lit}
use rebecca_reseller_bot.Prelude.Time.{Instant}
use rebecca_reseller_bot.Prelude.Json.{Fields}
use rebecca_reseller_bot.Database.Models.{Order, OrderStatus, Database}
use rebecca_reseller_bot.Payments.Plisio.{Signing, text_at}
use rebecca_reseller_bot.Payments.Webhook.{callback, mark_paid, find_order}
use rebecca_reseller_bot.Payments.Webhook.PaidOnce.{callback-Accepted}
use rebecca_reseller_bot.Bot.Receipts.{set_paid}
use rebecca_reseller_bot.Orders.Diagram.{one_move, complete}
use rebecca_reseller_bot.Orders.Table.{
  Moves, Moves-refl, IsMove, IsConsistent, Follows, update_found-Moves,
}

complete-IsMove :
    (now : Instant) (o : Order) → o.status ≡ OrderStatus.waiting_payment → IsMove (set_paid now) o
unfolding IsMove Follows IsConsistent set_paid
complete-IsMove now o h consistent = ((refl, refl, refl, rw h (one_move complete)), refl)

pub callback-Moves :
    (signing : Signing) (secret source_currency : Text) (payload : Fields) (now : Instant)
    (db : Database)
    → Moves db.orders (callback signing secret source_currency payload now db).1.orders
unfolding find_order mark_paid set_paid
callback-Moves signing secret source_currency payload now db =
    elim (callback-Accepted signing secret source_currency payload now db) [
      | inl same ↦ rw same (Moves-refl db.orders)
      | inr (o, accepted, e) ↦
          let number = text_at signing (lit "order_number") [] payload in
          rw e (
            update_found-Moves (λ x. teq x.order_number number) (set_paid now) db.orders o
              (λ _. refl) accepted.is_found (complete-IsMove now o accepted.is_waiting))
    ]
