-- ===== src/Orders/Calls.antt =====
-- Sequences of calls of the handlers that write orders, in any order: app/bot/handlers/common.py,
-- app/bot/handlers/owner/console.py and app/payments/webhook.py.
use rebecca_reseller_bot.Prelude.{ℕ, List, [], ◌∷◌}
use rebecca_reseller_bot.Prelude.Text.{Text}
use rebecca_reseller_bot.Prelude.Time.{Instant}
use rebecca_reseller_bot.Prelude.Json.{Fields}
use rebecca_reseller_bot.Payments.Webhook.{callback}
use rebecca_reseller_bot.Scheduler.State.{Run}
use rebecca_reseller_bot.Bot.Receipts.{
  Desk, receipt, card_approve, card_reject, order_approve, order_reject, order_retry,
}
use rebecca_reseller_bot.Bot.Checkout.{Draw, Shop, card_order, crypto_order}
use rebecca_reseller_bot.Orders.Table.{Moves, Moves-refl, Moves-trans, Evolves, IsSound}
use rebecca_reseller_bot.Orders.Approvals.{receipt-Moves, card_approve-Moves, order_approve-Moves}
use rebecca_reseller_bot.Orders.Rejections.{
  card_reject-Moves, order_reject-Moves, order_retry-Moves,
}
use rebecca_reseller_bot.Orders.Placing.{card_order-Moves, crypto_order-Moves}
use rebecca_reseller_bot.Orders.Callback.{callback-Moves}

-- A call with what comes from outside: who calls, the numbers in the callback data, and the clock.
pub data Call : Type 0 where
  buy_by_card buy_by_crypto : Draw → ℕ → ℕ → Instant → Call
  send_file : ℕ → Text → Call
  approve_card approve_order : ℕ → ℕ → Instant → Call
  reject_card reject_order retry_order : ℕ → ℕ → Call
  plisio_callback : Fields → Instant → Call

module _ {W : Type 0} (desk : Desk W) (shop : Shop W) where
  -- The callback is one transaction of its own.
  unfoldable pub answer_callback : Fields → Instant → Run W → Run W
  answer_callback payload now r =
      let db =
        (callback shop.signing shop.plisio_secret_key shop.plisio_source_currency payload now
          r.session.committed).1 in
      record r { session = record { written = db; committed = db } }

  unfoldable pub handle : Call → Run W → Run W
  handle (buy_by_card draw customer product_id now) r =
      (card_order draw customer product_id now r).1
  handle (buy_by_crypto draw customer product_id now) r =
      (crypto_order shop draw customer product_id now r).1
  handle (send_file order_id file_id) r = (receipt desk order_id file_id r).1
  handle (approve_card caller order_id now) r = (card_approve desk caller order_id now r).1
  handle (approve_order caller order_id now) r = (order_approve desk caller order_id now r).1
  handle (reject_card caller order_id) r = (card_reject desk caller order_id r).1
  handle (reject_order caller order_id) r = (order_reject desk caller order_id r).1
  handle (retry_order caller order_id) r = (order_retry desk caller order_id r).1
  handle (plisio_callback payload now) r = answer_callback payload now r

  unfoldable pub handle_all : List Call → Run W → Run W
  handle_all [] r = r
  handle_all (c ∷ calls) r = handle_all calls (handle c r)

  handle-Moves :
      (c : Call) (r : Run W)
      → Moves r.session.committed.orders (handle c r).session.committed.orders
  unfolding handle answer_callback
  handle-Moves (buy_by_card draw customer product_id now) r =
      card_order-Moves draw customer product_id now r
  handle-Moves (buy_by_crypto draw customer product_id now) r =
      crypto_order-Moves shop draw customer product_id now r
  handle-Moves (send_file order_id file_id) r = receipt-Moves desk order_id file_id r
  handle-Moves (approve_card caller order_id now) r = card_approve-Moves desk caller order_id now r
  handle-Moves (approve_order caller order_id now) r =
      order_approve-Moves desk caller order_id now r
  handle-Moves (reject_card caller order_id) r = card_reject-Moves desk caller order_id r
  handle-Moves (reject_order caller order_id) r = order_reject-Moves desk caller order_id r
  handle-Moves (retry_order caller order_id) r = order_retry-Moves desk caller order_id r
  handle-Moves (plisio_callback payload now) r =
      callback-Moves shop.signing shop.plisio_secret_key shop.plisio_source_currency payload now
        r.session.committed

  handle_all-Moves :
      (calls : List Call) (r : Run W)
      → Moves r.session.committed.orders (handle_all calls r).session.committed.orders
  unfolding handle_all
  handle_all-Moves [] r = Moves-refl r.session.committed.orders
  handle_all-Moves (c ∷ calls) r =
      let s = handle c r in
      Moves-trans r.session.committed.orders s.session.committed.orders
        (handle_all calls s).session.committed.orders (handle-Moves c r) (handle_all-Moves calls s)

  -- Whatever calls of the handlers follow each other, every committed order keeps its key, its number and
  -- its amount and its state moves along the diagram, new orders come after the others in a state that
  -- the diagram reaches from a new one, and the table stays sound: its keys are distinct, and an order
  -- has the time of its payment exactly where it is paid. The table is sound before.
  pub handle_all-Evolves :
      (calls : List Call) (r : Run W)
      → IsSound r.session.committed.orders
      → Evolves r.session.committed.orders (handle_all calls r).session.committed.orders
        × IsSound (handle_all calls r).session.committed.orders
  unfolding Moves
  handle_all-Evolves = handle_all-Moves
