-- ===== src/Bot/Checkout.antt =====
-- The orders that the customers place: `card_order` and `crypto_order` of app/bot/handlers/common.py.
use rebecca_reseller_bot.Prelude.{
  ℕ, ◌+◌, ◌*◌, ◌/◌, ◌%◌, ◌^◌, Bool, ◌&&◌, ◌||◌, not, Option, none, some, [], ◌∷◌, ◌++◌, any, ltb,
  is_some, ◌==◌, if◌then◌else◌,
}
use rebecca_reseller_bot.Prelude.Int.{pos, negsuc}
use rebecca_reseller_bot.Prelude.Text.{Text, lit, teq, is_empty}
use rebecca_reseller_bot.Prelude.Sorting.{opt_eq}
use rebecca_reseller_bot.Prelude.Time.{Instant, hour}
use rebecca_reseller_bot.Prelude.Json.{Json, Fields, get_field}
use rebecca_reseller_bot.Prelude.Effects.{
  Action, ErrorKind, Result, ok, raised, pure, raise, ◌>>=◌, ◌>>◌,
}
use rebecca_reseller_bot.Database.Models.{Order, OrderStatus, Payment, Product, Reseller, Database}
use rebecca_reseller_bot.Database.Settings.{stored}
use rebecca_reseller_bot.Payments.Plisio.{Signing, text_of, truthy, exact_amount}
use rebecca_reseller_bot.Payments.Plisio.Amount.{Decimal, finite, special}
use rebecca_reseller_bot.Scheduler.State.{Run, change, database, read, update_order}
use rebecca_reseller_bot.Bot.Transactions.{get_product, reseller_of_customer, in_transaction}

-- What the handlers answer.
pub data Placed : Type 0 where
  unknown_product not_offered no_rate invoice_failed : Placed
  card_placed invoice_placed : Order → Placed

-- What a new order is given from outside: the keys of the two rows by the database, and the number
-- that `secrets` and the date make.
pub record Draw : Type 0 where
  pub order_id : ℕ
  pub payment_id : ℕ
  pub number : Text

-- The configuration that `crypto_order` reads; an invoice is `PlisioClient.create_invoice` with the
-- number, the amount in hundredths and the product's name.
pub record Shop (W : Type 0) : Type 0 where
  pub signing : Signing
  pub plisio_enabled : Bool
  pub plisio_secret_key : Text
  pub public_base_url : Text
  pub plisio_source_currency : Text
  pub create_invoice : Text → ℕ → Text → Action W Fields

-- The primary key and the unique `order_number`.
unfoldable pub is_order_of : ℕ → Text → Order → Bool
is_order_of id number o = o.id == id || teq o.order_number number

unfoldable pub is_payment_of : ℕ → Option Text → Payment → Bool
is_payment_of order_id txn_id p =
    p.order_id == order_id || is_some txn_id && opt_eq teq p.plisio_txn_id txn_id

unfoldable pub integrity_error : {S A : Type 0} → Action S A
integrity_error = raise ErrorKind.other_error (lit "IntegrityError")

unfoldable pub with_order : Order → Database → Database
with_order order db = record db { orders = db.orders ++ (order ∷ []) }

unfoldable pub with_payment : Payment → Database → Database
with_payment payment db = record db { payments = db.payments ++ (payment ∷ []) }

unfoldable pub new_order :
    Draw → Reseller → Product → ℕ → Text → OrderStatus → Text → Instant → Order
new_order draw reseller product amount currency status method now = record {
  id = draw.order_id;
  order_number = draw.number;
  reseller_id = reseller.id;
  product_id = product.id;
  amount = amount;
  currency = currency;
  status = status;
  payment_method = method;
  created_at = now;
  expires_at = some (now + 24 * hour);
  paid_at = none;
  applied_at = none;
  before_snapshot = none;
  after_snapshot = none;
  apply_error = none;
}

unfoldable pub new_payment : Draw → Text → Text → Option Text → Option Text → Payment
new_payment draw method status txn_id url = record {
  id = draw.payment_id;
  order_id = draw.order_id;
  method = method;
  status = status;
  telegram_file_id = none;
  plisio_txn_id = txn_id;
  invoice_url = url;
}

-- The price of a card order in hundredths; `price_toman` has no fraction.
unfoldable pub card_order_of : Draw → Reseller → Product → Instant → Order
card_order_of draw reseller product now =
    new_order draw reseller product (product.price_toman * 100) (lit "IRT") OrderStatus.pending
      (lit "CARD") now

-- `n / d` rounded to a whole number, a half to the even one, as `quantize` does.
unfoldable pub div_half_even : ℕ → ℕ → ℕ
div_half_even n d =
    let q = n / d in
    let twice = 2 * (n % d) in if ltb twice d then q else if ltb d twice then q + 1 else q + q % 2

-- `Decimal(str(rate)) > 0`; a comparison with NaN raises, and the infinities divide to nothing.
unfoldable pub positive_rate : Decimal → Option (ℕ × ℕ)
positive_rate special = none
positive_rate (finite (negsuc _) u d) = none
positive_rate (finite (pos m) u d) = if m == 0 then none else some (m * 10 ^ u, 10 ^ d)

-- `(Decimal(price) / Decimal(str(rate))).quantize(Decimal("0.01"))` in hundredths, for a rate of
-- `m / d`; the quotient is exact where it has at most 28 digits.
unfoldable pub source_amount : ℕ → ℕ × ℕ → ℕ
source_amount price (m, d) = div_half_even (price * 100 * d) m

module _ {W : Type 0} where
  -- `session.add(order); await session.flush()`
  unfoldable pub add_order : Order → Action (Run W) (Unit {0})
  add_order order r =
      if any (is_order_of order.id order.order_number) (database r).orders
      then integrity_error r
      else change (with_order order) r

  -- `session.add(payment)`, with the unique `order_id` and `plisio_txn_id`.
  unfoldable pub add_payment : Payment → Action (Run W) (Unit {0})
  add_payment payment r =
      if any (is_payment_of payment.order_id payment.plisio_txn_id) (database r).payments
      then integrity_error r
      else change (with_payment payment) r

  unfoldable pub place_card :
      Draw → Instant → Option Product → Option Reseller → Action (Run W) Placed
  place_card draw now none found = pure unknown_product
  place_card draw now (some product) none = pure unknown_product
  place_card draw now (some product) (some reseller) =
      add_order (card_order_of draw reseller product now)
      >> (add_payment (new_payment draw (lit "CARD") (lit "AWAITING_RECEIPT") none none)
          >> pure (card_placed (card_order_of draw reseller product now)))

  unfoldable pub card_rows : Draw → ℕ → ℕ → Instant → Action (Run W) Placed
  card_rows draw customer product_id now r =
      place_card draw now (get_product product_id (database r))
        (reseller_of_customer customer (database r)) r

  unfoldable pub card_order : Draw → ℕ → ℕ → Instant → Action (Run W) Placed
  card_order draw customer product_id now = in_transaction (card_rows draw customer product_id now)

  module _ (shop : Shop W) where
    unfoldable pub crypto_order_of : Draw → Reseller → Product → ℕ → Instant → Order
    crypto_order_of draw reseller product amount now =
        new_order draw reseller product amount shop.plisio_source_currency
          OrderStatus.waiting_payment (lit "PLISIO") now

    unfoldable pub set_failed : Order → Order
    set_failed o = record o { status = OrderStatus.failed }

    -- The text of an identifier of the invoice, or the missing key.
    unfoldable pub identifier : Text → Fields → Action (Run W) Text
    identifier key fields = elim (get_field key fields) [
      | none ↦ raise ErrorKind.key_error key
      | some v ↦ pure (text_of shop.signing v)
    ]

    unfoldable pub keep_invoice : Draw → Order → Text → Text → Action (Run W) Placed
    keep_invoice draw order txn url =
        add_payment (new_payment draw (lit "PLISIO") (lit "new") (some txn) (some url))
        >> pure (invoice_placed order)

    unfoldable pub with_url : Draw → Order → Fields → Text → Action (Run W) Placed
    with_url draw order invoice txn =
        identifier (lit "invoice_url") invoice >>= keep_invoice draw order txn

    -- After the call of Plisio: its handler gives the order up, and else the payment is added.
    unfoldable pub on_invoice : Draw → Order → Result Fields → Action (Run W) Placed
    on_invoice draw order (raised e) =
        change (update_order order.id set_failed) >> pure invoice_failed
    on_invoice draw order (ok invoice) =
        identifier (lit "txn_id") invoice >>= with_url draw order invoice

    -- The call, with what it raises as a value.
    unfoldable pub invoice_of : Order → Product → Action (Run W) (Result Fields)
    invoice_of order product r =
        let (result, w) =
          shop.create_invoice order.order_number order.amount product.name r.world in
        (ok result, record r { world = w })

    unfoldable pub place_invoice : Draw → Order → Product → Action (Run W) Placed
    place_invoice draw order product =
        add_order order >> (invoice_of order product >>= on_invoice draw order)

    -- `not rate or Decimal(str(rate)) <= 0`
    unfoldable pub rate_of : Option Json → Result (Option (ℕ × ℕ))
    rate_of none = ok none
    rate_of (some v) =
        if not (truthy v) then ok none else elim (exact_amount (text_of shop.signing v)) [
          | raised e ↦ raised e
          | ok d ↦ ok (positive_rate d)
        ]

    unfoldable pub place_at_rate :
        Draw → Instant → Product → Reseller → Option (ℕ × ℕ) → Action (Run W) Placed
    place_at_rate draw now product reseller none = pure no_rate
    place_at_rate draw now product reseller (some rate) =
        place_invoice draw
          (crypto_order_of draw reseller product (source_amount product.price_toman rate) now)
          product

    unfoldable pub place_crypto :
        Draw → Instant → Option Product → Option Reseller → Action (Run W) Placed
    place_crypto draw now none found = pure unknown_product
    place_crypto draw now (some product) none = pure unknown_product
    place_crypto draw now (some product) (some reseller) =
        read (λ (db : Database). rate_of (stored (lit "plisio_toman_per_source") db.settings))
        >>= place_at_rate draw now product reseller

    unfoldable pub crypto_rows : Draw → ℕ → ℕ → Instant → Action (Run W) Placed
    crypto_rows draw customer product_id now r =
        place_crypto draw now (get_product product_id (database r))
          (reseller_of_customer customer (database r)) r

    -- `settings.plisio_enabled`, and the key and the address that are not empty.
    unfoldable pub is_offered : Bool
    is_offered =
        shop.plisio_enabled
        && not (is_empty shop.plisio_secret_key)
        && not (is_empty shop.public_base_url)

    unfoldable pub crypto_order : Draw → ℕ → ℕ → Instant → Action (Run W) Placed
    crypto_order draw customer product_id now =
        if not is_offered
        then pure not_offered
        else in_transaction (crypto_rows draw customer product_id now)
