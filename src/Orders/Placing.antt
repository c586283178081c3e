-- ===== src/Orders/Placing.antt =====
-- The orders that the customers place, `card_order` and `crypto_order` of app/bot/handlers/common.py,
-- on the table of the orders.
use rebecca_reseller_bot.Prelude.{
  ℕ, ◌≡◌, refl, true, false, Option, none, some, List, [], ◌∷◌, ◌++◌, any, first, inl, inr, ◌==◌,
  arith, Bool-cases, Option-cases,
}
use rebecca_reseller_bot.Prelude.Text.{Text, lit}
use rebecca_reseller_bot.Prelude.Time.{Instant}
use rebecca_reseller_bot.Prelude.Json.{Fields, get_field}
use rebecca_reseller_bot.Prelude.Effects.{Result, ok, raised, pure, ◌>>=◌, ◌>>◌}
use rebecca_reseller_bot.Database.Models.{Order, OrderStatus, Payment, Product, Reseller, Database}
use rebecca_reseller_bot.Database.Settings.{stored}
use rebecca_reseller_bot.Scheduler.State.{Run, database, read}
use rebecca_reseller_bot.Bot.Transactions.{get_order, get_product, reseller_of_customer}
use rebecca_reseller_bot.Bot.Checkout.{
  Draw, Shop, card_placed, invoice_placed, is_order_of, is_payment_of, integrity_error, with_order,
  with_payment, new_order, new_payment, card_order_of, crypto_order_of, add_order, add_payment,
  keep_invoice, with_url, place_card, card_rows, card_order, set_failed, identifier, on_invoice,
  invoice_of, place_invoice, rate_of, place_at_rate, place_crypto, crypto_rows, is_offered,
  crypto_order, source_amount,
}
use rebecca_reseller_bot.Orders.Diagram.{here, one_move, give_up}
use rebecca_reseller_bot.Orders.Table.{
  Moves, Moves-refl, IsMove, IsConsistent, Follows, Arises, card_waits, invoice_waits, is_fresh,
  append-Moves,
}
use rebecca_reseller_bot.Orders.Actions.{
  RunMoves, RunMoves-refl, bind-RunMoves, Moving, >>=-RunMoves, >>=-Moving, update_order-RunMoves,
  in_transaction-Moves,
}

-- The unique columns leave a fresh key.
free_key :
    (id : ℕ) (number : Text) (os : List Order)
    → any (is_order_of id number) os ≡ false
    → is_fresh id os ≡ true
unfolding is_order_of
free_key id number [] h = refl
free_key id number (o ∷ os) h = ground (arith, h, free_key id number os)

-- The row that was just added is the one of its key.
found_last :
    (o : Order) (os : List Order)
    → is_fresh o.id os ≡ true
    → first (λ x. x.id == o.id) (os ++ (o ∷ [])) ≡ some o
found_last o [] h = ground arith
found_last o (x ∷ os) h = ground (arith, h, found_last o os)

set_failed-IsMove :
    {W : Type 0} (shop : Shop W) (o : Order)
    → o.status ≡ OrderStatus.waiting_payment
    → IsMove (set_failed shop) o
unfolding IsMove Follows IsConsistent set_failed
set_failed-IsMove shop o h consistent =
    ((refl, refl, refl, rw h (one_move give_up)), rw h at consistent)

card-Arises : Arises OrderStatus.pending
unfolding Arises
card-Arises = (OrderStatus.pending, card_waits, here)

invoice-Arises : Arises OrderStatus.waiting_payment
unfolding Arises
invoice-Arises = (OrderStatus.waiting_payment, invoice_waits, here)

module _ {W : Type 0} where
  add_order-RunMoves :
      (o : Order) (r : Run W) → Arises o.status → IsConsistent o → RunMoves r (add_order o r).1
  unfolding add_order integrity_error with_order RunMoves
  add_order-RunMoves o r arises consistent =
      let os = (database r).orders in
      elim (Bool-cases (any (is_order_of o.id o.order_number) os)) [
        | inl e ↦ rw (e, add_order) (RunMoves-refl r)
        | inr e ↦
            rw (e, add_order)
              (refl, append-Moves os o (free_key o.id o.order_number os e) arises consistent)
      ]

  -- The order is found by its key after it is added.
  add_order_found :
      {a : Unit {0}} (o : Order) (r : Run W)
      → (add_order o r).0 ≡ ok a
      → get_order o.id (database (add_order o r).1) ≡ some o
  unfolding add_order integrity_error with_order get_order
  add_order_found o r h =
      let os = (database r).orders in
      elim (Bool-cases (any (is_order_of o.id o.order_number) os)) [
        | inl e ↦ absurd (cc (rw (e, add_order) at h))
        | inr e ↦ rw (e, add_order) (found_last o os (free_key o.id o.order_number os e))
      ]

  add_payment-Moving : (p : Payment) (r : Run W) → RunMoves r (add_payment p r).1
  unfolding add_payment integrity_error with_payment RunMoves
  add_payment-Moving p r =
      elim (Bool-cases (any (is_payment_of p.order_id p.plisio_txn_id) (database r).payments)) [
        | inl e ↦ rw (e, add_payment) (RunMoves-refl r)
        | inr e ↦ rw (e, add_payment) (RunMoves-refl r)
      ]

  place_card-Moving :
      (draw : Draw) (now : Instant) (product : Option Product) (reseller : Option Reseller)
      → Moving {W = W} (place_card draw now product reseller)
  unfolding place_card card_order_of new_order IsConsistent
  place_card-Moving draw now none reseller r = RunMoves-refl r
  place_card-Moving draw now (some product) none r = RunMoves-refl r
  place_card-Moving draw now (some product) (some reseller) r =
      let order = card_order_of draw reseller product now in
      let payment = new_payment draw (lit "CARD") (lit "AWAITING_RECEIPT") none none in
      let last = pure (card_placed order) in
      >>=-Moving (add_order order) (λ _. add_payment payment >> last)
        (λ s. add_order-RunMoves order s card-Arises refl)
        (λ _.
          >>=-Moving (add_payment payment) (λ _. last) (add_payment-Moving payment)
            (λ _ s. RunMoves-refl s))
        r

  pub card_order-Moves :
      (draw : Draw) (customer product_id : ℕ) (now : Instant) (r : Run W)
      → Moves r.session.committed.orders
          (card_order draw customer product_id now r).1.session.committed.orders
  unfolding card_order card_rows
  card_order-Moves draw customer product_id now r =
      in_transaction-Moves (card_rows draw customer product_id now) r (λ s.
        place_card-Moving draw now (get_product product_id (database s))
          (reseller_of_customer customer (database s)) s)

  module _ (shop : Shop W) where
    identifier-Moving :
        (key : Text) (entries : Fields) (r : Run W) → RunMoves r (identifier shop key entries r).1
    unfolding identifier
    identifier-Moving key entries r = elim (Option-cases (get_field key entries)) [
      | inl e ↦ rw (e, identifier) (RunMoves-refl r)
      | inr (_, e) ↦ rw (e, identifier) (RunMoves-refl r)
    ]

    keep_invoice-Moving :
        (draw : Draw) (o : Order) (txn url : Text) (r : Run W)
        → RunMoves r (keep_invoice shop draw o txn url r).1
    unfolding keep_invoice
    keep_invoice-Moving draw o txn url =
        let payment = new_payment draw (lit "PLISIO") (lit "new") (some txn) (some url) in
        >>=-Moving (add_payment payment) (λ _. pure (invoice_placed o)) (add_payment-Moving payment)
          (λ _ r. RunMoves-refl r)

    -- The order of this call is the one that is given up.
    on_invoice-RunMoves :
        (draw : Draw) (o : Order) (answer : Result Fields) (r : Run W)
        → o.status ≡ OrderStatus.waiting_payment
        → get_order o.id (database r) ≡ some o
        → RunMoves r (on_invoice shop draw o answer r).1
    unfolding on_invoice set_failed with_url
    on_invoice-RunMoves draw o (raised e) r h found =
        update_order-RunMoves o.id (set_failed shop) o r (λ _. refl) found
          (set_failed-IsMove shop o h)
    on_invoice-RunMoves draw o (ok entries) r h found =
        >>=-Moving (identifier shop (lit "txn_id") entries) (with_url shop draw o entries)
          (identifier-Moving (lit "txn_id") entries)
          (λ txn.
            >>=-Moving (identifier shop (lit "invoice_url") entries) (keep_invoice shop draw o txn)
              (identifier-Moving (lit "invoice_url") entries) (keep_invoice-Moving draw o txn))
          r

    place_invoice-Moving :
        (draw : Draw) (o : Order) (product : Product)
        → o.status ≡ OrderStatus.waiting_payment
        → IsConsistent o
        → Moving (place_invoice shop draw o product)
    unfolding place_invoice invoice_of RunMoves
    place_invoice-Moving draw o product h consistent r =
        bind-RunMoves (add_order o) (λ _. invoice_of shop o product >>= on_invoice shop draw o) r
          (add_order-RunMoves o r (rw h invoice-Arises) consistent)
          (λ _ e.
            let s = (add_order o r).1 in
            let t = (invoice_of shop o product s).1 in
            >>=-RunMoves (invoice_of shop o product) (on_invoice shop draw o) s (RunMoves-refl s)
              (λ answer. on_invoice-RunMoves draw o answer t h (add_order_found o r e)))

    place_at_rate-Moving :
        (draw : Draw) (now : Instant) (product : Product) (reseller : Reseller)
        (rate : Option (ℕ × ℕ))
        → Moving (place_at_rate shop draw now product reseller rate)
    unfolding place_at_rate crypto_order_of new_order IsConsistent
    place_at_rate-Moving draw now product reseller none r = RunMoves-refl r
    place_at_rate-Moving draw now product reseller (some rate) r =
        let order =
          crypto_order_of shop draw reseller product (source_amount product.price_toman rate) now in
        place_invoice-Moving draw order product refl refl r

    place_crypto-Moving :
        (draw : Draw) (now : Instant) (product : Option Product) (reseller : Option Reseller)
        → Moving (place_crypto shop draw now product reseller)
    unfolding place_crypto
    place_crypto-Moving draw now none reseller r = RunMoves-refl r
    place_crypto-Moving draw now (some product) none r = RunMoves-refl r
    place_crypto-Moving draw now (some product) (some reseller) r =
        >>=-Moving
          (read
            (λ (db : Database). rate_of shop (stored (lit "plisio_toman_per_source") db.settings)))
          (place_at_rate shop draw now product reseller) (λ s. RunMoves-refl s)
          (place_at_rate-Moving draw now product reseller) r

    pub crypto_order-Moves :
        (draw : Draw) (customer product_id : ℕ) (now : Instant) (r : Run W)
        → Moves r.session.committed.orders
            (crypto_order shop draw customer product_id now r).1.session.committed.orders
    unfolding crypto_order crypto_rows
    crypto_order-Moves draw customer product_id now r = elim (Bool-cases (is_offered shop)) [
      | inr e ↦ rw (e, crypto_order) (Moves-refl r.session.committed.orders)
      | inl e ↦
          rw (e, crypto_order)
            (in_transaction-Moves (crypto_rows shop draw customer product_id now) r (λ s.
              place_crypto-Moving draw now (get_product product_id (database s))
                (reseller_of_customer customer (database s)) s))
    ]
