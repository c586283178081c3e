-- ===== src/Payments/Webhook/PaidOnce.antt =====
-- When the callback marks an order as paid.
use rebecca_reseller_bot.Prelude.{
  ◌≡◌, refl, ◌⊎◌, inl, inr, true, false, Option, none, some, [], arith, Bool-cases, Option-cases,
}
use rebecca_reseller_bot.Prelude.Text.{Text, lit, teq, upper, is_empty}
use rebecca_reseller_bot.Prelude.Time.{Instant}
use rebecca_reseller_bot.Prelude.Json.{Fields, get_field}
use rebecca_reseller_bot.Prelude.Effects.{ok, Result-cases}
use rebecca_reseller_bot.Database.Models.{
  Order, OrderStatus, Payment, Database, is_settled, same_order_status,
}
use rebecca_reseller_bot.Payments.Plisio.{Signing, verify, text_at, exact_amount}
use rebecca_reseller_bot.Payments.Plisio.Amount.{Decimal, decimal_eq, hundredths}
use rebecca_reseller_bot.Payments.Webhook.{
  paid, same_txn, mark_paid, settle, match_payment, find_order, find_payment, callback,
}

waiting :
    (status : OrderStatus)
    → same_order_status status OrderStatus.waiting_payment ≡ true
    → status ≡ OrderStatus.waiting_payment
waiting OrderStatus.pending h = ground arith
waiting _ h = ground arith

module _ (signing : Signing) (secret source_currency : Text) (payload : Fields) (now : Instant)
    (db : Database) where
  -- What stands behind a payment that the callback accepts.
  pub record Accepted (order : Order) : Type 0 where
    pub is_signed : verify signing payload secret ≡ ok true
    pub is_found :
        find_order signing secret source_currency
          (text_at signing (lit "order_number") [] payload)
          db
        ≡ some order
    pub is_waiting : order.status ≡ OrderStatus.waiting_payment
    pub payment : Payment
    pub has_payment : find_payment signing secret source_currency order.id db ≡ some payment
    pub txn : Text
    pub has_txn : payment.plisio_txn_id ≡ some txn
    pub is_txn : same_txn txn (get_field (lit "txn_id") payload) ≡ true
    pub is_currency :
        teq (upper (text_at signing (lit "source_currency") [] payload)) (upper source_currency)
        ≡ true
    pub amount : Decimal
    pub has_amount :
        exact_amount (text_at signing (lit "source_amount") (lit "-1") payload) ≡ ok amount
    pub is_amount : decimal_eq amount (hundredths order.amount) ≡ true
    pub is_completed : same_txn (lit "completed") (get_field (lit "status") payload) ≡ true

  settle-Accepted :
      (order : Order) (amount : Decimal)
      → ((settle signing secret source_currency payload now order amount db).1 ≡ db)
        ⊎ ((order.status ≡ OrderStatus.waiting_payment)
            × (decimal_eq amount (hundredths order.amount) ≡ true)
            × (same_txn (lit "completed") (get_field (lit "status") payload) ≡ true)
            × (settle signing secret source_currency payload now order amount db
                ≡ (paid, mark_paid order.id now db)))
  unfolding settle
  settle-Accepted order amount = elim (Bool-cases (decimal_eq amount (hundredths order.amount))) [
    | inr a ↦ inl (rw (a, settle) refl)
    | inl a ↦ elim (Bool-cases (same_txn (lit "completed") (get_field (lit "status") payload))) [
      | inr b ↦ inl (rw (a, b, settle) refl)
      | inl b ↦ elim (Bool-cases (is_settled order.status)) [
        | inl c ↦ inl (rw (a, b, c, settle) refl)
        | inr c ↦ elim (Bool-cases (same_order_status order.status OrderStatus.waiting_payment)) [
          | inr d ↦ inl (rw (a, b, c, d, settle) refl)
          | inl d ↦ inr (waiting order.status d, a, b, rw (a, b, c, d, settle) refl)
        ]
      ]
    ]
  ]

  match_payment-Accepted :
      (order : Order) (found : Option Payment)
      → verify signing payload secret ≡ ok true
      → find_order signing secret source_currency
          (text_at signing (lit "order_number") [] payload)
          db
        ≡ some order
      → find_payment signing secret source_currency order.id db ≡ found
      → ((match_payment signing secret source_currency payload now order found db).1 ≡ db)
        ⊎ (Accepted order
            × (match_payment signing secret source_currency payload now order found db
                ≡ (paid, mark_paid order.id now db)))
  unfolding match_payment
  match_payment-Accepted order none v f h = inl refl
  match_payment-Accepted order (some payment) v f h = elim (Option-cases payment.plisio_txn_id) [
    | inl n ↦ inl (rw (n, match_payment) refl)
    | inr (txn, n) ↦
        let currency =
          teq (upper (text_at signing (lit "source_currency") [] payload))
            (upper source_currency) in
        let read = exact_amount (text_at signing (lit "source_amount") (lit "-1") payload) in
        elim (Bool-cases (is_empty txn)) [
          | inl a ↦ inl (rw (n, match_payment) (rw a refl))
          | inr a ↦ elim (Bool-cases (same_txn txn (get_field (lit "txn_id") payload))) [
            | inr b ↦ inl (rw (n, match_payment) (rw (a, b) refl))
            | inl b ↦ elim (Bool-cases currency) [
              | inr c ↦ inl (rw (n, match_payment) (rw (a, b, c) refl))
              | inl c ↦ elim (Result-cases read) [
                | inr (_, d) ↦ inl (rw (n, match_payment) (rw (a, b, c, d) refl))
                | inl (amount, d) ↦ elim (settle-Accepted order amount) [
                  | inl e ↦ inl (rw (n, match_payment) (rw (a, b, c, d) e))
                  | inr (waits, is_amount, completed, e) ↦ inr (
                    record {
                      is_signed = v;
                      is_found = f;
                      is_waiting = waits;
                      payment = payment;
                      has_payment = h;
                      txn = txn;
                      has_txn = n;
                      is_txn = b;
                      is_currency = c;
                      amount = amount;
                      has_amount = d;
                      is_amount = is_amount;
                      is_completed = completed;
                    },
                    rw (n, match_payment) (rw (a, b, c, d) e),
                  )
                ]
              ]
            ]
          ]
        ]
  ]

  -- The callback leaves the database alone, or it answers that the order is paid, the signature, the
  -- transaction, the currency, the amount and the status of the payload and of the waiting order fit, and
  -- exactly that order and its payment are marked.
  pub callback-Accepted :
      ((callback signing secret source_currency payload now db).1 ≡ db)
      ⊎ ((order : Order) × Accepted order
          × (callback signing secret source_currency payload now db
              ≡ (paid, mark_paid order.id now db)))
  unfolding callback
  callback-Accepted = elim (Result-cases (verify signing payload secret)) [
    | inr (_, v) ↦ inl (rw (v, callback) refl)
    | inl (false, v) ↦ inl (rw (v, callback) refl)
    | inl (true, v) ↦
        let number = text_at signing (lit "order_number") [] payload in
        elim (Option-cases (find_order signing secret source_currency number db)) [
          | inl f ↦ inl (rw (v, callback) (rw f refl))
          | inr (order, f) ↦
              let found = find_payment signing secret source_currency order.id db in
              elim (match_payment-Accepted order found v f refl) [
                | inl e ↦ inl (rw (v, callback) (rw f e))
                | inr (accepted, e) ↦ inr (order, accepted, rw (v, callback) (rw f e))
              ]
        ]
  ]
