-- ===== src/Payments/Plisio/Client.antt =====
-- `PlisioClient` of app/payments/plisio.py: the two requests to Plisio's API. A GET request is a
-- parameter: the path and its parameters, to the parsed body of an answer that is no HTTP error.
use rebecca_reseller_bot.Prelude.{
  Bool, false, ◌||◌, not, List, [], ◌∷◌, ◌++◌, none, some, if◌then◌else◌,
}
use rebecca_reseller_bot.Prelude.Text.{Text, lit}
use rebecca_reseller_bot.Prelude.Json.{obj, Fields, get_field}
use rebecca_reseller_bot.Prelude.Effects.{Action, ErrorKind, pure, raise, ◌>>=◌}
use rebecca_reseller_bot.Payments.Plisio.{truthy}
use rebecca_reseller_bot.Payments.Webhook.{same_txn}

module _ {W : Type 0} (secret : Text) (get : Text → List (Text × Text) → Action W Fields) where
  -- `body["data"]`, of a body of success whose data is a dict.
  unfoldable pub data_of : Text → Fields → Action W Fields
  data_of m body =
      if not (same_txn (lit "success") (get_field (lit "status") body))
      then raise ErrorKind.runtime_error m
      else elim (get_field (lit "data") body) [
        | some (obj entries) ↦ pure entries
        | some _ ↦ raise ErrorKind.runtime_error m
        | none ↦ raise ErrorKind.runtime_error m
      ]

  unfoldable pub has : Text → Fields → Bool
  has key fields = elim (get_field key fields) [ none ↦ false | some v ↦ truthy v ]

  unfoldable pub with_identifiers : Fields → Action W Fields
  with_identifiers entries =
      if not (has (lit "txn_id") entries) || not (has (lit "invoice_url") entries)
      then raise ErrorKind.runtime_error (lit "Plisio response missing invoice identifiers")
      else pure entries

  -- `amount` is `format(source_amount, "f")`.
  unfoldable pub create_invoice : Text → Text → Text → Text → Text → Action W Fields
  create_invoice order_number source_currency amount callback_url description = do
    body ← get (lit "/invoices/new") (
        (lit "api_key", secret)
        ∷ (lit "order_number", order_number)
        ∷ (lit "source_currency", source_currency)
        ∷ (lit "source_amount", amount)
        ∷ (lit "callback_url", callback_url)
        ∷ (lit "email", [])
        ∷ (lit "order_name", description)
        ∷ (lit "json", lit "true")
        ∷ [])
    entries ← data_of (lit "Plisio invoice creation failed") body
    with_identifiers entries

  unfoldable pub transaction : Text → Action W Fields
  transaction txn_id = do
    body ← get (lit "/operations/" ++ txn_id) ((lit "api_key", secret) ∷ [])
    data_of (lit "Plisio transaction lookup failed") body
