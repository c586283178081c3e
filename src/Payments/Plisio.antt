-- ===== src/Payments/Plisio.antt =====
-- app/payments/plisio.py: the signature of callbacks, amounts, and the answers of Plisio's API. The
-- HMAC and the JSON printer of the standard library are parameters, and so is the HTTP client.
pub mod Amount
pub mod Client
use rebecca_reseller_bot.Prelude.{
  Bool, true, false, ◌&&◌, ◌||◌, not, List, [], Option, none, some, any, leb, if◌then◌else◌,
}
use rebecca_reseller_bot.Prelude.Text.{Text, lit, teq, upper, is_empty}
use rebecca_reseller_bot.Prelude.Sorting.{show_ℤ}
use rebecca_reseller_bot.Prelude.Int.{ℤ, pos, eqb_ℤ}
use rebecca_reseller_bot.Prelude.Json.{
  Json, null, bool, int, float, str, arr, obj, Items, nil, cons, Fields, end, field, get_field,
}
use rebecca_reseller_bot.Prelude.Effects.{Result, ok, raised, ErrorKind, Action, pure, raise, ◌>>=◌}
use Amount.{Decimal, parse_decimal}

-- The payload without its signature, in insertion order.
unfoldable pub unsigned : Fields → Fields
unsigned end = end
unsigned (field k v fs) = if teq k (lit "verify_hash") then unsigned fs else field k v (unsigned fs)

-- `json.dumps` with the separators of the code, and HMAC-SHA1 in hexadecimal of a message under a key.
pub record Signing : Type 0 where
  pub dumps : Fields → Text
  pub hmac_sha1 : Text → Text → Text
  -- `str` of a list or a dict
  pub str_container : Json → Text

-- The truth value of a JSON value.
unfoldable pub truthy : Json → Bool
truthy null = false
truthy (bool b) = b
truthy (int n) = not (eqb_ℤ n (pos 0))
truthy (float n t) = not (eqb_ℤ n (pos 0) && (teq t (lit "0.0") || teq t (lit "-0.0")))
truthy (str t) = not (is_empty t)
truthy (arr nil) = false
truthy (arr (cons _ _)) = true
truthy (obj end) = false
truthy (obj (field _ _ _)) = true

-- The dict that `normalize_operation` returns.
pub record Operation : Type 0 where
  pub id : Text
  pub status : Text
  pub order_number : Text
  pub source_amount : Decimal
  pub source_currency : Text

unfoldable pub invalid_operation : {A : Type 0} → Result A
invalid_operation =
    raised
      (record { kind = ErrorKind.value_error; message = lit "invalid Plisio operation response" })

-- `Decimal(str(value))`, of the text
unfoldable pub exact_amount : Text → Result Decimal
exact_amount t = elim (parse_decimal t) [
  | none ↦ raised (record { kind = ErrorKind.other_error; message = lit "InvalidOperation" })
  | some d ↦ ok d
]

module _ (signing : Signing) where
  unfoldable pub callback_message : Fields → Text
  callback_message payload = signing.dumps (unsigned payload)

  unfoldable pub signature : Fields → Text → Text
  signature payload secret = signing.hmac_sha1 secret (callback_message payload)

  -- `hmac.compare_digest` raises where a text has a character outside ASCII.
  unfoldable pub compare_digest : Text → Text → Result Bool
  compare_digest supplied expected =
      if any (λ c. leb 128 c) supplied
      then raised (record {
        kind = ErrorKind.type_error;
        message = lit "comparing strings with non-ASCII characters is not supported";
      })
      else ok (teq supplied expected)

  unfoldable pub verify : Fields → Text → Result Bool
  verify payload secret = elim (get_field (lit "verify_hash") payload) [
    | some (str supplied) ↦
        if not (is_empty supplied) && not (is_empty secret)
        then compare_digest supplied (signature payload secret)
        else ok false
    | some _ ↦ ok false
    | none ↦ ok false
  ]

  -- `str(value)`
  unfoldable pub text_of : Json → Text
  text_of null = lit "None"
  text_of (bool true) = lit "True"
  text_of (bool false) = lit "False"
  text_of (int n) = show_ℤ n
  text_of (float _ t) = t
  text_of (str t) = t
  text_of (arr v) = signing.str_container (arr v)
  text_of (obj v) = signing.str_container (obj v)

  -- `str(d.get(key, default))`
  unfoldable pub text_at : Text → Text → Fields → Text
  text_at key default fields = elim (get_field key fields) [ none ↦ default | some v ↦ text_of v ]

  unfoldable pub operation_of : Json → Fields → Fields → Result Operation
  operation_of id payload params =
      elim (exact_amount (text_at (lit "source_amount") (lit "-1") params)) [
        | raised e ↦ raised e
        | ok amount ↦ ok (record {
          id = text_of id;
          status = text_at (lit "status") [] payload;
          order_number = text_at (lit "order_number") [] params;
          source_amount = amount;
          source_currency = upper (text_at (lit "source_currency") [] params);
        })
      ]

  unfoldable pub normalize_operation : Fields → Result Operation
  normalize_operation payload = elim (get_field (lit "id") payload) [
    | none ↦ invalid_operation
    | some id ↦
        if not (truthy id) then invalid_operation else elim (get_field (lit "params") payload) [
          | some (obj params) ↦ operation_of id payload params
          | some _ ↦ invalid_operation
          | none ↦ invalid_operation
        ]
  ]
