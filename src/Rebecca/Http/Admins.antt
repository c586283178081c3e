-- ===== src/Rebecca/Http/Admins.antt =====
-- The requests on administrators and services of `HTTPRebeccaClient`, app/rebecca/client.py, with
-- `Admin.from_rebecca` of app/rebecca/models.py.
use rebecca_reseller_bot.Prelude.{Bool, false, Option, none, some, List, [], ◌∷◌, if◌then◌else◌}
use rebecca_reseller_bot.Prelude.Int.{pos}
use rebecca_reseller_bot.Prelude.Text.{Text, lit, teq}
use rebecca_reseller_bot.Prelude.Json.{
  Json, null, bool, int, str, arr, obj, Items, nil, cons, Fields, end, field, get_field,
}
use rebecca_reseller_bot.Prelude.Effects.{Action, Result, ErrorKind, ok, raised}
use rebecca_reseller_bot.Rebecca.Models.{ServiceId, number, name, serialize_expire}
use rebecca_reseller_bot.Rebecca.Interface.{AdminPayload, Credentials, Entitlement}
use rebecca_reseller_bot.Database.Settings.Parse.{int_of}
use rebecca_reseller_bot.Rebecca.Http.{is_unlimited, truthy_or}

-- `data.get("users_usage") or data.get("used_traffic") or 0`
unfoldable pub admin_usage_value : Fields → Json
admin_usage_value payload =
    truthy_or (get_field (lit "users_usage") payload)
      (truthy_or (get_field (lit "used_traffic") payload) (int (pos 0)))

-- The data of `Admin.from_rebecca`; a key in front hides one behind it.
unfoldable pub admin_data : Fields → Result Fields
admin_data payload = elim (int_of (admin_usage_value payload)) [
  | raised e ↦ raised e
  | ok used ↦ ok (
      field (lit "data_limit_unlimited")
        (bool (is_unlimited (get_field (lit "data_limit") payload)))
        (field (lit "used_traffic") (int used) payload))
]

unfoldable pub json_service : ServiceId → Json
json_service (number n) = int n
json_service (name t) = str t

unfoldable pub json_services : List ServiceId → Items
json_services [] = nil
json_services (s ∷ rest) = cons (json_service s) (json_services rest)

unfoldable pub json_flags : List (Text × Bool) → Fields
json_flags [] = end
json_flags ((key, value) ∷ rest) = field key (bool value) (json_flags rest)

unfoldable pub json_permissions : List (Text × List (Text × Bool)) → Fields
json_permissions [] = end
json_permissions ((key, flags) ∷ rest) = field key (obj (json_flags flags)) (json_permissions rest)

unfoldable pub opt_json {ℓ} : {A : Type ℓ} → (A → Json) → Option A → Json
opt_json f none = null
opt_json f (some a) = f a

unfoldable pub entitlement_fields : Entitlement → Fields
entitlement_fields e = field (lit "data_limit") (int e.data_limit) (
    field (lit "expire") (opt_json (λ n. int (pos n)) (serialize_expire (some e.expire))) (
      field (lit "services") (arr (json_services e.services))
        (field (lit "users_limit") (opt_json int e.users_limit) end)))

unfoldable pub credential_fields : Option Credentials → Fields → Fields
credential_fields none rest = rest
credential_fields (some c) rest = field (lit "password") (str c.password) (
    field (lit "role") (str c.role) (
      field (lit "permissions") (obj (json_permissions c.permissions)) (
        field (lit "telegram_id") (opt_json (λ n. int (pos n)) c.telegram_id)
          (field (lit "require_2fa") (bool c.require_2fa) rest))))

-- `_admin_payload`: the dict with the expiry in whole seconds.
unfoldable pub admin_payload : AdminPayload → Fields
admin_payload p =
    let rest = credential_fields p.credentials (entitlement_fields p.entitlement) in
    elim p.username [ none ↦ rest | some u ↦ field (lit "username") (str u) rest ]

-- `data.get(key, data.get("items", data)) if isinstance(data, dict) else data`
unfoldable pub rows_of : Text → Json → Json
rows_of key (obj answer) = elim (get_field key answer) [
  | some v ↦ v
  | none ↦ elim (get_field (lit "items") answer) [ some v ↦ v | none ↦ obj answer ]
]
rows_of key answer = answer

unfoldable pub no_attribute : {A : Type 0} → Result A
no_attribute = raised (record { kind = ErrorKind.attribute_error; message = lit "get" })

-- `row.get("username") == username`
unfoldable pub names_user : Text → Fields → Bool
names_user username row = elim (get_field (lit "username") row) [
  | some (str t) ↦ teq t username
  | some _ ↦ false
  | none ↦ false
]

-- `next((row for row in rows if …), None)`, which stops at the first such row.
unfoldable pub exact_row : Text → Items → Result (Option Fields)
exact_row username nil = ok none
exact_row username (cons (obj row) rows) =
    let rest = exact_row username rows in if names_user username row then ok (some row) else rest
exact_row username (cons _ rows) = no_attribute

-- `isinstance(rows, list)`, and then the row of that name.
unfoldable pub row_in : Text → Json → Result (Option Fields)
row_in username (arr rows) = exact_row username rows
row_in username _ =
    raised
      (record { kind = ErrorKind.rebecca_error; message = lit "unexpected /api/admins response" })

unfoldable pub find_row : Text → Option Json → Result (Option Fields)
find_row username none = row_in username null
find_row username (some answer) = row_in username (rows_of (lit "admins") answer)

-- `all(isinstance(item, dict) for item in rows)`, with the dicts.
unfoldable pub dicts : Items → Option (List Fields)
dicts nil = some []
dicts (cons (obj row) rows) = elim (dicts rows) [ none ↦ none | some rest ↦ some (row ∷ rest) ]
dicts (cons _ rows) = none

unfoldable pub services_error : {A : Type 0} → Text → Result A
services_error m = raised (record { kind = ErrorKind.rebecca_error; message = m })

unfoldable pub service_dicts : Items → Result (List Fields)
service_dicts rows = elim (dicts rows) [
  | none ↦ services_error (lit "services response contains non-object entries")
  | some found ↦ ok found
]

-- The wrapper of a list of services.
unfoldable pub wrapped_services : Fields → Result (List Fields)
wrapped_services answer = elim (get_field (lit "services") answer) [
  | some (arr rows) ↦ service_dicts rows
  | _ ↦ elim (get_field (lit "items") answer) [
    | some (arr rows) ↦ service_dicts rows
    | _ ↦ services_error (lit "unexpected services response wrapper")
  ]
]

unfoldable pub services_of : Option Json → Result (List Fields)
services_of (some (arr rows)) = service_dicts rows
services_of (some (obj answer)) = wrapped_services answer
services_of _ = services_error (lit "unexpected services response")

-- `operation_paths.get(capability)`
unfoldable pub template_of : Text → List (Text × Text) → Option Text
template_of capability [] = none
template_of capability ((key, path) ∷ rest) =
    if teq key capability then some path else template_of capability rest

-- A result as an action.
unfoldable pub give : {S A : Type 0} → Result A → Action S A
give r s = (r, s)
