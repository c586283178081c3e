-- ===== src/Rebecca/Http/Client.antt =====
-- `HTTPRebeccaClient` of app/rebecca/client.py as a `RebeccaClient`: the methods on administrators,
-- and the record of all that the domain code calls.
use rebecca_reseller_bot.Prelude.{
  Bool, false, not, Option, none, some, List, [], ◌∷◌, ◌++◌, if◌then◌else◌,
}
use rebecca_reseller_bot.Prelude.Text.{Text, lit, teq}
use rebecca_reseller_bot.Prelude.Json.{Json, str, arr, obj, Items, nil, cons, Fields, end, field}
use rebecca_reseller_bot.Prelude.Effects.{
  Action, Result, ErrorKind, ok, raised, pure, raise, gets, ◌>>=◌, ◌>>◌,
}
use rebecca_reseller_bot.Rebecca.Models.{Admin, User}
use rebecca_reseller_bot.Rebecca.Interface.{AdminPayload, RebeccaClient}
use rebecca_reseller_bot.Rebecca.Http.{
  Response, Body, bare, params, body, ClientState, has_capability, request, on_world, require,
  parse_user, send_request, admin_action, get_user, delete_user, update_user, detect_capabilities,
}
use rebecca_reseller_bot.Rebecca.Http.Admins.{
  admin_data, admin_payload, rows_of, find_row, services_of, template_of, give,
}

-- `validate_admin` and `validate_user` are `model_validate` of pydantic for the two models, and `format`
-- is `str.format` of a template with a username.
module _ {W : Type 0} (http : Text → Text → Body → Action W Response)
    (validate_user : Fields → Result User) (validate_admin : Fields → Result Admin)
    (format : Text → Text → Text) where
  abbrev call : Text → Text → Body → Action (ClientState W) (Option Json)
  call method path b = on_world http validate_user (request http validate_user method path b)

  -- `Admin.from_rebecca(payload)`
  unfoldable pub from_rebecca : Fields → Result Admin
  from_rebecca payload = elim (admin_data payload) [
    | raised e ↦ raised e
    | ok entries ↦ validate_admin entries
  ]

  -- `Admin.from_rebecca(data)` of an answer, which has to be a dict.
  unfoldable pub admin_of : Option Json → Result Admin
  admin_of (some (obj payload)) = from_rebecca payload
  admin_of _ = raised (record { kind = ErrorKind.type_error; message = lit "dict" })

  -- `Admin.from_rebecca(exact) if exact else None`
  unfoldable pub admin_of_row : Option Fields → Result (Option Admin)
  admin_of_row none = ok none
  admin_of_row (some row) = elim (from_rebecca row) [ raised e ↦ raised e | ok a ↦ ok (some a) ]

  unfoldable pub on_admins : Text → Option Json → Result (Option Admin)
  on_admins username answer = elim (find_row username answer) [
    | raised e ↦ raised e
    | ok row ↦ admin_of_row row
  ]

  unfoldable pub read_admin : Text → Action (ClientState W) (Option Admin)
  read_admin username =
      call (lit "GET") (lit "/api/admins") (params ((lit "username", username) ∷ [])) >>= λ answer.
      give (on_admins username answer)

  unfoldable pub get_admin : Text → Action (ClientState W) (Option Admin)
  get_admin username = require http validate_user (lit "admin_get") >> read_admin username

  -- An empty body and an empty dict read as no administrator.
  unfoldable pub current_of : Option Json → Result (Option Admin)
  current_of none = ok none
  current_of (some (obj end)) = ok none
  current_of (some v) = elim (admin_of (some v)) [ raised e ↦ raised e | ok a ↦ ok (some a) ]

  unfoldable pub get_current_admin : Action (ClientState W) (Option Admin)
  get_current_admin =
      call (lit "GET") (lit "/api/admin") bare >>= λ answer. give (current_of answer)

  -- `payload.get("role") != "reseller"`, negated.
  unfoldable pub is_reseller : AdminPayload → Bool
  is_reseller p = elim p.credentials [ none ↦ false | some c ↦ teq c.role (lit "reseller") ]

  unfoldable pub create_checked : AdminPayload → Action (ClientState W) Admin
  create_checked p =
      if not (is_reseller p)
      then raise ErrorKind.value_error (lit "reseller role is mandatory")
      else call (lit "POST") (lit "/api/admin") (body (admin_payload p)) >>= λ answer.
          give (admin_of answer)

  unfoldable pub create_reseller_admin : AdminPayload → Action (ClientState W) Admin
  create_reseller_admin p = require http validate_user (lit "admin_create") >> create_checked p

  unfoldable pub still_there : Option Admin → Action (ClientState W) Admin
  still_there none = raise ErrorKind.rebecca_error (lit "admin disappeared after update")
  still_there (some live) = pure live

  unfoldable pub update_admin : Text → AdminPayload → Action (ClientState W) Admin
  update_admin username p =
      require http validate_user (lit "admin_update")
      >> (send_request http validate_user (lit "PUT") (lit "/api/admin/" ++ username)
            (body (admin_payload p))
          >> (get_admin username >>= still_there))

  -- `_advertised_path`, the template of the detected schema.
  unfoldable pub advertised : Text → Option Text → Action (ClientState W) Text
  advertised capability none =
      raise ErrorKind.capability_missing (capability ++ lit ": advertised route unavailable")
  advertised capability (some path) = pure path

  unfoldable pub template_path : Text → Action (ClientState W) Text
  template_path capability =
      require http validate_user capability
      >> (gets (λ s. template_of capability s.operation_paths) >>= advertised capability)

  unfoldable pub usage_of : Option Json → Result Fields
  usage_of (some (obj usage)) = ok usage
  usage_of _ =
      raised
        (record { kind = ErrorKind.rebecca_error; message = lit "unexpected admin usage response" })

  unfoldable pub get_admin_usage : Text → Action (ClientState W) Fields
  get_admin_usage username = do
    path ← template_path (lit "admin_usage")
    answer ← call (lit "GET") (format path username) bare
    give (usage_of answer)

  unfoldable pub list_services : Action (ClientState W) (List Fields)
  list_services = do
    path ← template_path (lit "services_list")
    answer ← call (lit "GET") path bare
    give (services_of answer)

  -- `User.from_rebecca(item)`
  unfoldable pub as_user : Option User → Action (ClientState W) User
  as_user none = raise ErrorKind.type_error (lit "dict")
  as_user (some u) = pure u

  -- `[User.from_rebecca(item) for item in rows]`
  unfoldable pub users_in : Items → Action (ClientState W) (List User)
  users_in nil = pure []
  users_in (cons item rows) = do
    user ← parse_user http validate_user (some item) >>= as_user
    rest ← users_in rows
    pure (user ∷ rest)

  -- The rows are a list; another value has no items that are dicts.
  unfoldable pub on_users : Option Json → Action (ClientState W) (List User)
  on_users none = raise ErrorKind.type_error (lit "'NoneType' object is not iterable")
  on_users (some answer) = elim (rows_of (lit "users") answer) [
    | arr rows ↦ users_in rows
    | obj end ↦ pure []
    | str [] ↦ pure []
    | _ ↦ raise ErrorKind.type_error (lit "rows")
  ]

  unfoldable pub list_admin_users : Text → Action (ClientState W) (List User)
  list_admin_users username =
      require http validate_user (lit "user_list_by_owner")
      >> (call (lit "GET") (lit "/api/users") (params ((lit "admin_username", username) ∷ []))
          >>= on_users)

  unfoldable pub create_user : Fields → Action (ClientState W) User
  create_user payload =
      require http validate_user (lit "user_create")
      >> (call (lit "POST") (lit "/api/user") (body payload)
          >>= parse_user http validate_user
          >>= as_user)

  unfoldable pub detects_admin_users_disable : Action (ClientState W) Bool
  detects_admin_users_disable =
      detect_capabilities http validate_user
      >> gets (λ s. has_capability (lit "admin_users_disable") s.capabilities)

  unfoldable pub set_user_status : Text → Text → Action (ClientState W) User
  set_user_status username status =
      update_user http validate_user username (field (lit "status") (str status) end)

  unfoldable pub disable_admin_users : Text → Action (ClientState W) (Unit {0})
  disable_admin_users username =
      admin_action http validate_user username (lit "users/disable") (lit "admin_users_disable")

  unfoldable pub activate_admin_users : Text → Action (ClientState W) (Unit {0})
  activate_admin_users username =
      admin_action http validate_user username (lit "users/activate") (lit "admin_users_activate")

  -- The class as the interface that the domain code uses.
  unfoldable pub http_client : RebeccaClient (ClientState W)
  http_client = record {
    get_admin = get_admin;
    create_reseller_admin = create_reseller_admin;
    update_admin = update_admin;
    disable_admin = λ u. admin_action http validate_user u (lit "disable") (lit "admin_disable");
    enable_admin = λ u. admin_action http validate_user u (lit "enable") (lit "admin_enable");
    disable_admin_users = disable_admin_users;
    detects_admin_users_disable = detects_admin_users_disable;
    list_admin_users = list_admin_users;
    get_user = get_user http validate_user;
    update_user = set_user_status;
    delete_user = delete_user http validate_user;
  }
