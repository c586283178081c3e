-- ===== src/Rebecca/Http.antt =====
-- `HTTPRebeccaClient` of app/rebecca/client.py: the requests on users, behind the capabilities that the
-- schema shows.
pub mod FailClosed
pub mod Admins
pub mod Client
pub mod Guarded
pub mod Exact
use rebecca_reseller_bot.Prelude.{
  ℕ, ◌≡◌, refl, Bool, true, false, ◌&&◌, ◌||◌, not, Option, none, some, List, [], ◌∷◌, ◌++◌, map,
  is_some, leb, ◌==◌, inl, inr, arith, if◌then◌else◌,
}
use rebecca_reseller_bot.Prelude.Int.{ℤ, pos, eqb_ℤ}
use rebecca_reseller_bot.Prelude.Text.{Text, lit, teq, one_of}
use rebecca_reseller_bot.Prelude.Sorting.{show_ℕ}
use rebecca_reseller_bot.Prelude.Json.{
  Json, null, bool, int, float, str, arr, obj, Items, nil, cons, Fields, end, field, get_field,
}
use rebecca_reseller_bot.Prelude.Effects.{
  Action, Result, Exception, ErrorKind, ok, raised, is_rebecca, pure, raise, reraise, catch, zoom,
  gets, modify, Result-cases, ◌>>=◌, ◌>>◌,
}
use rebecca_reseller_bot.Rebecca.Models.{User}
use rebecca_reseller_bot.Database.Settings.Parse.{int_of}
use rebecca_reseller_bot.Payments.Plisio.{truthy}
use rebecca_reseller_bot.Rebecca.Capabilities.{
  operation_candidates, resolve_operation_paths, path_of,
}

-- An answer of httpx: the status, and, where there is a body, what `response.json()` makes of it, which is
-- a value or the exception that it raises.
pub record Response : Type 0 where
  pub status : ℕ
  pub content : Option (Result Json)

-- What goes with a request: nothing, query parameters, or a body of JSON.
pub data Body : Type 0 where
  bare : Body
  params : List (Text × Text) → Body
  body : Fields → Body

-- The client: what it has detected, and the world that it works on.
pub record ClientState (W : Type 0) : Type 0 where
  pub capabilities : List (Text × Bool)
  pub operation_paths : List (Text × Text)
  pub world : W

-- `getattr(capabilities, name)`; the defaults are false.
unfoldable pub has_capability : Text → List (Text × Bool) → Bool
has_capability name [] = false
has_capability name ((key, is_there) ∷ rest) =
    if teq key name then is_there else has_capability name rest

-- `d.get(key, {})` as a dict.
unfoldable pub dict_at : Text → Fields → Result Fields
dict_at key fields = elim (get_field key fields) [
  | none ↦ ok end
  | some (obj entries) ↦ ok entries
  | some _ ↦ raised (record { kind = ErrorKind.attribute_error; message = lit "get" })
]

-- `any(item.get("name") in {...} for item in parameters)`
unfoldable pub names_owner : Items → Result Bool
names_owner nil = ok false
names_owner (cons (obj item) items) =
    let rest = names_owner items in
    if (elim (get_field (lit "name") item) [
      | some (str name) ↦ one_of name (lit "admin_username" ∷ lit "admin_id" ∷ lit "owner" ∷ [])
      | some _ ↦ false
      | none ↦ false
    ])
    then ok true
    else rest
names_owner (cons _ items) =
    raised (record { kind = ErrorKind.attribute_error; message = lit "get" })

unfoldable pub has_owner_parameter : Fields → Result Bool
has_owner_parameter users_get = elim (get_field (lit "parameters") users_get) [
  | none ↦ ok false
  | some (arr items) ↦ names_owner items
  | some _ ↦ raised (record { kind = ErrorKind.type_error; message = lit "parameters" })
]

unfoldable pub lists_by_owner : Fields → Result Bool
lists_by_owner schema = elim (dict_at (lit "paths") schema) [
  | raised e ↦ raised e
  | ok paths ↦ elim (dict_at (lit "/api/users") paths) [
    | raised e ↦ raised e
    | ok users ↦ elim (dict_at (lit "get") users) [
      | raised e ↦ raised e
      | ok users_get ↦ has_owner_parameter users_get
    ]
  ]
]

unfoldable pub from_openapi : Fields → Result (List (Text × Bool))
from_openapi schema = elim (lists_by_owner schema) [
  | raised e ↦ raised e
  | ok by_owner ↦ ok (
      map
        (λ candidate. (candidate.0, is_some (path_of candidate.0 (resolve_operation_paths schema))))
        operation_candidates
      ++ ((lit "user_list_by_owner", by_owner) ∷ []))
]

-- `raw_limit in (None, 0)`
unfoldable pub is_unlimited : Option Json → Bool
is_unlimited none = true
is_unlimited (some null) = true
is_unlimited (some (int n)) = eqb_ℤ n (pos 0)
is_unlimited (some v) = not (truthy v) && (elim v [ bool _ ↦ true | float _ _ ↦ true | _ ↦ false ])

-- `value or default`
unfoldable pub truthy_or : Option Json → Json → Json
truthy_or none default = default
truthy_or (some v) default = if truthy v then v else default

-- `data.get("used_traffic") or data.get("usage") or 0`
unfoldable pub used_value : Fields → Json
used_value payload =
    truthy_or (get_field (lit "used_traffic") payload)
      (truthy_or (get_field (lit "usage") payload) (int (pos 0)))

-- The data of `User.from_rebecca`; a key in front hides one behind it.
unfoldable pub user_data : Fields → Result Fields
user_data payload = elim (int_of (used_value payload)) [
  | raised e ↦ raised e
  | ok used ↦ ok (
      field (lit "data_limit_unlimited")
        (bool (is_unlimited (get_field (lit "data_limit") payload)))
        (field (lit "used_traffic") (int used) payload))
]

-- `http` is `httpx.AsyncClient.request`, whose `httpx.HTTPError` is the kind `http_error`; `model_validate`
-- is that of pydantic for `User`.
module _ {W : Type 0} (http : Text → Text → Body → Action W Response)
    (model_validate : Fields → Result User) where
  -- `response.json() if response.content else None`
  unfoldable pub content_of : Option (Result Json) → Action W (Option Json)
  content_of none = pure none
  content_of (some (ok v)) = pure (some v)
  content_of (some (raised e)) = reraise e

  unfoldable pub response_of : Text → Response → Action W (Option Json)
  response_of path r =
      if r.status == 404
      then raise ErrorKind.not_found path
      else if leb 400 r.status && leb r.status 599
      then raise ErrorKind.rebecca_error (lit "Rebecca HTTP " ++ show_ℕ r.status)
      else content_of r.content

  -- What `_request` makes of an answer, of an HTTP error, or of another exception.
  unfoldable pub on_answer : Text → Result Response → Action W (Option Json)
  on_answer path (ok r) = response_of path r
  on_answer path (raised e) = elim e.kind [
    | ErrorKind.http_error ↦ raise ErrorKind.rebecca_unavailable e.message
    | _ ↦ reraise e
  ]

  -- `_request`
  unfoldable pub request : Text → Text → Body → Action W (Option Json)
  request method path b w = let (answer, w') = http method path b w in on_answer path answer w'

  abbrev pub on_world : {A : Type 0} → Action W A → Action (ClientState W) A
  on_world = zoom (λ s. s.world) (λ s w. record s { world = w })

  -- `_require`
  unfoldable pub require : Text → Action (ClientState W) (Unit {0})
  require name s =
      if has_capability name s.capabilities
      then (ok tt, s)
      else (raised (record { kind = ErrorKind.capability_missing; message = name }), s)

  unfoldable pub set_detected :
      List (Text × Bool) → List (Text × Text) → Action (ClientState W) (Unit {0})
  set_detected capabilities paths =
      modify λ s. record s { capabilities = capabilities; operation_paths = paths }

  -- The `else` branch of `detect_capabilities`.
  unfoldable pub detected : Option Json → Action (ClientState W) (Unit {0})
  detected (some (obj schema)) s = elim (from_openapi schema) [
    | raised e ↦ (raised e, s)
    | ok capabilities ↦ set_detected capabilities (resolve_operation_paths schema) s
  ]
  detected _ s = (raised (record { kind = ErrorKind.attribute_error; message = lit "get" }), s)

  unfoldable pub on_detection : Result (Option Json) → Action (ClientState W) (Unit {0})
  on_detection (ok schema) = detected schema
  on_detection (raised e) = if is_rebecca e.kind then set_detected [] [] else reraise e

  unfoldable pub detect_capabilities : Action (ClientState W) (Unit {0})
  detect_capabilities s =
      let (answer, w) = request (lit "GET") (lit "/openapi.json") bare s.world in
      on_detection answer (record s { world = w })

  unfoldable pub health_check : Action (ClientState W) Bool
  health_check s =
      let (answer, w) = request (lit "GET") (lit "/openapi.json") bare s.world in
      let t = record s { world = w } in
      elim answer [
        | ok _ ↦ (ok true, t)
        | raised e ↦ if is_rebecca e.kind then (ok false, t) else (raised e, t)
      ]

  unfoldable pub user_path : Text → Text
  user_path username = lit "/api/user/" ++ username

  -- `User.from_rebecca(data)`
  unfoldable pub parse_user : Option Json → Action (ClientState W) (Option User)
  parse_user (some (obj payload)) s = elim (user_data payload) [
    | raised e ↦ (raised e, s)
    | ok entries ↦ elim (model_validate entries) [
      | raised e ↦ (raised e, s)
      | ok u ↦ (ok (some u), s)
    ]
  ]
  parse_user _ s = (raised (record { kind = ErrorKind.type_error; message = lit "dict" }), s)

  -- The answer of a read, where `NotFound` reads as `None`.
  unfoldable pub on_user : Result (Option Json) → Action (ClientState W) (Option User)
  on_user (ok content) = parse_user content
  on_user (raised e) = elim e.kind [ ErrorKind.not_found ↦ pure none | _ ↦ reraise e ]

  unfoldable pub read_user : Text → Action (ClientState W) (Option User)
  read_user username s =
      let (answer, w) = request (lit "GET") (user_path username) bare s.world in
      on_user answer (record s { world = w })

  unfoldable pub get_user : Text → Action (ClientState W) (Option User)
  get_user username = require (lit "user_get") >> read_user username

  -- `if await self.get_user(username) is None: raise NotFound(username)`
  unfoldable pub must_exist : Text → Option User → Action (ClientState W) (Unit {0})
  must_exist username none = raise ErrorKind.not_found username
  must_exist username (some _) = pure tt

  unfoldable pub send_request : Text → Text → Body → Action (ClientState W) (Unit {0})
  send_request method path b = on_world (request method path b) >> pure tt

  unfoldable pub existing : Text → Text → Action (ClientState W) (Unit {0})
  existing capability username = do require capability; must_exist username (← get_user username)

  unfoldable pub delete_user : Text → Action (ClientState W) (Unit {0})
  delete_user username =
      existing (lit "user_delete") username >> send_request (lit "DELETE") (user_path username) bare

  unfoldable pub reset_user_usage : Text → Action (ClientState W) (Unit {0})
  reset_user_usage username =
      existing (lit "user_reset") username
      >> send_request (lit "POST") (user_path username ++ lit "/reset") bare

  unfoldable pub revoke_subscription : Text → Action (ClientState W) (Unit {0})
  revoke_subscription username =
      existing (lit "user_revoke") username
      >> send_request (lit "POST") (user_path username ++ lit "/revoke_sub") bare

  unfoldable pub updated : Option User → Action (ClientState W) User
  updated none = raise ErrorKind.rebecca_error (lit "user disappeared after update")
  updated (some live) = pure live

  unfoldable pub update_user : Text → Fields → Action (ClientState W) User
  update_user username payload = do
    existing (lit "user_update") username
    send_request (lit "PUT") (user_path username) (body payload)
    updated (← get_user username)

  -- `_admin_action`
  unfoldable pub admin_action : Text → Text → Text → Action (ClientState W) (Unit {0})
  admin_action username action capability =
      require capability
      >> send_request (lit "POST") (lit "/api/admin/" ++ username ++ lit "/" ++ action) bare
