-- ===== src/Rebecca/Capabilities.antt =====
-- app/rebecca/capabilities.py: which routes of Rebecca may be called, from its OpenAPI schema.
use rebecca_reseller_bot.Prelude.{
  ◌≡◌, ◌⊎◌, Bool, true, false, Option, none, some, List, [], ◌∷◌, first, is_some, first_holds, inl,
  inr, Bool-cases, Option-cases, if◌then◌else◌,
}
use rebecca_reseller_bot.Prelude.Text.{Text, lit, teq, teq_iff}
use rebecca_reseller_bot.Prelude.Json.{obj, Fields, get_field}

-- A path and a method.
abbrev pub Route : Type 0
Route = Text × Text

unfoldable pub operation_candidates : List (Text × List Route)
operation_candidates =
    (lit "admin_create", (lit "/api/admin", lit "post") ∷ [])
    ∷ (lit "admin_get", (lit "/api/admins", lit "get") ∷ [])
    ∷ (lit "admin_update", (lit "/api/admin/{username}", lit "put") ∷ [])
    ∷ (lit "admin_disable", (lit "/api/admin/{username}/disable", lit "post") ∷ [])
    ∷ (lit "admin_enable", (lit "/api/admin/{username}/enable", lit "post") ∷ [])
    ∷ (lit "admin_users_disable", (lit "/api/admin/{username}/users/disable", lit "post") ∷ [])
    ∷ (lit "admin_users_activate", (lit "/api/admin/{username}/users/activate", lit "post") ∷ [])
    ∷ (
      lit "admin_usage",
      (lit "/api/admin/usage/{username}", lit "get")
          ∷ (lit "/api/admin/{username}/usage", lit "get")
          ∷ [],
    )
    ∷ (lit "user_get", (lit "/api/user/{username}", lit "get") ∷ [])
    ∷ (lit "user_create", (lit "/api/user", lit "post") ∷ [])
    ∷ (lit "user_update", (lit "/api/user/{username}", lit "put") ∷ [])
    ∷ (lit "user_delete", (lit "/api/user/{username}", lit "delete") ∷ [])
    ∷ (lit "user_reset", (lit "/api/user/{username}/reset", lit "post") ∷ [])
    ∷ (lit "user_revoke", (lit "/api/user/{username}/revoke_sub", lit "post") ∷ [])
    ∷ (
      lit "services_list",
      (lit "/api/v2/services", lit "get") ∷ (lit "/api/services", lit "get") ∷ [],
    )
    ∷ []

-- `isinstance(operation, dict) and method in operation`
unfoldable pub is_advertised : Fields → Route → Bool
is_advertised paths (path, method) = elim (get_field path paths) [
  | some (obj operation) ↦ is_some (get_field method operation)
  | some _ ↦ false
  | none ↦ false
]

-- The entries of the dict that is resolved, in order: for each name its first advertised candidate.
unfoldable pub resolve : Fields → List (Text × List Route) → List (Text × Text)
resolve paths [] = []
resolve paths ((name, candidates) ∷ rest) =
    let others = resolve paths rest in
    elim (first (is_advertised paths) candidates) [
      | none ↦ others
      | some route ↦ (name, route.0) ∷ others
    ]

unfoldable pub resolve_operation_paths : Fields → List (Text × Text)
resolve_operation_paths schema = elim (get_field (lit "paths") schema) [
  | some (obj paths) ↦ resolve paths operation_candidates
  | some _ ↦ []
  | none ↦ []
]

-- `name in resolved`, and `resolved.get(name)`
unfoldable pub path_of : Text → List (Text × Text) → Option Text
path_of name [] = none
path_of name ((key, path) ∷ rest) = if teq key name then some path else path_of name rest

-- `self.operation_paths.get(capability)` where the capability is there, before the parameters are set in.
unfoldable pub advertised_path : Text → Fields → Option Text
advertised_path capability schema = path_of capability (resolve_operation_paths schema)

-- That a route is a candidate of the operation and advertised.
pub Advertised : Fields → List (Text × List Route) → Text → Text → Type 0
Advertised paths [] name path = ⊥
Advertised paths ((key, candidates) ∷ rest) name path =
    ((key ≡ name)
      × (method : Text) × (first (is_advertised paths) candidates ≡ some (path, method))
      × (is_advertised paths (path, method) ≡ true))
    ⊎ Advertised paths rest name path

resolve-Advertised :
    (paths : Fields) (candidates : List (Text × List Route)) (name path : Text)
    → path_of name (resolve paths candidates) ≡ some path
    → Advertised paths candidates name path
unfolding resolve path_of Advertised
resolve-Advertised paths [] name path h = absurd (cc h)
resolve-Advertised paths ((key, candidates) ∷ rest) name path h =
    elim (Option-cases (first (is_advertised paths) candidates)) [
      | inl e ↦ inr (resolve-Advertised paths rest name path (rw (e, resolve) at h))
      | inr ((p, m), e) ↦ elim (Bool-cases (teq key name)) [
        | inl t ↦
            let found : some p ≡ some path = rw (e, t, resolve, path_of) at h in
            let same : p ≡ path = cc found in
            let here = rw same at e in
            inl (
              (teq_iff key name).0 t,
              m,
              here,
              first_holds (is_advertised paths) candidates (path, m) here,
            )
        | inr f ↦ inr (resolve-Advertised paths rest name path (rw (e, f, resolve, path_of) at h))
      ]
    ]

-- The path that is resolved for a capability belongs to a candidate of that operation which the schema
-- advertises with its method, and to the first one that is advertised.
pub advertised_path-Advertised :
    (schema paths : Fields) (capability path : Text)
    → get_field (lit "paths") schema ≡ some (obj paths)
    → advertised_path capability schema ≡ some path
    → Advertised paths operation_candidates capability path
unfolding advertised_path resolve_operation_paths
advertised_path-Advertised schema paths capability path e h =
    resolve-Advertised paths operation_candidates capability path
      (rw (e, resolve_operation_paths) at h)
