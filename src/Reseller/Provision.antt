-- ===== src/Reseller/Provision.antt =====
-- `verify_entitlement` and `provision` of app/reseller/service.py.
pub mod Safety
use rebecca_reseller_bot.Prelude.{
  ℕ, ◌/◌, Bool, true, false, ◌&&◌, ◌||◌, not, Option, none, some, List, [], ◌∷◌, all, any, ◌==◌,
  if◌then◌else◌,
}
use rebecca_reseller_bot.Prelude.Int.{ℤ, eqb_ℤ}
use rebecca_reseller_bot.Prelude.Text.{Text, lit, lower, teq, one_of}
use rebecca_reseller_bot.Prelude.Time.{Instant, second}
use rebecca_reseller_bot.Prelude.Sorting.{opt_eq}
use rebecca_reseller_bot.Prelude.Effects.{
  Action, Result, ok, raised, ErrorKind, Exception, pure, raise, reraise, catch, ◌>>=◌, ◌>>◌,
}
use rebecca_reseller_bot.Rebecca.Models.{Admin, ServiceId, number, name}
use rebecca_reseller_bot.Rebecca.Interface.{RebeccaClient, Entitlement, Credentials, AdminPayload}

unfoldable pub restricted_permissions : List (Text × List (Text × Bool))
restricted_permissions =
    (
      lit "users",
      (lit "create", true)
          ∷ (lit "delete", true)
          ∷ (lit "reset_usage", true)
          ∷ (lit "revoke", true)
          ∷ (lit "create_on_hold", true)
          ∷ (lit "allow_unlimited_data", false)
          ∷ (lit "allow_unlimited_expire", false)
          ∷ (lit "allow_next_plan", false)
          ∷ (lit "advanced_actions", false)
          ∷ (lit "set_flow", false)
          ∷ (lit "allow_custom_key", false)
          ∷ [],
    )
    ∷ (
      lit "admin_management",
      (lit "can_view", false)
          ∷ (lit "can_edit", false)
          ∷ (lit "can_manage_sudo", false)
          ∷ (lit "manage_sessions", false)
          ∷ (lit "manage_2fa", false)
          ∷ [],
    )
    ∷ (lit "sudo", (lit "all", false) ∷ [])
    ∷ []

-- `_same_second`
unfoldable pub same_second : Option Instant → Option Instant → Bool
same_second = opt_eq (λ s t. s / second == t / second)

-- Equality of the elements of two Python sets of `int | str`.
unfoldable pub same_service : ServiceId → ServiceId → Bool
same_service (number m) (number n) = eqb_ℤ m n
same_service (number m) (name t) = false
same_service (name s) (number n) = false
same_service (name s) (name t) = teq s t

unfoldable pub subset : List ServiceId → List ServiceId → Bool
subset xs ys = all (λ x. any (same_service x) ys) xs

-- `set(live.services) != set(services)`, negated.
unfoldable pub same_services : List ServiceId → List ServiceId → Bool
same_services xs ys = subset xs ys && subset ys xs

-- The arguments of `provision` but for the client.
pub record Provision : Type 0 where
  pub username : Text
  pub password : Text
  pub expire : Instant
  pub data_limit : ℤ
  pub services : List ServiceId
  pub telegram_id : Option ℕ
  pub users_limit : Option ℤ

-- `role in {"sudo", "full_access"}`
unfoldable pub is_unsafe_role : Text → Bool
is_unsafe_role role = one_of role (lit "sudo" ∷ lit "full_access" ∷ [])

unfoldable pub refuse : Text → Result Admin
refuse m = raised (record { kind = ErrorKind.verification_error; message = m })

-- `verify_entitlement` with `require_active=True`, which every call has; `parse_expire` keeps the instant of
-- the aware time that it is given here.
unfoldable pub verify_entitlement : Provision → Option Admin → Result Admin
verify_entitlement p none = refuse (lit "admin identity verification failed")
verify_entitlement p (some live) =
    if not (teq live.username p.username)
    then refuse (lit "admin identity verification failed")
    else if not (teq live.role (lit "reseller")) || is_unsafe_role live.role
    then refuse (lit "unsafe reseller role")
    else if not (one_of (lower live.status) (lit "active" ∷ lit "enabled" ∷ []))
    then refuse (lit "reseller is not active")
    else if not (same_second live.expire (some p.expire))
    then refuse (lit "expire verification failed")
    else if not (opt_eq eqb_ℤ live.data_limit (some p.data_limit))
    then refuse (lit "data limit verification failed")
    else if not (same_services live.services p.services)
    then refuse (lit "services verification failed")
    else if not (opt_eq eqb_ℤ live.users_limit p.users_limit)
    then refuse (lit "users limit verification failed")
    else ok live

unfoldable pub provision_payload : Provision → Option Text → AdminPayload
provision_payload p username = record {
  username = username;
  credentials = some (record {
    password = p.password;
    role = lit "reseller";
    permissions = restricted_permissions;
    telegram_id = p.telegram_id;
    require_2fa = false;
  });
  entitlement = record {
    data_limit = p.data_limit;
    expire = p.expire;
    services = p.services;
    users_limit = p.users_limit;
  };
}

module _ {W : Type 0} (client : RebeccaClient W) where
  -- `try: await client.disable_admin(username) except Exception: pass`
  unfoldable pub try_disable : Text → Action W (Unit {0})
  try_disable username = catch (client.disable_admin username) (λ _. pure tt)

  -- The first part: create the administrator, or recover the one that is there.
  unfoldable pub create_or_recover : Provision → Option Admin → Action W (Unit {0})
  create_or_recover p none = do
    client.create_reseller_admin (provision_payload p (some p.username))
    pure tt
  create_or_recover p (some live) =
      if is_unsafe_role live.role
      then (do
        try_disable p.username
        raise ErrorKind.verification_error (lit "unsafe reseller role"))
      else (do client.update_admin p.username (provision_payload p none); pure tt)

  -- `except VerificationError:`, which disables an administrator with an unsafe role.
  unfoldable pub on_failure : Provision → Option Admin → Exception → Action W Admin
  on_failure p none e = reraise e
  on_failure p (some live) e =
      if is_unsafe_role live.role then (do try_disable p.username; reraise e) else reraise e

  unfoldable pub check_live : Provision → Option Admin → Action W Admin
  check_live p live = elim (verify_entitlement p live) [
    | ok admin ↦ pure admin
    | raised e ↦ on_failure p live e
  ]

  -- The second part: the administrator is read back and verified.
  unfoldable pub read_back : Provision → Action W Admin
  read_back p = do check_live p (← client.get_admin p.username)

  unfoldable pub provision : Provision → Action W Admin
  provision p = do live ← client.get_admin p.username; create_or_recover p live; read_back p
