-- ===== src/Rebecca/Interface.antt =====
-- The abstract class `RebeccaClient` of app/rebecca/client.py: the operations that the domain code
-- calls, as actions on the outside world, whose states are a parameter.
use rebecca_reseller_bot.Prelude.{ℕ, Bool, Option, List}
use rebecca_reseller_bot.Prelude.Int.{ℤ}
use rebecca_reseller_bot.Prelude.Text.{Text, lit}
use rebecca_reseller_bot.Prelude.Time.{Instant}
use rebecca_reseller_bot.Prelude.Effects.{Action}
use rebecca_reseller_bot.Rebecca.Models.{Admin, User, ServiceId}

-- The part of a payload that says what a reseller may use.
pub record Entitlement : Type 0 where
  pub data_limit : ℤ
  pub expire : Instant
  pub services : List ServiceId
  pub users_limit : Option ℤ

-- The rest of the payload of a creation or of a recovery.
pub record Credentials : Type 0 where
  pub password : Text
  pub role : Text
  pub permissions : List (Text × List (Text × Bool))
  pub telegram_id : Option ℕ
  pub require_2fa : Bool

-- A dict for `create_reseller_admin` or `update_admin`; a key that is not there is `none`.
pub record AdminPayload : Type 0 where
  pub username : Option Text
  pub credentials : Option Credentials
  pub entitlement : Entitlement

pub record RebeccaClient (W : Type 0) : Type 0 where
  pub get_admin : Text → Action W (Option Admin)
  pub create_reseller_admin : AdminPayload → Action W Admin
  pub update_admin : Text → AdminPayload → Action W Admin
  pub disable_admin : Text → Action W (Unit {0})
  pub enable_admin : Text → Action W (Unit {0})
  pub disable_admin_users : Text → Action W (Unit {0})
  -- `getattr(await self.detect_capabilities(), "admin_users_disable")`
  pub detects_admin_users_disable : Action W Bool
  pub list_admin_users : Text → Action W (List User)
  pub get_user : Text → Action W (Option User)
  -- `update_user(username, {"status": status})`
  pub update_user : Text → Text → Action W User
  pub delete_user : Text → Action W (Unit {0})

module _ {W : Type 0} (client : RebeccaClient W) where
  unfoldable pub disable_user : Text → Action W User
  disable_user username = client.update_user username (lit "disabled")

  unfoldable pub enable_user : Text → Action W User
  enable_user username = client.update_user username (lit "active")
