-- ===== src/Bot/Owner.antt =====
-- The commands and buttons of the owners in app/bot/handlers/common.py that change something: settings,
-- the mode of operation, products, resellers, and the deletion of a user. The switches
-- of the environment are read here, not the stored mode.
pub mod Guards
pub mod Blind
use rebecca_reseller_bot.Prelude.{
  ℕ, Bool, true, false, ◌&&◌, ◌||◌, not, Option, none, some, List, [], ◌∷◌, ◌++◌, first, ◌==◌,
  or_else, update_where, if◌then◌else◌,
}
use rebecca_reseller_bot.Prelude.Text.{Text, lit, teq, one_of, lower, is_empty}
use rebecca_reseller_bot.Prelude.Sorting.{show_ℕ, opt_eq}
use rebecca_reseller_bot.Prelude.Time.{Instant}
use rebecca_reseller_bot.Prelude.Json.{Json, bool}
use rebecca_reseller_bot.Prelude.Effects.{
  Action, ErrorKind, Result, ok, raised, pure, reraise, gets, ◌>>=◌, ◌>>◌,
}
use rebecca_reseller_bot.Rebecca.Models.{Admin, User}
use rebecca_reseller_bot.Rebecca.Interface.{RebeccaClient}
use rebecca_reseller_bot.Database.Models.{
  Reseller, ResellerStatus, Product, Setting, AuditLog, Database, same_reseller_status,
}
use rebecca_reseller_bot.Database.Settings.{put_setting, set_operations_mode}
use rebecca_reseller_bot.Payments.Plisio.{truthy}
use rebecca_reseller_bot.Scheduler.State.{Run, change, database, remote, update_reseller}
use rebecca_reseller_bot.Bot.Transactions.{owner_access, in_transaction, get_reseller}
use rebecca_reseller_bot.Bot.Values.{entered_value, command_value, editable, settable}

pub data OwnerAnswer : Type 0 where
  no_owner invalid_value key_refused saved : OwnerAnswer
  not_found no_client switched_off : OwnerAnswer
  owner_unverified deletion_unverified user_removed : OwnerAnswer
  not_suspended dry_run_only enabling_unverified done : OwnerAnswer

-- What these handlers are given.
pub record Console (W : Type 0) : Type 0 where
  pub owner_ids : List ℕ
  pub dry_run : Bool
  pub allow_disable_actions : Bool
  pub destructive_actions : Bool
  pub allow_delete_actions : Bool
  pub rebecca : Option (RebeccaClient W)

unfoldable pub save_setting : Text → Json → Database → Database
save_setting key value db = record db { settings = put_setting key value db.settings }

unfoldable pub find_setting : Text → List Setting → Option Setting
find_setting key = first (λ (x : Setting). teq x.key key)

-- `current = True if row is None else bool(row.value)`, negated.
unfoldable pub toggled : Option Setting → Json
toggled none = bool false
toggled (some row) = bool (not (truthy row.value))

unfoldable pub soft_delete : ℕ → Database → Database
soft_delete id db = record db {
  products =
      update_where (λ (p : Product). p.id == id) (λ p. record p { deleted = true; enabled = false })
        db.products;
}

unfoldable pub flip_hold : Reseller → Reseller
flip_hold x = record x { automation_hold = not x.automation_hold }

unfoldable pub suspend : Reseller → Reseller
suspend x = record x {
  status = ResellerStatus.suspended;
  suspended_reason = some (lit "manual owner action");
}

unfoldable pub unsuspend : Reseller → Reseller
unsuspend x = record x { status = ResellerStatus.active; suspended_reason = none }

unfoldable pub would_disable : ℕ → Text → Instant → Database → Database
would_disable owner username now db = record db {
  audit_logs =
      db.audit_logs
      ++ (record {
        timestamp = now;
        actor = show_ℕ owner;
        actor_type = lit "OWNER";
        action = lit "WOULD_DISABLE_RESELLER";
        target_type = lit "reseller";
        target_identifier = username;
        order_id = none;
        result = lit "DRY_RUN";
        error = none;
      }
          ∷ []);
}

-- `live.status.lower() in {"active", "enabled"}`
unfoldable pub is_live_active : Option Admin → Bool
is_live_active none = false
is_live_active (some live) = one_of (lower live.status) (lit "active" ∷ lit "enabled" ∷ [])

unfoldable pub is_owned_by : Text → Option User → Bool
is_owned_by owner none = false
is_owned_by owner (some live) = opt_eq teq live.admin_username (some owner)

module _ {W : Type 0} where
  unfoldable pub disable_at_rebecca : Option (RebeccaClient W) → Text → Action (Run W) (Unit {0})
  disable_at_rebecca none username = pure tt
  disable_at_rebecca (some client) username =
      remote (client.disable_admin username) >> remote (client.disable_admin_users username)

  -- After the deletion the user has to be gone.
  unfoldable pub check_removed : Option User → Action W OwnerAnswer
  check_removed none = pure user_removed
  check_removed (some _) = pure deletion_unverified

  unfoldable pub remove_live : RebeccaClient W → Text → Text → Option User → Action W OwnerAnswer
  remove_live client owner username live =
      if not (is_owned_by owner live)
      then pure owner_unverified
      else client.delete_user username >> (client.get_user username >>= check_removed)

  unfoldable pub remove_user : Option (RebeccaClient W) → Text → Text → Action W OwnerAnswer
  remove_user none owner username = pure no_client
  remove_user (some client) owner username =
      client.get_user username >>= remove_live client owner username

module _ {W : Type 0} (console : Console W) where
  unfoldable pub owned : {A : Type 0} → ℕ → A → Action (Run W) A → Action (Run W) A
  owned caller other body = if not (owner_access caller console.owner_ids) then pure other else body

  unfoldable pub store : Text → Result Json → Action (Run W) OwnerAnswer
  store key (raised e) = elim e.kind [ ErrorKind.value_error ↦ pure invalid_value | _ ↦ reraise e ]
  store key (ok value) = in_transaction (change (save_setting key value) >> pure saved)

  -- `settings_edit` lets a key in, and `settings_value` takes the text that follows.
  unfoldable pub settings_value : ℕ → Text → Text → Action (Run W) OwnerAnswer
  settings_value caller key text =
      owned caller no_owner
        (if not (one_of key editable) then pure key_refused else store key (entered_value key text))

  -- `card_number`, `support_username` and `trial_service_ids` have a handler for a value that does not parse.
  unfoldable pub store_command : Text → Result Json → Action (Run W) OwnerAnswer
  store_command key value =
      if one_of key (lit "card_number" ∷ lit "support_username" ∷ lit "trial_service_ids" ∷ [])
      then store key value
      else elim value [ raised e ↦ reraise e | ok v ↦ store key (ok v) ]

  unfoldable pub setting_set : ℕ → Text → Text → Action (Run W) OwnerAnswer
  setting_set caller key text = owned caller no_owner (
      if not (one_of key settable)
      then pure key_refused
      else store_command key (command_value key text))

  unfoldable pub settings_trial_toggle : ℕ → Action (Run W) OwnerAnswer
  settings_trial_toggle caller = owned caller no_owner (
      in_transaction (
        change (λ db.
          save_setting (lit "trial_enabled")
            (toggled (find_setting (lit "trial_enabled") db.settings)) db)
        >> pure saved))

  unfoldable pub set_mode : Text → Action (Run W) OwnerAnswer
  set_mode mode r = elim (set_operations_mode mode (database r).settings) [
    | raised e ↦ reraise e r
    | ok rows ↦ (change (λ db. record db { settings = rows }) >> pure saved) r
  ]

  -- `live` says that the button confirmed the live mode.
  unfoldable pub mode_change : ℕ → Bool → Action (Run W) OwnerAnswer
  mode_change caller live =
      owned caller no_owner (in_transaction (set_mode (if live then lit "live" else lit "dry_run")))

  unfoldable pub product_delete : ℕ → ℕ → Action (Run W) OwnerAnswer
  product_delete caller product_id =
      owned caller no_owner (in_transaction (change (soft_delete product_id) >> pure done))

  unfoldable pub reseller_hold : ℕ → ℕ → Action (Run W) OwnerAnswer
  reseller_hold caller reseller_id =
      owned caller no_owner
        (in_transaction (change (update_reseller reseller_id flip_hold) >> pure done))

  unfoldable pub disable_or_note : ℕ → Text → Instant → Action (Run W) (Unit {0})
  disable_or_note caller username now =
      if console.dry_run || not console.allow_disable_actions
      then change (would_disable caller username now)
      else disable_at_rebecca console.rebecca username

  unfoldable pub suspend_row : ℕ → Instant → Option Reseller → Action (Run W) OwnerAnswer
  suspend_row caller now none = pure not_found
  suspend_row caller now (some row) =
      let username = or_else row.rebecca_admin_username [] in
      if is_empty username
      then pure not_found
      else change (update_reseller row.id suspend)
        >> (disable_or_note caller username now >> pure done)

  unfoldable pub suspend_rows : ℕ → ℕ → Instant → Action (Run W) OwnerAnswer
  suspend_rows caller reseller_id now r =
      suspend_row caller now (get_reseller reseller_id (database r)) r

  unfoldable pub reseller_disable : ℕ → ℕ → Instant → Action (Run W) OwnerAnswer
  reseller_disable caller reseller_id now =
      owned caller no_owner (in_transaction (suspend_rows caller reseller_id now))

  unfoldable pub finish_enabling : ℕ → Option Admin → Action (Run W) OwnerAnswer
  finish_enabling id live =
      if not (is_live_active live)
      then pure enabling_unverified
      else change (update_reseller id unsuspend) >> pure done

  unfoldable pub enable_at_rebecca :
      Option (RebeccaClient W) → Reseller → Action (Run W) OwnerAnswer
  enable_at_rebecca none row = pure no_client
  enable_at_rebecca (some client) row =
      let username = or_else row.rebecca_admin_username [] in
      remote (client.enable_admin username)
      >> (remote (client.get_admin username) >>= finish_enabling row.id)

  unfoldable pub enable_row : Option Reseller → Action (Run W) OwnerAnswer
  enable_row none = pure not_suspended
  enable_row (some row) =
      if not (same_reseller_status row.status ResellerStatus.suspended)
      then pure not_suspended
      else if console.dry_run || not console.allow_disable_actions
      then pure dry_run_only
      else enable_at_rebecca console.rebecca row

  unfoldable pub enable_rows : ℕ → Action (Run W) OwnerAnswer
  enable_rows reseller_id r = enable_row (get_reseller reseller_id (database r)) r

  unfoldable pub reseller_enable : ℕ → ℕ → Action (Run W) OwnerAnswer
  reseller_enable caller reseller_id =
      owned caller no_owner (in_transaction (enable_rows reseller_id))

  unfoldable pub may_delete : Bool
  may_delete = not console.dry_run && console.destructive_actions && console.allow_delete_actions

  unfoldable pub user_delete_confirm : ℕ → Text → Text → Action (Run W) OwnerAnswer
  user_delete_confirm caller owner username = owned caller no_owner (
      if not may_delete
      then pure switched_off
      else remote (remove_user console.rebecca owner username))
