-- ===== src/Scheduler/Resellers.antt =====
-- `_sync_resellers` of app/scheduler/jobs.py: warnings, and the disabling of exhausted resellers. The
-- elapsed days and the percentage are compared exactly, where the source has floats.
use rebecca_reseller_bot.Prelude.{
  ℕ, ◌-◌, Bool, true, false, ◌&&◌, ◌||◌, not, Option, none, some, List, [], ◌∷◌, ◌++◌, first,
  select, take, update_where, ltb, ◌==◌, or_else, if◌then◌else◌,
}
use rebecca_reseller_bot.Prelude.Int.{ℤ, pos, ◌-ℤ◌, ◌*ℤ◌, ltb_ℤ, leb_ℤ, max_ℤ}
use rebecca_reseller_bot.Prelude.Text.{Text, lit, teq, lower, one_of, is_empty}
use rebecca_reseller_bot.Prelude.Sorting.{show_ℤ, show_ℕ}
use rebecca_reseller_bot.Prelude.Time.{Instant, day}
use rebecca_reseller_bot.Prelude.Effects.{Action, Exception, ok, pure, catch, gets, ◌>>=◌, ◌>>◌}
use rebecca_reseller_bot.Rebecca.Models.{Admin, User}
use rebecca_reseller_bot.Rebecca.Interface.{enable_user}
use rebecca_reseller_bot.Database.Models.{
  Reseller, ResellerStatus, ResellerUserCache, Database, same_reseller_status,
}
use rebecca_reseller_bot.Database.Settings.{time_thresholds, traffic_thresholds}
use rebecca_reseller_bot.Reseller.Quota.{exhausted}
use rebecca_reseller_bot.Users.Lifecycle.{verified_owner}
use rebecca_reseller_bot.Scheduler.State.{
  Run, Runner, Notice, time_warning, traffic_warning, reseller_expired, remote, change, database,
  read, for_each, audit, send, update_reseller, update_user_row,
}
use rebecca_reseller_bot.Scheduler.Notifications.{WarningKey, once}

-- The first threshold of the loop whose test `0 < days_left <= threshold` holds.
unfoldable pub time_due : Instant → Option Instant → List ℤ → Option ℤ
time_due now none thresholds = none
time_due now (some expire) thresholds =
    first (λ threshold. ltb now expire && leb_ℤ (pos (expire - now)) (threshold *ℤ day)) thresholds

-- The first threshold of the loop whose test `0 < percent <= threshold` holds.
unfoldable pub traffic_due : Option ℤ → ℤ → List ℤ → Option ℤ
traffic_due none used thresholds = none
traffic_due (some limit) used thresholds =
    let left = max_ℤ (pos 0) (limit -ℤ used) in
    if ltb_ℤ (pos 0) limit
    then first
        (λ threshold.
          ltb_ℤ (pos 0) left
          && leb_ℤ (left *ℤ 100) (threshold *ℤ (elim limit [ pos n ↦ n | _ ↦ 0 ])))
        thresholds
    else none

-- `f"{live.expire}:{live.data_limit}"`
unfoldable pub entitlement_key : (Option Instant → Text) → Admin → Text
entitlement_key str_time live =
    str_time live.expire
    ++ (b':' ∷ (elim live.data_limit [ none ↦ lit "None" | some n ↦ show_ℤ n ]))

unfoldable pub warning_key : (Option Instant → Text) → Admin → Text → ℤ → WarningKey
warning_key str_time live prefix threshold = record {
  target_type = lit "reseller";
  target = live.username;
  kind = prefix ++ show_ℤ threshold;
  entitlement_key = entitlement_key str_time live;
}

-- The columns that a sync writes.
unfoldable pub synced : Instant → Admin → Reseller → Reseller
synced now live r = record r {
  last_known_data_limit = or_else live.data_limit (pos 0);
  last_known_usage = live.used_traffic;
  last_known_remaining = or_else live.data_limit (pos 0) -ℤ live.used_traffic;
  expires_at = live.expire;
  last_sync_at = some now;
}

-- `reseller.automation_hold or not reseller.rebecca_admin_username`, and the name where it does not hold.
unfoldable pub automated : Reseller → Option Text
automated r = elim r.rebecca_admin_username [
  | none ↦ none
  | some name ↦ if r.automation_hold || is_empty name then none else some name
]

-- `status in {ACTIVE, TRIAL, LOW_QUOTA}`
unfoldable pub is_current : ResellerStatus → Bool
is_current s =
    same_reseller_status s ResellerStatus.active
    || same_reseller_status s ResellerStatus.trial
    || same_reseller_status s ResellerStatus.low_quota

-- `status.lower() not in {"disabled", "inactive"}`, negated.
unfoldable pub is_disabled : Text → Bool
is_disabled status = one_of (lower status) (lit "disabled" ∷ lit "inactive" ∷ [])

unfoldable pub is_disabled_child : ℕ → ResellerUserCache → Bool
is_disabled_child reseller_id u = (u.reseller_id == reseller_id) && u.disabled_by_parent_reseller

unfoldable pub disable_children : ℕ → Database → Database
disable_children reseller_id db = record db {
  reseller_users =
      update_where
        (λ (u : ResellerUserCache).
          (u.reseller_id == reseller_id) && teq u.local_status (lit "ACTIVE"))
        (λ u. record u { disabled_by_parent_reseller = true }) db.reseller_users;
}

module _ {W : Type 0} (runner : Runner W) (now : Instant) where
  unfoldable pub warn :
      Reseller → Admin → Text → Option ℤ → (ℤ → Notice) → Action (Run W) (Unit {0})
  warn reseller live prefix none notice = pure tt
  warn reseller live prefix (some threshold) notice = do
    once runner now reseller.telegram_id (warning_key runner.str_time live prefix threshold)
        (notice threshold)
    pure tt

  -- A child that the reseller's expiry had disabled.
  unfoldable pub enable_child : Admin → ResellerUserCache → Option User → Action (Run W) (Unit {0})
  enable_child live cached none = pure tt
  enable_child live cached (some child) =
      if verified_owner child live.username
        && not (exhausted child.expire child.data_limit child.used_traffic now)
      then (do
        remote (enable_user runner.rebecca child.username)
        change (update_user_row cached.id (λ u. record u { disabled_by_parent_reseller = false })))
      else pure tt

  unfoldable pub restore_child : Admin → ResellerUserCache → Action (Run W) (Unit {0})
  restore_child live cached = do
    enable_child live cached (← remote (runner.rebecca.get_user cached.username))

  -- The branch of a reseller that is not exhausted.
  unfoldable pub restore_children : Reseller → Admin → Action (Run W) (Unit {0})
  restore_children reseller live r =
      if same_reseller_status reseller.status ResellerStatus.active && not runner.settings.dry_run
      then for_each (restore_child live)
          (select (is_disabled_child reseller.id) (database r).reseller_users) r
      else (ok tt, r)

  unfoldable pub disable_failed : Admin → Action (Run W) (Unit {0})
  disable_failed live =
      audit runner now (lit "RESELLER_DISABLE_VERIFY_FAILED") (lit "reseller") live.username
        (lit "ERROR") none none

  unfoldable pub confirm_disabled : Reseller → Admin → Option Admin → Action (Run W) (Unit {0})
  confirm_disabled reseller live none = disable_failed live
  confirm_disabled reseller live (some verified) =
      if not (is_disabled verified.status) then disable_failed live else (do
        change (update_reseller reseller.id (λ r. record r { status = ResellerStatus.expired }))
        audit runner now (lit "RESELLER_DISABLED") (lit "reseller") live.username (lit "OK") none
            none
        send runner reseller.telegram_id reseller_expired
        pure tt)

  unfoldable pub disable_users_too : Reseller → Admin → Bool → Action (Run W) (Unit {0})
  disable_users_too reseller live false = pure tt
  disable_users_too reseller live true = do
    remote (runner.rebecca.disable_admin_users live.username)
    change (disable_children reseller.id)

  unfoldable pub disable_reseller : Reseller → Admin → Action (Run W) (Unit {0})
  disable_reseller reseller live = do
    remote (runner.rebecca.disable_admin live.username)
    disable_users_too reseller live (← remote runner.rebecca.detects_admin_users_disable)
    confirm_disabled reseller live (← remote (runner.rebecca.get_admin live.username))

  -- The branches after the warnings.
  unfoldable pub settle_reseller : Reseller → Admin → Action (Run W) (Unit {0})
  settle_reseller reseller live =
      if not (exhausted live.expire live.data_limit live.used_traffic now)
      then restore_children reseller live
      else if not (is_current reseller.status)
      then pure tt
      else if runner.settings.dry_run || not runner.allow_disable_actions
      then audit runner now (lit "WOULD_DISABLE_RESELLER") (lit "reseller") live.username
          (lit "DRY_RUN") none none
      else disable_reseller reseller live

  unfoldable pub sync_live : List ℤ → List ℤ → Reseller → Option Admin → Action (Run W) (Unit {0})
  sync_live times traffics reseller none = pure tt
  sync_live times traffics reseller (some live) = do
    change (update_reseller reseller.id (synced now live))
    warn reseller live (lit "TIME_") (time_due now live.expire times) time_warning
    warn reseller live (lit "TRAFFIC_") (traffic_due live.data_limit live.used_traffic traffics)
        traffic_warning
    settle_reseller reseller live

  -- The handler of `get_admin`.
  unfoldable pub unavailable : Reseller → Exception → Action (Run W) (Option Admin)
  unavailable reseller e = do
    audit runner now (lit "REBECCA_UNAVAILABLE") (lit "reseller") (show_ℕ reseller.id) (lit "ERROR")
        none (some e.message)
    pure none

  unfoldable pub look_up : Reseller → Text → Action (Run W) (Option Admin)
  look_up reseller name = catch (remote (runner.rebecca.get_admin name)) (unavailable reseller)

  unfoldable pub sync_reseller : List ℤ → List ℤ → Reseller → Action (Run W) (Unit {0})
  sync_reseller times traffics reseller = elim (automated reseller) [
    | none ↦ pure tt
    | some name ↦ look_up reseller name >>= sync_live times traffics reseller
  ]

  -- The rows that are not suspended, as many as a batch holds.
  unfoldable pub resellers_to_sync : Run W → List Reseller
  resellers_to_sync r = take runner.batch_size (
      select (λ (x : Reseller). not (same_reseller_status x.status ResellerStatus.suspended))
        (database r).resellers)

  unfoldable pub sync_resellers : Action (Run W) (Unit {0})
  sync_resellers = do
    rows ← gets resellers_to_sync
    times ← read (λ (db : Database). time_thresholds runner.settings db.settings)
    traffics ← read (λ (db : Database). traffic_thresholds runner.settings db.settings)
    for_each (sync_reseller times traffics) rows
