-- ===== src/Scheduler/Users.antt =====
-- `_sync_users` of app/scheduler/jobs.py: the cache of a reseller's users, and the grace period of
-- those that are exhausted.
use rebecca_reseller_bot.Prelude.{
  ℕ, ◌+◌, Bool, true, false, ◌&&◌, not, Option, none, some, List, [], ◌∷◌, ◌++◌, first, take, ◌==◌,
  is_some, if◌then◌else◌,
}
use rebecca_reseller_bot.Prelude.Int.{ℤ, pos, pos_part}
use rebecca_reseller_bot.Prelude.Text.{Text, lit, teq, lower, one_of}
use rebecca_reseller_bot.Prelude.Time.{Instant}
use rebecca_reseller_bot.Prelude.Effects.{Action, ok, pure, catch, gets, ◌>>=◌, ◌>>◌}
use rebecca_reseller_bot.Rebecca.Models.{User}
use rebecca_reseller_bot.Rebecca.Interface.{disable_user, enable_user}
use rebecca_reseller_bot.Database.Models.{
  Reseller, ResellerStatus, ResellerUserCache, Database, same_reseller_status,
}
use rebecca_reseller_bot.Database.Settings.{grace_hours}
use rebecca_reseller_bot.Reseller.Quota.{exhausted}
use rebecca_reseller_bot.Users.Lifecycle.{verified_owner, deletion_time}
use rebecca_reseller_bot.Scheduler.State.{
  Run, Runner, user_expired, remote, change, database, read, for_each, audit, send, update_user_row,
}
use rebecca_reseller_bot.Scheduler.Resellers.{automated, is_disabled}

-- `status.lower() not in {"active", "enabled"}`, negated.
unfoldable pub is_enabled : Text → Bool
is_enabled status = one_of (lower status) (lit "active" ∷ lit "enabled" ∷ [])

unfoldable pub is_row_of : ℕ → Text → ResellerUserCache → Bool
is_row_of reseller_id username u = (u.reseller_id == reseller_id) && teq u.username username

-- A number that no row has.
unfoldable pub next_id : List ResellerUserCache → ℕ
next_id [] = 1
next_id (u ∷ us) = let n = next_id us in n + u.id

unfoldable pub new_row : Instant → ℕ → Reseller → Text → User → ResellerUserCache
new_row now id reseller name live = record {
  id = id;
  reseller_id = reseller.id;
  username = live.username;
  rebecca_admin_username = name;
  status = live.status;
  expire = none;
  data_limit = none;
  used_traffic = pos 0;
  first_seen_at = now;
  last_seen_at = now;
  local_status = lit "ACTIVE";
  expired_detected_at = none;
  delete_after = none;
  warning_sent_at = none;
  deletion_hold = false;
  disabled_by_parent_reseller = false;
  disabled_by_own_expiry = false;
}

-- The columns that every sync writes.
unfoldable pub seen : Instant → User → ResellerUserCache → ResellerUserCache
seen now live u = record u {
  status = live.status;
  expire = live.expire;
  data_limit = live.data_limit;
  used_traffic = live.used_traffic;
  last_seen_at = now;
}

-- The start of the grace period.
unfoldable pub expiring : Instant → ℤ → ResellerUserCache → ResellerUserCache
expiring now hours u = record u {
  expired_detected_at = some now;
  delete_after = some (deletion_time now (pos_part hours));
  local_status = lit "EXPIRED";
}

-- The end of the grace period of a renewed user.
unfoldable pub kept : ResellerUserCache → ResellerUserCache
kept u = record u {
  expired_detected_at = none;
  delete_after = none;
  warning_sent_at = none;
  disabled_by_own_expiry = false;
  local_status = lit "ACTIVE";
}

module _ {W : Type 0} (runner : Runner W) (now : Instant) where
  unfoldable pub announce_expiry : ℤ → Reseller → User → Action (Run W) (Unit {0})
  announce_expiry hours reseller live = do
    audit runner now (lit "USER_DELETE_SCHEDULED") (lit "user") live.username (lit "OK") none none
    send runner reseller.telegram_id (user_expired live.username hours)
    pure tt

  -- The read after `disable_user`.
  unfoldable pub confirm_user_disabled :
      ℤ → Reseller → ResellerUserCache → User → Option User → Action (Run W) (Unit {0})
  confirm_user_disabled hours reseller cached live found =
      if (elim found [ none ↦ false | some user ↦ is_disabled user.status ])
      then (do
        change (update_user_row cached.id (λ u. record u { disabled_by_own_expiry = true }))
        announce_expiry hours reseller live)
      else audit runner now (lit "USER_DISABLE_VERIFY_FAILED") (lit "user") live.username
          (lit "ERROR") none none

  unfoldable pub expire_user : ℤ → Reseller → ResellerUserCache → User → Action (Run W) (Unit {0})
  expire_user hours reseller cached live = do
    change (update_user_row cached.id (expiring now hours))
    if not runner.settings.dry_run && runner.allow_disable_actions
        then (do
          remote (disable_user runner.rebecca live.username)
          confirm_user_disabled hours reseller cached live
              (← remote (runner.rebecca.get_user live.username)))
        else announce_expiry hours reseller live

  unfoldable pub cancel_deletion : ResellerUserCache → User → Action (Run W) (Unit {0})
  cancel_deletion cached live = do
    change (update_user_row cached.id kept)
    audit runner now (lit "USER_DELETE_CANCELLED") (lit "user") live.username (lit "RENEWED") none
        none

  -- The read after `enable_user`.
  unfoldable pub confirm_user_enabled :
      ResellerUserCache → User → Option User → Action (Run W) (Unit {0})
  confirm_user_enabled cached live found =
      if (elim found [ none ↦ false | some user ↦ is_enabled user.status ])
      then cancel_deletion cached live
      else audit runner now (lit "USER_RENEW_ENABLE_VERIFY_FAILED") (lit "user") live.username
          (lit "ERROR") none none

  unfoldable pub renew_user : Reseller → ResellerUserCache → User → Action (Run W) (Unit {0})
  renew_user reseller cached live =
      if cached.disabled_by_own_expiry
        && same_reseller_status reseller.status ResellerStatus.active
        && not runner.settings.dry_run
      then (do
        remote (enable_user runner.rebecca live.username)
        confirm_user_enabled cached live (← remote (runner.rebecca.get_user live.username)))
      else cancel_deletion cached live

  -- The row of the user, which is added where there is none.
  unfoldable pub cached_row : Reseller → Text → User → Action (Run W) ResellerUserCache
  cached_row reseller name live r =
      elim (first (is_row_of reseller.id live.username) (database r).reseller_users) [
        | some cached ↦ (ok cached, r)
        | none ↦
            let row = new_row now (next_id (database r).reseller_users) reseller name live in
            (change (λ db. record db { reseller_users = db.reseller_users ++ (row ∷ []) })
                >> pure row)
              r
      ]

  -- What follows from the quota and from the row.
  unfoldable pub settle_user : ℤ → Reseller → ResellerUserCache → User → Action (Run W) (Unit {0})
  settle_user hours reseller cached live =
      if exhausted live.expire live.data_limit live.used_traffic now
        && not (is_some cached.expired_detected_at)
      then expire_user hours reseller cached live
      else if not (exhausted live.expire live.data_limit live.used_traffic now)
          && is_some cached.delete_after
      then renew_user reseller cached live
      else pure tt

  unfoldable pub sync_cached : ℤ → Reseller → User → ResellerUserCache → Action (Run W) (Unit {0})
  sync_cached hours reseller live cached = do
    change (update_user_row cached.id (seen now live))
    settle_user hours reseller cached live

  unfoldable pub sync_user : ℤ → Reseller → Text → User → Action (Run W) (Unit {0})
  sync_user hours reseller name live =
      if not (verified_owner live name)
      then pure tt
      else cached_row reseller name live >>= sync_cached hours reseller live

  -- `list_admin_users` in its handler: what it raises skips the reseller.
  unfoldable pub users_of : Text → Action (Run W) (List User)
  users_of name = catch (remote (runner.rebecca.list_admin_users name)) (λ _. pure [])

  unfoldable pub sync_users_of : ℤ → Reseller → Action (Run W) (Unit {0})
  sync_users_of hours reseller = elim (automated reseller) [
    | none ↦ pure tt
    | some name ↦ users_of name >>= λ users.
        for_each (sync_user hours reseller name) (take runner.batch_size users)
  ]

  unfoldable pub sync_users : Action (Run W) (Unit {0})
  sync_users = do
    rows ← gets (λ r. take runner.batch_size (database r).resellers)
    hours ← read (λ (db : Database). grace_hours runner.settings db.settings)
    for_each (sync_users_of hours) rows
