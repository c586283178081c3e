-- ===== src/Scheduler/Deletions.antt =====
-- `_due_deletions` of app/scheduler/jobs.py: the warning before a deletion, and the deletion.
use rebecca_reseller_bot.Prelude.{
  ◌+◌, ◌-◌, ◌*◌, Bool, true, false, ◌&&◌, ◌||◌, not, Option, none, some, first, select, take, ltb,
  leb, ◌==◌, is_some, if◌then◌else◌,
}
use rebecca_reseller_bot.Prelude.Text.{lit}
use rebecca_reseller_bot.Prelude.Time.{Instant, hour}
use rebecca_reseller_bot.Prelude.Effects.{Action, ok, pure, gets, ◌>>=◌, ◌>>◌}
use rebecca_reseller_bot.Database.Models.{Reseller, ResellerUserCache}
use rebecca_reseller_bot.Users.Lifecycle.{
  Deletion, DeleteOutcome, deleted, outcome_text, safe_delete,
}
use rebecca_reseller_bot.Scheduler.State.{
  Run, Runner, user_deletion_soon, user_deleted, remote, change, database, for_each, audit, send,
  update_user_row,
}

-- `delete_after <= now + timedelta(hours=24)`; SQL leaves out the rows where it is NULL.
unfoldable pub is_due_soon : Instant → ResellerUserCache → Bool
is_due_soon now u = elim u.delete_after [ none ↦ false | some at ↦ leb at (now + 24 * hour) ]

-- `0 < hours_left <= 24 and cached.warning_sent_at is None`
unfoldable pub wants_warning : Instant → Instant → ResellerUserCache → Bool
wants_warning now at cached =
    ltb now at && leb (at - now) (24 * hour) && not (is_some cached.warning_sent_at)

unfoldable pub gone : ResellerUserCache → ResellerUserCache
gone u = record u { local_status = lit "DELETED"; delete_after = none }

module _ {W : Type 0} (runner : Runner W) (now : Instant) where
  -- The call's arguments; `safe_delete` is called without a lock flag.
  unfoldable pub deletion : Reseller → ResellerUserCache → Instant → Deletion
  deletion reseller cached at = record {
    username = cached.username;
    owner = cached.rebecca_admin_username;
    delete_after = at;
    now = now;
    policy = record {
      dry_run = runner.settings.dry_run;
      destructive_actions = runner.destructive_actions;
      allow_delete_actions = runner.allow_delete_actions;
    };
    hold = cached.deletion_hold || reseller.automation_hold;
    is_locked = false;
  }

  unfoldable pub note_warning : ResellerUserCache → Bool → Action (Run W) (Unit {0})
  note_warning cached false = pure tt
  note_warning cached true =
      change (update_user_row cached.id (λ u. record u { warning_sent_at = some now }))

  unfoldable pub warn_deletion : Reseller → ResellerUserCache → Instant → Action (Run W) (Unit {0})
  warn_deletion reseller cached at =
      if wants_warning now at cached
      then send runner reseller.telegram_id (user_deletion_soon cached.username)
        >>= note_warning cached
      else pure tt

  unfoldable pub note_outcome :
      Reseller → ResellerUserCache → DeleteOutcome → Action (Run W) (Unit {0})
  note_outcome reseller cached deleted = do
    change (update_user_row cached.id gone)
    send runner reseller.telegram_id (user_deleted cached.username)
    pure tt
  note_outcome reseller cached _ = pure tt

  unfoldable pub audit_outcome :
      Reseller → ResellerUserCache → DeleteOutcome → Action (Run W) (Unit {0})
  audit_outcome reseller cached outcome = do
    audit runner now (outcome_text outcome) (lit "user") cached.username (outcome_text outcome) none
        none
    note_outcome reseller cached outcome

  unfoldable pub delete_due : ResellerUserCache → Reseller → Instant → Action (Run W) (Unit {0})
  delete_due cached reseller at = do
    warn_deletion reseller cached at
    audit_outcome reseller cached
        (← remote (safe_delete runner.rebecca (deletion reseller cached at)))

  unfoldable pub reseller_of : ResellerUserCache → Run W → Option Reseller
  reseller_of cached r = first (λ (x : Reseller). x.id == cached.reseller_id) (database r).resellers

  unfoldable pub due_deletion : ResellerUserCache → Action (Run W) (Unit {0})
  due_deletion cached r = elim (reseller_of cached r) [
    | none ↦ (ok tt, r)
    | some reseller ↦ elim cached.delete_after [
      | none ↦ (ok tt, r)
      | some at ↦ delete_due cached reseller at r
    ]
  ]

  unfoldable pub due_deletions : Action (Run W) (Unit {0})
  due_deletions = do
    rows ← gets (λ r. take runner.batch_size (select (is_due_soon now) (database r).reseller_users))
    for_each due_deletion rows
