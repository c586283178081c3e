-- ===== src/Reseller/Trial.antt =====
-- app/reseller/trial.py: the reservation of a trial.
pub mod OnePerCustomer
use rebecca_reseller_bot.Prelude.{
  ℕ, ◌+◌, ◌*◌, Bool, true, false, ◌||◌, Option, none, some, List, [], ◌∷◌, ◌++◌, any, ◌==◌,
  if◌then◌else◌,
}
use rebecca_reseller_bot.Prelude.Text.{Text, lit, teq}
use rebecca_reseller_bot.Prelude.Time.{Instant, hour}
use rebecca_reseller_bot.Prelude.Sorting.{opt_eq, show_ℕ}
use rebecca_reseller_bot.Prelude.Effects.{Exception, is_verification}
use rebecca_reseller_bot.Database.Models.{TrialRecord, AuditLog, Database}
use rebecca_reseller_bot.Database.Session.{Session, write, rollback}

-- The two unique columns of the table, `telegram_id` and `admin_username`.
unfoldable pub conflicts : ℕ → Text → TrialRecord → Bool
conflicts telegram_id username record_ =
    record_.telegram_id == telegram_id || opt_eq teq record_.admin_username (some username)

unfoldable pub new_trial : ℕ → ℕ → Text → ℕ → Instant → TrialRecord
new_trial id telegram_id username hours now = record {
  id = id;
  telegram_id = telegram_id;
  used_at = now;
  admin_username = some username;
  expires_at = some (now + hours * hour);
  status = lit "PROVISIONING";
}

-- `reserve_trial`; `id` is the primary key that the database gives.
unfoldable pub reserve_trial : ℕ → ℕ → Text → ℕ → Instant → Session → Option TrialRecord × Session
reserve_trial id telegram_id username hours now s =
    let row = new_trial id telegram_id username hours now in
    if any (conflicts telegram_id username) s.written.trial_records then (none, rollback s) else (
      some row,
      write (λ (db : Database). record db { trial_records = db.trial_records ++ (row ∷ []) }) s,
    )

unfoldable pub failure_status : Exception → Text
failure_status error = if is_verification error.kind then lit "FAILED" else lit "PROVISIONING"

unfoldable pub record_dry_run_request : ℕ → Instant → Session → Session
record_dry_run_request telegram_id now = write (λ (db : Database). record db {
  audit_logs =
      db.audit_logs
      ++ (record {
        timestamp = now;
        actor = show_ℕ telegram_id;
        actor_type = lit "TELEGRAM_USER";
        action = lit "WOULD_PROVISION_TRIAL";
        target_type = lit "trial";
        target_identifier = show_ℕ telegram_id;
        order_id = none;
        result = lit "DRY_RUN";
        error = none;
      }
          ∷ []);
})
