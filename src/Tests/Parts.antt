-- ===== src/Tests/Parts.antt =====
-- Quotas, locks, settings, credentials, trials, routes and warnings at concrete inputs.
use rebecca_reseller_bot.Prelude.{
  ℕ, ◌+◌, ◌*◌, ◌≤◌, ◌<◌, ◌≡◌, ◌≢◌, ◌↔◌, ◌⊎◌, inl, inr, refl, Bool, true, false, Option, none, some,
  List, [], ◌∷◌, All, length, any, arith, ◌==◌, if◌then◌else◌, or_else, ◌++◌,
}
use rebecca_reseller_bot.Prelude.Int.{ℤ, pos, ◌≤ℤ◌, ◌<ℤ◌, ◌+ℤ◌, ◌-ℤ◌, max_ℤ}
use rebecca_reseller_bot.Prelude.Text.{Text, lit, contains}
use rebecca_reseller_bot.Prelude.Json.{str, obj, Fields, end, field, get_field}
use rebecca_reseller_bot.Prelude.Time.{Instant, day}
use rebecca_reseller_bot.Prelude.Effects.{ok}
use rebecca_reseller_bot.Database.Session.{Session, commit}
use rebecca_reseller_bot.Database.Locks.{acquire, release, purge, new_lock, with_locks}
use rebecca_reseller_bot.Database.Locks.Exclusion.{Refused, acquire_excludes, acquire-release}
use rebecca_reseller_bot.Database.Settings.{
  Settings, grace_hours, time_thresholds, traffic_thresholds, operations_mode, set_operations_mode,
  put_setting,
}
use rebecca_reseller_bot.Database.Settings.Ranges.{
  IsThresholds, traffic_thresholds-ok, operations_mode-set,
}
use rebecca_reseller_bot.Reseller.Quota.{renewal_expiry, renewal_data_limit, exhausted}
use rebecca_reseller_bot.Reseller.Quota.Laws.{renewal-not_exhausted, exhausted_iff}
use rebecca_reseller_bot.Reseller.Credentials.{generate_password, username_candidate}
use rebecca_reseller_bot.Reseller.Credentials.Password.{
  generate_password-forbidden, generate_password_total,
}
use rebecca_reseller_bot.Reseller.Credentials.Username.{IsSafe, username_candidate-IsSafe}
use rebecca_reseller_bot.Reseller.Trial.{reserve_trial, new_trial}
use rebecca_reseller_bot.Reseller.Trial.OnePerCustomer.{IsUnique, reserve_trial-IsUnique}
use rebecca_reseller_bot.Rebecca.Capabilities.{
  advertised_path, operation_candidates, Advertised, advertised_path-Advertised,
}
use rebecca_reseller_bot.Scheduler.Resellers.{time_due}
use rebecca_reseller_bot.Scheduler.Thresholds.{time_due-greatest}
use rebecca_reseller_bot.Tests.World.{noon, late, session, tables}

unfoldable defaults : Settings
defaults = record {
  dry_run = true;
  user_delete_grace_hours = pos 72;
  trial_duration_hours = pos 24;
  trial_traffic_gb = pos 10;
  time_warning_thresholds = pos 7 ∷ pos 3 ∷ pos 1 ∷ [];
  traffic_warning_thresholds = pos 20 ∷ pos 10 ∷ pos 5 ∷ [];
}

renewal-not_exhausted_example :
    exhausted
      (some (renewal_expiry (some 5) noon 30))
      (some (renewal_data_limit (some (pos 10)) (pos 12) (pos 100)))
      (pos 12)
      noon
    ≡ false
renewal-not_exhausted_example =
    renewal-not_exhausted (some 5) (some (pos 10)) (pos 12) (pos 100) noon 30 (omega arith)
      (omega arith) (omega arith)

exhausted_iff_example : (exhausted (some 7) (some (pos 10)) (pos 10) 5 ≡ true) ↔ (
    ((t : Instant) × (some 7 ≡ some t) × (t ≤ 5))
    ⊎ ((l : ℤ) × (some (pos 10) ≡ some l) × (pos 0 <ℤ l) × (l ≤ℤ pos 10)))
exhausted_iff_example = exhausted_iff (some 7) (some (pos 10)) (pos 10) 5

acquire_excludes_example :
    let held = (acquire (lit "order:5") 300 noon session).1 in
    ((acquire (lit "order:5") 300 late held).0 ≡ false)
    × Refused (lit "order:5") ((300, late) ∷ (60, late + 1) ∷ []) (commit held)
unfolding acquire session tables lit purge rebecca_reseller_bot.Database.Locks.holds
acquire_excludes_example =
    acquire_excludes (lit "order:5") 300 300 noon late ((300, late) ∷ (60, late + 1) ∷ []) session
      refl (omega arith) (omega arith, (omega arith, tt))

acquire-release_example :
    (acquire (lit "order:5") 300 noon (release (lit "order:5") session)).0 ≡ true
acquire-release_example = acquire-release (lit "order:5") 300 noon session

traffic_thresholds-ok_example :
    IsThresholds (pos 20 ∷ pos 10 ∷ pos 5 ∷ [])
    × All (λ v. v ≤ℤ pos 100) (pos 20 ∷ pos 10 ∷ pos 5 ∷ [])
unfolding traffic_thresholds defaults rebecca_reseller_bot.Database.Settings.capped
    rebecca_reseller_bot.Database.Settings.thresholds
    rebecca_reseller_bot.Database.Settings.threshold_values
    rebecca_reseller_bot.Database.Settings.stored rebecca_reseller_bot.Database.Settings.positive
    rebecca_reseller_bot.Database.Settings.descending
    rebecca_reseller_bot.Database.Settings.insert_descending
traffic_thresholds-ok_example =
    traffic_thresholds-ok defaults [] (pos 20 ∷ pos 10 ∷ pos 5 ∷ []) refl

operations_mode-set_example :
    operations_mode defaults (put_setting (lit "operations_mode") (str (lit "live")) [])
    ≡ ok (lit "live")
unfolding set_operations_mode lit rebecca_reseller_bot.Prelude.Text.teq
operations_mode-set_example =
    operations_mode-set defaults (lit "live") []
      (put_setting (lit "operations_mode") (str (lit "live")) []) refl

time_due-greatest_example : All (λ v. v ≤ℤ pos 7) (pos 7 ∷ pos 3 ∷ pos 1 ∷ [])
unfolding time_thresholds defaults time_due rebecca_reseller_bot.Database.Settings.thresholds
    rebecca_reseller_bot.Database.Settings.threshold_values
    rebecca_reseller_bot.Database.Settings.stored rebecca_reseller_bot.Database.Settings.positive
    rebecca_reseller_bot.Database.Settings.descending
    rebecca_reseller_bot.Database.Settings.insert_descending rebecca_reseller_bot.Prelude.Int.◌*ℤ◌
time_due-greatest_example =
    time_due-greatest defaults [] (pos 7 ∷ pos 3 ∷ pos 1 ∷ []) noon (some (noon + day)) (pos 7) refl
      refl

generate_password-forbidden_example :
    All (λ value. (value ≡ []) ⊎ (contains (lit "x9") value ≡ false)) (lit "secret" ∷ [] ∷ [])
unfolding generate_password lit rebecca_reseller_bot.Reseller.Credentials.draw_password
    rebecca_reseller_bot.Reseller.Credentials.is_clear rebecca_reseller_bot.Prelude.Text.one_of
    rebecca_reseller_bot.Reseller.Credentials.blocked_values rebecca_reseller_bot.Prelude.Text.teq
    contains
generate_password-forbidden_example =
    generate_password-forbidden 3 (λ _. lit "x9") (lit "secret" ∷ [] ∷ []) (lit "x9") refl

reserve_trial-IsUnique_example :
    IsUnique (reserve_trial 1 77 (lit "trial_1") 24 noon session).1.written.trial_records
unfolding session tables
reserve_trial-IsUnique_example = reserve_trial-IsUnique 1 77 (lit "trial_1") 24 noon session tt tt

unfoldable after_trial : Session
unfolding reserve_trial session tables new_trial
after_trial = (reserve_trial 1 77 (lit "trial_1") 24 noon session).1

unfoldable schema_paths : Fields
unfolding lit
schema_paths =
    field (lit "/api/services") (obj (field (lit "get") (obj end) end))
      (field (lit "/api/admin") (obj (field (lit "post") (obj end) end)) end)

advertised_path-Advertised_example :
    Advertised schema_paths operation_candidates (lit "services_list") (lit "/api/services")
unfolding advertised_path schema_paths lit get_field rebecca_reseller_bot.Prelude.Text.teq
    rebecca_reseller_bot.Rebecca.Capabilities.path_of
    rebecca_reseller_bot.Rebecca.Capabilities.resolve_operation_paths
    rebecca_reseller_bot.Rebecca.Capabilities.resolve operation_candidates
    rebecca_reseller_bot.Rebecca.Capabilities.is_advertised
advertised_path-Advertised_example =
    advertised_path-Advertised (field (lit "paths") (obj schema_paths) end) schema_paths
      (lit "services_list") (lit "/api/services") refl refl

generate_password_total_example :
    (p : Text) × (generate_password 3
        (λ i. if i == 0 then lit "secret" else lit "x9")
        (lit "secret" ∷ [] ∷ [])
      ≡ some p)
unfolding lit contains
generate_password_total_example =
    generate_password_total 3 (λ i. if i == 0 then lit "secret" else lit "x9")
      (lit "secret" ∷ [] ∷ []) 1 (omega arith) (inr refl, (inl refl, tt))

username_candidate-IsSafe_example : IsSafe (username_candidate (some (lit "@Ali B")) none 5)
username_candidate-IsSafe_example = username_candidate-IsSafe (some (lit "@Ali B")) none 5
