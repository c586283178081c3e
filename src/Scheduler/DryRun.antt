-- ===== src/Scheduler/DryRun.antt =====
-- The lifecycle jobs in the dry run: which of their calls reach Rebecca.
use rebecca_reseller_bot.Prelude.{
  ◌≡◌, refl, Bool, true, false, Option, none, some, List, [], first, take, select, inl, inr,
  Bool-cases, Option-cases, arith,
}
use rebecca_reseller_bot.Prelude.Int.{ℤ}
use rebecca_reseller_bot.Prelude.Text.{Text, lit}
use rebecca_reseller_bot.Prelude.Time.{Instant}
use rebecca_reseller_bot.Prelude.Effects.{pure, gets, ◌>>=◌, ◌>>◌}
use rebecca_reseller_bot.Rebecca.Models.{Admin, User}
use rebecca_reseller_bot.Database.Models.{Database, Reseller, ResellerUserCache}
use rebecca_reseller_bot.Database.Settings.{time_thresholds, traffic_thresholds, grace_hours}
use rebecca_reseller_bot.Users.Lifecycle.{
  Deletion, DeleteOutcome, deleted, outcome_text, blocked, safe_delete, verified_owner,
}
use rebecca_reseller_bot.Scheduler.State.{
  Runner, Notice, time_warning, traffic_warning, user_expired, user_deletion_soon, user_deleted,
  update_reseller, update_user_row, remote, change, database, read, for_each, audit, send,
}
use rebecca_reseller_bot.Scheduler.Notifications.{once}
use rebecca_reseller_bot.Scheduler.Keeps.{
  Keeps, ReadsKeep, >>=-Keeps, >>-Keeps, catch-Keeps, for_each-Keeps, send-Keeps, once-Keeps,
}
use rebecca_reseller_bot.Scheduler.Resellers.{
  warn, restore_children, settle_reseller, sync_live, look_up, unavailable, automated,
  sync_reseller, resellers_to_sync, sync_resellers, synced, time_due, traffic_due, warning_key,
}
use rebecca_reseller_bot.Scheduler.Users.{
  announce_expiry, expire_user, cancel_deletion, renew_user, cached_row, settle_user, sync_cached,
  sync_user, users_of, sync_users_of, sync_users, is_row_of, expiring, seen,
}
use rebecca_reseller_bot.Scheduler.Deletions.{
  deletion, note_warning, warn_deletion, note_outcome, audit_outcome, delete_due, due_deletion,
  due_deletions, wants_warning, reseller_of, is_due_soon, gone,
}
use rebecca_reseller_bot.Scheduler.Sequence.{sync_jobs}

module _ {W M : Type 0} (measure : W → M) (runner : Runner W) (laws : ReadsKeep measure runner)
    (dry : runner.settings.dry_run ≡ true) (now : Instant) where
  warn-Keeps :
      (reseller : Reseller) (live : Admin) (prefix : Text) (threshold : Option ℤ)
      (notice : ℤ → Notice)
      → Keeps measure (warn runner now reseller live prefix threshold notice)
  unfolding warn
  warn-Keeps reseller live prefix none notice r = refl
  warn-Keeps reseller live prefix (some threshold) notice r =
      let key = warning_key runner.str_time live prefix threshold in
      >>-Keeps measure (once runner now reseller.telegram_id key (notice threshold)) (pure tt)
        (once-Keeps measure runner laws now reseller.telegram_id key (notice threshold)) (λ _. refl)
        r

  settle_reseller-Keeps :
      (reseller : Reseller) (live : Admin)
      → Keeps measure (settle_reseller runner now reseller live)
  unfolding settle_reseller restore_children audit
  settle_reseller-Keeps reseller live r = ground (arith, dry)

  sync_live-Keeps :
      (times traffics : List ℤ) (reseller : Reseller) (found : Option Admin)
      → Keeps measure (sync_live runner now times traffics reseller found)
  unfolding sync_live
  sync_live-Keeps times traffics reseller none r = refl
  sync_live-Keeps times traffics reseller (some live) r =
      let last = settle_reseller runner now reseller live in
      let traffic = traffic_due live.data_limit live.used_traffic traffics in
      let warn_traffic = warn runner now reseller live (lit "TRAFFIC_") traffic traffic_warning in
      let time = time_due now live.expire times in
      let warn_time = warn runner now reseller live (lit "TIME_") time time_warning in
      let keep = change (update_reseller reseller.id (synced now live)) in
      let end = settle_reseller-Keeps reseller live in
      >>-Keeps measure keep (warn_time >> (warn_traffic >> last)) (λ _. refl)
        (>>-Keeps measure warn_time (warn_traffic >> last)
          (warn-Keeps reseller live _ time time_warning)
          (>>-Keeps measure warn_traffic last (warn-Keeps reseller live _ traffic traffic_warning)
            end))
        r

  sync_reseller-Keeps :
      (times traffics : List ℤ) (reseller : Reseller)
      → Keeps measure (sync_reseller runner now times traffics reseller)
  unfolding sync_reseller look_up unavailable audit
  sync_reseller-Keeps times traffics reseller r = elim (Option-cases (automated reseller)) [
    | inl e ↦ rw (e, sync_reseller) refl
    | inr (name, e) ↦
        rw (e, sync_reseller)
          (>>=-Keeps measure (look_up runner now reseller name)
            (sync_live runner now times traffics reseller)
            (catch-Keeps measure (remote (runner.rebecca.get_admin name))
              (unavailable runner now reseller) (λ q. laws.get_admin name q.world) (λ _ _. refl))
            (sync_live-Keeps times traffics reseller) r)
  ]

  sync_resellers-Keeps : Keeps measure (sync_resellers runner now)
  unfolding sync_resellers
  sync_resellers-Keeps r =
      let times_of = λ (db : Database). time_thresholds runner.settings db.settings in
      let traffics_of = λ (db : Database). traffic_thresholds runner.settings db.settings in
      let with_rows = λ (times : List ℤ) (rows : List Reseller) (traffics : List ℤ).
        for_each (sync_reseller runner now times traffics) rows in
      >>=-Keeps measure (gets (resellers_to_sync runner now))
        (λ rows. read times_of >>= λ times. read traffics_of >>= with_rows times rows) (λ _. refl)
        (λ rows.
          >>=-Keeps measure (read times_of) (λ times. read traffics_of >>= with_rows times rows)
            (λ _. refl)
            (λ times.
              >>=-Keeps measure (read traffics_of) (with_rows times rows) (λ _. refl)
                (λ traffics.
                  for_each-Keeps measure (sync_reseller runner now times traffics) rows
                    (sync_reseller-Keeps times traffics))))
        r

  announce_expiry-Keeps :
      (hours : ℤ) (reseller : Reseller) (live : User)
      → Keeps measure (announce_expiry runner now hours reseller live)
  unfolding announce_expiry audit
  announce_expiry-Keeps hours reseller live r =
      let notice = user_expired live.username hours in
      let out = send runner reseller.telegram_id notice in
      let log =
        audit runner now (lit "USER_DELETE_SCHEDULED") (lit "user") live.username (lit "OK") none
          none in
      >>-Keeps measure log (out >> pure tt) (λ _. refl)
        (>>-Keeps measure out (pure tt) (send-Keeps measure runner laws reseller.telegram_id notice)
          (λ _. refl))
        r

  expire_user-Keeps :
      (hours : ℤ) (reseller : Reseller) (cached : ResellerUserCache) (live : User)
      → Keeps measure (expire_user runner now hours reseller cached live)
  unfolding expire_user
  expire_user-Keeps hours reseller cached live r =
      let keep = change (update_user_row cached.id (expiring now hours)) in
      ground (arith, dry, announce_expiry-Keeps hours reseller live (keep r).1)

  renew_user-Keeps :
      (reseller : Reseller) (cached : ResellerUserCache) (live : User)
      → Keeps measure (renew_user runner now reseller cached live)
  unfolding renew_user cancel_deletion audit
  renew_user-Keeps reseller cached live r = ground (arith, dry)

  settle_user-Keeps :
      (hours : ℤ) (reseller : Reseller) (cached : ResellerUserCache) (live : User)
      → Keeps measure (settle_user runner now hours reseller cached live)
  unfolding settle_user
  settle_user-Keeps hours reseller cached live r = ground (
    arith,
    expire_user-Keeps hours reseller cached live r,
    renew_user-Keeps reseller cached live r,
  )

  cached_row-Keeps :
      (reseller : Reseller) (name : Text) (live : User)
      → Keeps measure (cached_row runner now reseller name live)
  unfolding cached_row
  cached_row-Keeps reseller name live r =
      elim (Option-cases
        (first (is_row_of reseller.id live.username) (database r).reseller_users)) [
          | inl e ↦ rw (e, cached_row) refl
          | inr (_, e) ↦ rw (e, cached_row) refl
        ]

  sync_user-Keeps :
      (hours : ℤ) (reseller : Reseller) (name : Text) (live : User)
      → Keeps measure (sync_user runner now hours reseller name live)
  unfolding sync_user sync_cached
  sync_user-Keeps hours reseller name live r = elim (Bool-cases (verified_owner live name)) [
    | inr e ↦ rw (e, sync_user) refl
    | inl e ↦
        rw (e, sync_user)
          (>>=-Keeps measure (cached_row runner now reseller name live)
            (sync_cached runner now hours reseller live) (cached_row-Keeps reseller name live)
            (λ cached q.
              settle_user-Keeps hours reseller cached live
                (change (update_user_row cached.id (seen now live)) q).1)
            r)
  ]

  sync_users_of-Keeps :
      (hours : ℤ) (reseller : Reseller) → Keeps measure (sync_users_of runner now hours reseller)
  unfolding sync_users_of users_of
  sync_users_of-Keeps hours reseller r = elim (Option-cases (automated reseller)) [
    | inl e ↦ rw (e, sync_users_of) refl
    | inr (name, e) ↦
        rw (e, sync_users_of)
          (>>=-Keeps measure (users_of runner now name)
            (λ users.
              for_each (sync_user runner now hours reseller name) (take runner.batch_size users))
            (catch-Keeps measure (remote (runner.rebecca.list_admin_users name)) (λ _. pure [])
              (λ q. laws.list_users name q.world) (λ _ _. refl))
            (λ users.
              for_each-Keeps measure (sync_user runner now hours reseller name)
                (take runner.batch_size users) (sync_user-Keeps hours reseller name))
            r)
  ]

  sync_users-Keeps : Keeps measure (sync_users runner now)
  unfolding sync_users
  sync_users-Keeps r =
      let hours_of = λ (db : Database). grace_hours runner.settings db.settings in
      let with_rows =
        λ (rows : List Reseller) (hours : ℤ). for_each (sync_users_of runner now hours) rows in
      >>=-Keeps measure (gets (λ q. take runner.batch_size (database q).resellers))
        (λ rows. read hours_of >>= with_rows rows) (λ _. refl)
        (λ rows.
          >>=-Keeps measure (read hours_of) (with_rows rows) (λ _. refl)
            (λ hours.
              for_each-Keeps measure (sync_users_of runner now hours) rows
                (sync_users_of-Keeps hours)))
        r

  note_warning-Keeps :
      (cached : ResellerUserCache) (sent : Bool)
      → Keeps measure (note_warning runner now cached sent)
  unfolding note_warning
  note_warning-Keeps cached true r = refl
  note_warning-Keeps cached false r = refl

  warn_deletion-Keeps :
      (reseller : Reseller) (cached : ResellerUserCache) (at : Instant)
      → Keeps measure (warn_deletion runner now reseller cached at)
  unfolding warn_deletion
  warn_deletion-Keeps reseller cached at r = elim (Bool-cases (wants_warning now at cached)) [
    | inr e ↦ rw (e, warn_deletion) refl
    | inl e ↦
        let notice = user_deletion_soon cached.username in
        rw (e, warn_deletion)
          (>>=-Keeps measure (send runner reseller.telegram_id notice)
            (note_warning runner now cached)
            (send-Keeps measure runner laws reseller.telegram_id notice) (note_warning-Keeps cached)
            r)
  ]

  audit_outcome-Keeps :
      (reseller : Reseller) (cached : ResellerUserCache) (outcome : DeleteOutcome)
      → Keeps measure (audit_outcome runner now reseller cached outcome)
  unfolding audit_outcome note_outcome audit
  audit_outcome-Keeps reseller cached deleted r =
      let notice = user_deleted cached.username in
      let out = send runner reseller.telegram_id notice in
      let log =
        audit runner now (outcome_text deleted) (lit "user") cached.username (outcome_text deleted)
          none none in
      let mark = change (update_user_row cached.id gone) in
      >>-Keeps measure log (mark >> (out >> pure tt)) (λ _. refl)
        (>>-Keeps measure mark (out >> pure tt) (λ _. refl)
          (>>-Keeps measure out (pure tt)
            (send-Keeps measure runner laws reseller.telegram_id notice) (λ _. refl)))
        r
  audit_outcome-Keeps reseller cached _ r = refl

  -- In the dry run `safe_delete` stops before it reads.
  safe_delete-dry :
      (d : Deletion)
      → d.policy.dry_run ≡ true
      → (w : W) → measure (safe_delete runner.rebecca d w).1 ≡ measure w
  unfolding safe_delete blocked
  safe_delete-dry d h w = ground (arith, h)

  due_deletion-Keeps : (cached : ResellerUserCache) → Keeps measure (due_deletion runner now cached)
  unfolding due_deletion delete_due
  due_deletion-Keeps cached r = elim (Option-cases (reseller_of runner now cached r)) [
    | inl e ↦ rw (e, due_deletion) refl
    | inr (reseller, e) ↦ elim (Option-cases cached.delete_after) [
      | inl f ↦ rw (e, f, due_deletion) refl
      | inr (at, f) ↦
          let d = deletion runner now reseller cached at in
          let delete = remote (safe_delete runner.rebecca d) in
          let last = audit_outcome runner now reseller cached in
          rw (e, f, due_deletion)
            (>>-Keeps measure (warn_deletion runner now reseller cached at) (delete >>= last)
              (warn_deletion-Keeps reseller cached at)
              (>>=-Keeps measure delete last
                (λ q. safe_delete-dry d (unfold deletion in dry) q.world)
                (audit_outcome-Keeps reseller cached))
              r)
    ]
  ]

  due_deletions-Keeps : Keeps measure (due_deletions runner now)
  unfolding due_deletions
  due_deletions-Keeps r =
      >>=-Keeps measure
        (gets (λ q. take runner.batch_size (select (is_due_soon now) (database q).reseller_users)))
        (for_each (due_deletion runner now)) (λ _. refl)
        (λ rows. for_each-Keeps measure (due_deletion runner now) rows due_deletion-Keeps) r

-- In the dry run, and whatever fails on the way, the jobs on resellers, users and deletions leave every
-- measure of the outside world alone that reads at Rebecca and messages leave alone.
pub dry_run-Keeps :
    {W M : Type 0} (measure : W → M) (runner : Runner W)
    → ReadsKeep measure runner
    → runner.settings.dry_run ≡ true
    → (first second third : Instant) → Keeps measure (sync_jobs runner first second third)
unfolding sync_jobs
dry_run-Keeps measure runner laws dry first second third =
    let users = sync_users runner second in
    let deletions = due_deletions runner third in
    >>-Keeps measure (sync_resellers runner first) (users >> deletions)
      (sync_resellers-Keeps measure runner laws dry first)
      (>>-Keeps measure users deletions (sync_users-Keeps measure runner laws dry second)
        (due_deletions-Keeps measure runner laws dry third))
