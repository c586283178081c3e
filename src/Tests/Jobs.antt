-- ===== src/Tests/Jobs.antt =====
-- The scheduler's jobs at concrete inputs.
use rebecca_reseller_bot.Prelude.{
  ℕ, ◌+◌, ◌*◌, ◌≡◌, ◌⊎◌, refl, sym, ap, Bool, true, false, Option, none, some, List, [], ◌∷◌, arith,
  ◌==◌, update_where,
}
use rebecca_reseller_bot.Prelude.Int.{pos}
use rebecca_reseller_bot.Prelude.Text.{Text, lit}
use rebecca_reseller_bot.Prelude.Json.{str, obj, Fields, end, field}
use rebecca_reseller_bot.Prelude.Effects.{Action, ok}
use rebecca_reseller_bot.Database.Models.{Order}
use rebecca_reseller_bot.Payments.Plisio.{Signing}
use rebecca_reseller_bot.Reseller.Credentials.{username_candidate}
use rebecca_reseller_bot.Scheduler.State.{Run, Runner, Notice, reseller_expired, database}
use rebecca_reseller_bot.Scheduler.Notifications.{WarningKey, once, once_only}
use rebecca_reseller_bot.Scheduler.Keeps.{Keeps, ReadsKeep}
use rebecca_reseller_bot.Scheduler.Sequence.{sync_jobs}
use rebecca_reseller_bot.Scheduler.DryRun.{dry_run-Keeps}
use rebecca_reseller_bot.Scheduler.Plisio.{reconcile_payment, pay}
use rebecca_reseller_bot.Scheduler.Reconciled.{Confirmed, reconcile_payment-Confirmed}
use rebecca_reseller_bot.Scheduler.Provisioning.{
  OrderRunner, reserve, reserved_order, reserved_reseller,
}
use rebecca_reseller_bot.Scheduler.Reservation.{Durable, reserve-Durable}
use rebecca_reseller_bot.Tests.World.{
  World, service, noon, late, empty_world, shop_world, small_plan, sara, paid_order, open_order,
  open_payment, session, tables,
}

abbrev sent : ℕ → Notice → Action World (Unit {0})
sent chat_id notice w = (ok tt, w)

unfoldable watcher : Runner World
watcher = record {
  rebecca = service;
  bot = some sent;
  redact = λ t. t;
  str_time = λ _. lit "time";
  settings = record {
    dry_run = true;
    user_delete_grace_hours = pos 72;
    trial_duration_hours = pos 24;
    trial_traffic_gb = pos 10;
    time_warning_thresholds = pos 7 ∷ pos 3 ∷ pos 1 ∷ [];
    traffic_warning_thresholds = pos 20 ∷ pos 10 ∷ pos 5 ∷ [];
  };
  destructive_actions = true;
  allow_disable_actions = true;
  allow_delete_actions = true;
  plisio_enabled = true;
  plisio_secret_key = lit "key";
  batch_size = 50;
}

unfoldable night : Run World
night = record { session = session; world = shop_world }

watcher_reads : ReadsKeep (λ (w : World). w) watcher
unfolding watcher service
watcher_reads = record {
  get_admin = λ u w. refl;
  get_user = λ u w. refl;
  list_users = λ u w. refl;
  deliver = λ bot chat_id notice w e.
      ap
        (λ (o : Option (ℕ → Notice → Action World (Unit {0}))). elim o [
          | none ↦ w
          | some f ↦ (f chat_id notice w).1
        ])
        (sym e);
}

dry_run-Keeps_example : Keeps (λ (w : World). w) (sync_jobs watcher noon noon late)
unfolding watcher
dry_run-Keeps_example = dry_run-Keeps (λ (w : World). w) watcher watcher_reads refl noon noon late

unfoldable warning : WarningKey
warning = record {
  target_type = lit "reseller";
  target = lit "shop_1234";
  kind = lit "TIME_7";
  entitlement_key = lit "k";
}

once_only_example :
    let s = (once watcher noon 77 warning reseller_expired night).1 in
    once watcher late 78 warning reseller_expired s ≡ (ok false, s)
unfolding once watcher night session tables rebecca_reseller_bot.Scheduler.Notifications.is_recorded
    rebecca_reseller_bot.Scheduler.State.send
    rebecca_reseller_bot.Scheduler.Notifications.record_sent
once_only_example =
    once_only watcher noon late 77 78 warning reseller_expired reseller_expired night refl

unfoldable signing : Signing
signing = record {
  dumps = λ _. lit "body";
  hmac_sha1 = λ secret body. secret;
  str_container = λ _. lit "[]";
}

unfoldable operation : Fields
operation = field (lit "id") (str (lit "t1")) (
    field (lit "status") (str (lit "completed")) (
      field (lit "params")
        (obj (
          field (lit "order_number") (str (lit "A5")) (
            field (lit "source_amount") (str (lit "10.00"))
              (field (lit "source_currency") (str (lit "USD")) end))))
        end))

abbrev looked_up : Text → Action World Fields
looked_up txn w = (ok operation, w)

reconcile_payment-Confirmed_example :
    let after =
      (reconcile_payment watcher signing looked_up late (open_order, open_payment) night).1 in
    ((database after).orders ≡ (database night).orders)
    ⊎ (Confirmed watcher signing looked_up late open_order open_payment night
        × ((database after).orders
            ≡ update_where
                (λ (o : Order). o.id == open_order.id)
                (pay late)
                (database night).orders))
reconcile_payment-Confirmed_example =
    reconcile_payment-Confirmed watcher signing looked_up late open_order open_payment night

unfoldable seller : OrderRunner World
seller = record {
  runner = watcher;
  drawn_suffix = λ w. (ok 234, w);
  drawn_passwords = λ w. (ok (λ _. lit "pw"), w);
  password_fuel = 10;
  forbidden = [];
  send_order = λ _ _ w. (ok true, w);
  owners = λ _ w. (ok tt, w);
  send_credentials = λ _ _ w. (ok true, w);
}

unfoldable morning : Run World
morning = record { session = session; world = empty_world }

unfoldable sara_name : Text
sara_name = username_candidate (some (lit "ali")) none 234

reserve-Durable_example :
    Durable seller noon paid_order sara small_plan morning
      (reserved_order seller noon small_plan sara_name paid_order)
      (reserved_reseller seller noon sara_name sara)
      (reserve seller noon paid_order sara small_plan morning).1
unfolding reserve seller watcher service morning session tables
    rebecca_reseller_bot.Scheduler.Provisioning.has_username
    rebecca_reseller_bot.Scheduler.Provisioning.available_username
    rebecca_reseller_bot.Scheduler.Provisioning.check_candidate
    rebecca_reseller_bot.Scheduler.Provisioning.is_taken rebecca_reseller_bot.Prelude.Text.teq
    username_candidate rebecca_reseller_bot.Reseller.Credentials.candidate_base
    rebecca_reseller_bot.Prelude.Text.strip_where rebecca_reseller_bot.Reseller.Credentials.collapse
    rebecca_reseller_bot.Reseller.Credentials.replace_unsafe rebecca_reseller_bot.Prelude.Text.lower
    rebecca_reseller_bot.Prelude.Text.strip rebecca_reseller_bot.Reseller.Credentials.is_safe
    rebecca_reseller_bot.Scheduler.Provisioning.check_found
    rebecca_reseller_bot.Scheduler.Provisioning.reserve_as sara_name
reserve-Durable_example =
    reserve-Durable seller noon paid_order sara small_plan morning
      (reserved_order seller noon small_plan sara_name paid_order)
      (reserved_reseller seller noon sara_name sara) refl refl
