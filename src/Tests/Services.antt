-- ===== src/Tests/Services.antt =====
-- Orders, provisioning, deletion and the callback at concrete inputs.
use rebecca_reseller_bot.Prelude.{
  ℕ, ◌+◌, ◌*◌, ◌%◌, ◌≤◌, ◌<◌, ◌≡◌, ◌≢◌, ◌⊎◌, inl, inr, refl, sym, ap, Bool, true, false, Option,
  none, some, List, [], ◌∷◌, arith, ◌==◌, if◌then◌else◌, or_else, Option-cases, Bool-cases,
}
use rebecca_reseller_bot.Prelude.Int.{ℤ, pos}
use rebecca_reseller_bot.Prelude.Text.{Text, lit}
use rebecca_reseller_bot.Prelude.Json.{str, Fields, end, field}
use rebecca_reseller_bot.Prelude.Time.{Instant, second, day}
use rebecca_reseller_bot.Prelude.Effects.{ok}
use rebecca_reseller_bot.Rebecca.Models.{Admin, User, number}
use rebecca_reseller_bot.Database.Models.{Order, TargetSnapshot, renewal, planned}
use rebecca_reseller_bot.Payments.Service.Snapshots.{target_snapshot}
use rebecca_reseller_bot.Payments.Service.Apply.{
  ApplyState, apply_order, persisted_target, save, is_skipped,
}
use rebecca_reseller_bot.Payments.Service.Target.{SameSnapshots, apply_order-snapshots}
use rebecca_reseller_bot.Payments.Service.Success.{Succeeded, apply_order-Succeeded}
use rebecca_reseller_bot.Payments.Service.Expired.{WholeSeconds, expired_renewal_fails}
use rebecca_reseller_bot.Reseller.Provision.{
  Provision, provision, is_unsafe_role, provision_payload,
}
use rebecca_reseller_bot.Reseller.Provision.Safety.{
  Entitled, ReadBack, provision-Entitled, provision_unsafe, provision_creates_none,
}
use rebecca_reseller_bot.Users.Lifecycle.{Deletion, DeletePolicy, deleted, safe_delete}
use rebecca_reseller_bot.Users.Lifecycle.Guards.{
  Deletable, safe_delete_guarded, safe_delete-deleted,
}
use rebecca_reseller_bot.Payments.Plisio.{Signing}
use rebecca_reseller_bot.Payments.Webhook.{paid, mark_paid, callback}
use rebecca_reseller_bot.Payments.Webhook.PaidOnce.{Accepted, callback-Accepted}
use rebecca_reseller_bot.Tests.World.{
  World, service, shown, whole, entitled, with_status, answer, made, noon, late, shop, spent_shop,
  sudo_shop, old_user, empty_world, shop_world, sudo_world, spent_world, small_plan, ali,
  paid_order, tables,
}

unfoldable start : ApplyState World
start = record { order = paid_order; reseller = ali; world = shop_world }

apply_order-Succeeded_example :
    Succeeded service noon (apply_order service small_plan noon none start).1.order
unfolding apply_order is_skipped start paid_order ali small_plan service shop_world persisted_target
    save target_snapshot lit answer entitled made old_user shop shown whole with_status
    rebecca_reseller_bot.Payments.Service.Apply.find_live
    rebecca_reseller_bot.Payments.Service.Apply.apply_live
    rebecca_reseller_bot.Payments.Service.Apply.prepare
    rebecca_reseller_bot.Payments.Service.Apply.plan
    rebecca_reseller_bot.Payments.Service.Apply.carry_out
    rebecca_reseller_bot.Payments.Service.Apply.mutate
    rebecca_reseller_bot.Payments.Service.Apply.verify
    rebecca_reseller_bot.Payments.Service.Apply.finish
    rebecca_reseller_bot.Payments.Service.Apply.reactivated
    rebecca_reseller_bot.Payments.Service.Apply.recover
    rebecca_reseller_bot.Payments.Service.Apply.with_plan
    rebecca_reseller_bot.Payments.Service.Snapshots.matches
    rebecca_reseller_bot.Payments.Service.Snapshots.snapshot_eq
    rebecca_reseller_bot.Payments.Service.Snapshots.entitlement
    rebecca_reseller_bot.Payments.Service.Snapshots.entitlement_snapshot
    rebecca_reseller_bot.Payments.Service.Snapshots.expected
    rebecca_reseller_bot.Payments.Service.Snapshots.matches_before
    rebecca_reseller_bot.Payments.Service.Snapshots.service_text
    rebecca_reseller_bot.Payments.Service.Snapshots.sorted_services
    rebecca_reseller_bot.Prelude.Int.◌+ℤ◌ rebecca_reseller_bot.Prelude.Sorting.insert
    rebecca_reseller_bot.Prelude.Sorting.opt_eq rebecca_reseller_bot.Prelude.Sorting.show_ℕ
    rebecca_reseller_bot.Prelude.Sorting.show_ℤ rebecca_reseller_bot.Prelude.Sorting.sorted
    rebecca_reseller_bot.Prelude.Sorting.texts_eq rebecca_reseller_bot.Prelude.Text.is_space
    rebecca_reseller_bot.Prelude.Text.is_upper rebecca_reseller_bot.Prelude.Text.lower
    rebecca_reseller_bot.Prelude.Text.lower_char rebecca_reseller_bot.Prelude.Text.lstrip_where
    rebecca_reseller_bot.Prelude.Text.one_of rebecca_reseller_bot.Prelude.Text.strip
    rebecca_reseller_bot.Prelude.Text.strip_where rebecca_reseller_bot.Prelude.Text.teq
    rebecca_reseller_bot.Prelude.Text.tle rebecca_reseller_bot.Rebecca.Models.normalize_status
    rebecca_reseller_bot.Reseller.Quota.renewal_data_limit
    rebecca_reseller_bot.Reseller.Quota.renewal_expiry rebecca_reseller_bot.Tests.World.user_with
apply_order-Succeeded_example = apply_order-Succeeded service small_plan noon none start refl

unfoldable planned_order : Order
planned_order = record paid_order {
  after_snapshot = some (planned (renewal (target_snapshot shop small_plan noon)));
}

unfoldable retry : ApplyState World
retry = record { order = planned_order; reseller = ali; world = shop_world }

apply_order-snapshots_example :
    SameSnapshots planned_order (apply_order service small_plan noon none retry).1.order
unfolding retry planned_order persisted_target
apply_order-snapshots_example =
    apply_order-snapshots service small_plan noon none retry
      (renewal (target_snapshot shop small_plan noon)) refl

whole-mod : (x : Option Instant) (e : Instant) → whole x ≡ some e → e % second ≡ 0
unfolding whole
whole-mod none e h = absurd (cc h)
whole-mod (some t) e h = ground arith

shown-whole :
    (o : Option Admin) (a : Admin) (e : Instant)
    → shown o ≡ some a
    → a.expire ≡ some e
    → e % second ≡ 0
unfolding shown
shown-whole none a e h x = absurd (cc h)
shown-whole (some b) a e h x = whole-mod b.expire e (cc (h, x))

service_whole : WholeSeconds service
unfolding service
service_whole = record { whole = λ u w a e h x. shown-whole w.admin a e (cc h) x }

unfoldable late_target : TargetSnapshot
late_target = record (target_snapshot shop small_plan noon) { expire = late }

unfoldable late_retry : ApplyState World
late_retry = record {
  order = record paid_order { after_snapshot = some (planned (renewal late_target)) };
  reseller = ali;
  world = shop_world;
}

unfoldable spent_start : ApplyState World
spent_start = record { order = paid_order; reseller = ali; world = spent_world }

expired_renewal_fails_example : (apply_order service small_plan late none spent_start).0 ≢ ok true
unfolding spent_start is_skipped paid_order ali persisted_target service spent_world
expired_renewal_fails_example =
    expired_renewal_fails service small_plan late none spent_shop spent_start service_whole refl
      refl refl (omega arith) (omega arith)

unfoldable purchase : Provision
purchase = record {
  username = lit "shop_1234";
  password = lit "pw";
  expire = noon + 30 * day;
  data_limit = pos 5000;
  services = number (pos 1) ∷ [];
  telegram_id = some 77;
  users_limit = some (pos 10);
}

unfoldable new_shop : Admin
new_shop = made (provision_payload purchase (some (lit "shop_1234")))

provision-Entitled_example :
    Entitled purchase new_shop × ReadBack service purchase empty_world new_shop
unfolding provision new_shop purchase service
    rebecca_reseller_bot.Reseller.Provision.create_or_recover
    rebecca_reseller_bot.Reseller.Provision.read_back
    rebecca_reseller_bot.Reseller.Provision.check_live
    rebecca_reseller_bot.Reseller.Provision.verify_entitlement rebecca_reseller_bot.Prelude.Text.teq
    provision_payload is_unsafe_role rebecca_reseller_bot.Prelude.Text.one_of
    rebecca_reseller_bot.Prelude.Text.lower rebecca_reseller_bot.Reseller.Provision.same_second
    rebecca_reseller_bot.Prelude.Sorting.opt_eq
    rebecca_reseller_bot.Reseller.Provision.same_services
    rebecca_reseller_bot.Reseller.Provision.subset
    rebecca_reseller_bot.Reseller.Provision.same_service
provision-Entitled_example = provision-Entitled service purchase empty_world new_shop refl

-- The role and the limit of the account.
unfoldable account : World → Option (Text × Option ℤ)
account w = elim w.admin [ none ↦ none | some a ↦ some (a.role, a.data_limit) ]

disable-account :
    (o : Option Admin) (user : Option User) (created : ℕ)
    → account (record { admin = with_status (lit "disabled") o; user = user; created = created })
      ≡ account (record { admin = o; user = user; created = created })
unfolding account with_status
disable-account none user created = refl
disable-account (some a) user created = refl

provision_unsafe_example :
    ((a : Admin) → (provision service purchase sudo_world).0 ≢ ok a)
    × (account (provision service purchase sudo_world).1 ≡ account sudo_world)
unfolding service sudo_world is_unsafe_role rebecca_reseller_bot.Prelude.Text.one_of
    rebecca_reseller_bot.Prelude.Text.teq
provision_unsafe_example =
    provision_unsafe service purchase account (λ _ _. refl)
      (λ u w. disable-account w.admin w.user w.created) sudo_world sudo_shop refl refl

provision_creates_none_example :
    (provision service purchase shop_world).1.created ≡ shop_world.created
unfolding service shop_world shop shown whole lit
provision_creates_none_example =
    provision_creates_none service purchase (λ w. w.created) (λ _ _. refl) (λ _ _ _. refl)
      (λ _ _. refl) shop_world shop refl

unfoldable due : Deletion
due = record {
  username = lit "u1";
  owner = lit "shop_1234";
  delete_after = noon;
  now = late;
  policy = record { dry_run = false; destructive_actions = true; allow_delete_actions = true };
  hold = false;
  is_locked = false;
}

safe_delete_guarded_example :
    ((safe_delete service due shop_world).1 ≡ shop_world)
    ⊎ ((safe_delete service due shop_world).1 ≡ (service.get_user (lit "u1") shop_world).1)
    ⊎ ((live : User) × ((service.get_user (lit "u1") shop_world).0 ≡ ok (some live))
        × Deletable due live)
unfolding due
safe_delete_guarded_example = safe_delete_guarded service due shop_world

safe_delete-deleted_example :
    let w1 = (service.get_user (lit "u1") shop_world).1 in
    (live : User) × ((service.get_user (lit "u1") shop_world).0 ≡ ok (some live))
    × Deletable due live
    × ((service.delete_user (lit "u1") w1).0 ≡ ok tt)
    × ((service.get_user (lit "u1") (service.delete_user (lit "u1") w1).1).0 ≡ ok none)
unfolding safe_delete due rebecca_reseller_bot.Users.Lifecycle.blocked service
    rebecca_reseller_bot.Users.Lifecycle.delete_live rebecca_reseller_bot.Users.Lifecycle.refused
    shop_world rebecca_reseller_bot.Users.Lifecycle.verified_owner
    rebecca_reseller_bot.Prelude.Text.teq rebecca_reseller_bot.Reseller.Quota.exhausted
    rebecca_reseller_bot.Users.Lifecycle.delete_confirmed
    rebecca_reseller_bot.Users.Lifecycle.confirm
safe_delete-deleted_example = safe_delete-deleted service due shop_world refl

unfoldable signing : Signing
signing = record {
  dumps = λ _. lit "body";
  hmac_sha1 = λ secret body. secret;
  str_container = λ _. lit "[]";
}

unfoldable payload : Fields
payload = field (lit "txn_id") (str (lit "t1")) (
    field (lit "status") (str (lit "completed")) (
      field (lit "order_number") (str (lit "A5")) (
        field (lit "source_currency") (str (lit "usd")) (
          field (lit "source_amount") (str (lit "10.00"))
            (field (lit "verify_hash") (str (lit "key")) end)))))

callback-Accepted_example :
    ((callback signing (lit "key") (lit "USD") payload late tables).1 ≡ tables)
    ⊎ ((order : Order) × Accepted signing (lit "key") (lit "USD") payload late tables order
        × (callback signing (lit "key") (lit "USD") payload late tables
            ≡ (paid, mark_paid order.id late tables)))
callback-Accepted_example = callback-Accepted signing (lit "key") (lit "USD") payload late tables
