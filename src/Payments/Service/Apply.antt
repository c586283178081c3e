-- ===== src/Payments/Service/Apply.antt =====
-- `apply_order` of app/payments/service.py.
use rebecca_reseller_bot.Prelude.{
  Bool, true, false, ◌||◌, Option, none, some, or_else, [], if◌then◌else◌,
}
use rebecca_reseller_bot.Prelude.Text.{Text, lit}
use rebecca_reseller_bot.Prelude.Time.{Instant}
use rebecca_reseller_bot.Prelude.Effects.{
  Action, ok, ErrorKind, pure, raise, reraise, gets, modify, catch, zoom, ◌>>=◌, ◌>>◌,
}
use rebecca_reseller_bot.Rebecca.Models.{Admin}
use rebecca_reseller_bot.Rebecca.Interface.{RebeccaClient}
use rebecca_reseller_bot.Database.Models.{
  Order, OrderStatus, Reseller, ResellerStatus, Product, Snapshot, Target, renewal, planned, dump,
  same_order_status, same_reseller_status, is_lapsed,
}
use rebecca_reseller_bot.Payments.Service.Snapshots.{
  entitlement_snapshot, target_snapshot, matches_before, matches, entitlement,
}

-- The rows that the call works on, and the world behind the client.
pub record ApplyState (W : Type 0) : Type 0 where
  pub order : Order
  pub reseller : Reseller
  pub world : W

-- `(order.after_snapshot or {}).get("target")`
unfoldable pub persisted_target : Order → Option Target
persisted_target order = elim order.after_snapshot [
  | none ↦ none
  | some (planned t) ↦ some t
  | some (dump _) ↦ none
]

-- How the first part of the call ends: the order is done, or this target is to be applied.
pub data Progress : Type 0 where
  done : Progress
  proceed : Target → Progress

-- `if reseller.status in {EXPIRED, DISABLED}: reseller.status = ACTIVE`
unfoldable pub reactivated : Reseller → Reseller
reactivated r = if is_lapsed r.status then record r { status = ResellerStatus.active } else r

-- The order of a first attempt: both snapshots are there before any mutation.
unfoldable pub with_plan : Product → Instant → Admin → Order → Order
with_plan product now live order = record order {
  before_snapshot = some (entitlement_snapshot live);
  after_snapshot = some (planned (renewal (target_snapshot live product now)));
  status = OrderStatus.applying;
  apply_error = none;
}

module _ {W : Type 0} where
  abbrev pub remote : {A : Type 0} → Action W A → Action (ApplyState W) A
  remote = zoom (λ s. s.world) (λ s w. record s { world = w })

  abbrev pub set_error : Option Text → Action (ApplyState W) (Unit {0})
  set_error e = modify λ s. record s { order = record s.order { apply_error = e } }

  abbrev pub fail : {A : Type 0} → ErrorKind → Text → Action (ApplyState W) A
  fail k m = set_error (some m) >> raise k m

  -- `if persist_target is not None: await persist_target()`, with the rows as they are then.
  unfoldable pub save :
      Option (Order → Reseller → Action W (Unit {0})) → ApplyState W → Action W (Unit {0})
  save none s = pure tt
  save (some persist) s = persist s.order s.reseller

  -- The branch of a first attempt.
  unfoldable pub plan :
      Product
      → Instant
      → Option (Order → Reseller → Action W (Unit {0}))
      → Admin
      → Action (ApplyState W) Progress
  plan product now persist live s =
      let s' = record s { order = with_plan product now live s.order } in
      (remote (save persist s') >> pure (proceed (renewal (target_snapshot live product now)))) s'

  -- The branch of a retry: the target is never calculated again.
  unfoldable pub recover :
      Instant → Target → Option Snapshot → Admin → Action (ApplyState W) Progress
  recover now target none live =
      fail ErrorKind.ambiguous_entitlement_state (lit "missing immutable before snapshot")
  recover now target (some before) live =
      if matches live target
      then (λ s. (
        ok done,
        record s {
          order = record s.order {
            status = OrderStatus.applied;
            applied_at = some now;
            apply_error = none;
          };
          reseller = reactivated s.reseller;
        },
      ))
      else if matches_before live before
      then pure (proceed target)
      else fail ErrorKind.ambiguous_entitlement_state
          (lit "live Rebecca entitlement is partial or ambiguous")

  -- The mutation, with the handler that keeps the error and raises again.
  unfoldable pub mutate : RebeccaClient W → Target → Admin → Action (ApplyState W) (Unit {0})
  mutate client target live =
      catch
        (do
          remote (
              client.update_admin live.username
                (record { username = none; credentials = none; entitlement = entitlement target }))
          reseller ← gets (λ s. s.reseller)
          if is_lapsed reseller.status then remote (client.enable_admin live.username) else pure tt)
        (λ e. set_error (some e.message) >> reraise e)

  unfoldable pub finish : Product → Instant → ApplyState W → ApplyState W
  unfolding reactivated
  finish product now s = record s {
    order = record s.order {
      status = OrderStatus.applied;
      applied_at = some now;
      apply_error = none;
    };
    reseller = record (reactivated s.reseller) { product_id = some product.id };
  }

  unfoldable pub verify : Product → Instant → Target → Option Admin → Action (ApplyState W) Bool
  verify product now target none =
      fail ErrorKind.verification_error (lit "post-update entitlement mismatch")
  verify product now target (some live) =
      if matches live target
      then modify (finish product now) >> pure true
      else fail ErrorKind.verification_error (lit "post-update entitlement mismatch")

  unfoldable pub carry_out :
      RebeccaClient W → Product → Instant → Admin → Progress → Action (ApplyState W) Bool
  carry_out client product now live done = pure true
  carry_out client product now live (proceed target) = do
    mutate client target live
    verified ← remote (client.get_admin live.username)
    verify product now target verified

  unfoldable pub prepare :
      Product
      → Instant
      → Option (Order → Reseller → Action W (Unit {0}))
      → Admin
      → Action (ApplyState W) Progress
  prepare product now persist live s = elim (persisted_target s.order) [
    | none ↦ plan product now persist live s
    | some target ↦ recover now target s.order.before_snapshot live s
  ]

  unfoldable pub apply_live :
      RebeccaClient W
      → Product
      → Instant
      → Option (Order → Reseller → Action W (Unit {0}))
      → Option Admin
      → Action (ApplyState W) Bool
  apply_live client product now persist none =
      raise ErrorKind.verification_error (lit "reseller missing")
  apply_live client product now persist (some live) = do
    progress ← prepare product now persist live
    carry_out client product now live progress

  -- The two tests at the top, each of which returns false at once.
  unfoldable pub is_skipped : ApplyState W → Bool
  is_skipped s =
      same_order_status s.order.status OrderStatus.applied
      || same_reseller_status s.reseller.status ResellerStatus.suspended

  unfoldable pub find_live : RebeccaClient W → Reseller → Action (ApplyState W) (Option Admin)
  find_live client reseller = remote (client.get_admin (or_else reseller.rebecca_admin_username []))

  unfoldable pub apply_order :
      RebeccaClient W
      → Product
      → Instant
      → Option (Order → Reseller → Action W (Unit {0}))
      → Action (ApplyState W) Bool
  apply_order client product now persist s =
      if is_skipped s
      then (ok false, s)
      else (find_live client s.reseller >>= apply_live client product now persist) s
