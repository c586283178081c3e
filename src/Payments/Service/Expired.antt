-- ===== src/Payments/Service/Expired.antt =====
-- Renewals that start from the present moment: their target has a fraction of a second, which
-- `serialize_expire` cuts off, and `_matches` compares it exactly.
use rebecca_reseller_bot.Prelude.{
  ◌%◌, ◌≤◌, ◌≡◌, ◌≢◌, refl, sym, ap, ◌∙◌, true, false, Option, none, some, arith, inl, inr, or_else,
  [],
}
use rebecca_reseller_bot.Prelude.Text.{Text}
use rebecca_reseller_bot.Prelude.Time.{Instant, second}
use rebecca_reseller_bot.Prelude.Effects.{Action, ok, Result-cases, >>=-state, ◌>>=◌}
use rebecca_reseller_bot.Rebecca.Models.{Admin}
use rebecca_reseller_bot.Rebecca.Interface.{RebeccaClient}
use rebecca_reseller_bot.Database.Models.{
  Order, Reseller, Product, TargetSnapshot, Snapshot, renewal,
}
use rebecca_reseller_bot.Reseller.Quota.{renewal_expiry}
use rebecca_reseller_bot.Payments.Service.Snapshots.{
  matches, expected, entitlement_snapshot, target_snapshot, snapshot_eq_iff,
}
use rebecca_reseller_bot.Payments.Service.Success.{
  apply_order-Succeeded, persisted_target_of_same, order-plan,
}
use rebecca_reseller_bot.Payments.Service.Target.{
  Confirmed, apply_order-snapshots, carry_out-snapshots,
}
use rebecca_reseller_bot.Payments.Service.Apply.{
  ApplyState, persisted_target, prepare, with_plan, carry_out, apply_live, is_skipped, find_live,
  apply_order,
}

-- Every expiry that the client reads is a whole second, as Unix timestamps are. A client that keeps the times
-- of a payload as they are does not have this.
pub record WholeSeconds {W : Type 0} (client : RebeccaClient W) : Type 0 where
  pub whole :
      (u : Text) (w : W) (a : Admin) (e : Instant)
      → (client.get_admin u w).0 ≡ ok (some a)
      → a.expire ≡ some e
      → e % second ≡ 0

expire-matches :
    (live : Admin) (t : TargetSnapshot)
    → matches live (renewal t) ≡ true
    → live.expire ≡ some t.expire
unfolding matches expected entitlement_snapshot
expire-matches live t h =
    ap (λ (x : Snapshot). x.expire) ((snapshot_eq_iff (entitlement_snapshot live) (expected t)).0 h)

renewal_expiry-mod :
    (current : Option Instant) (now : Instant) (days : Instant)
    → or_else current now ≤ now
    → renewal_expiry current now days % second ≡ now % second
unfolding renewal_expiry
renewal_expiry-mod current now days h = omega arith

Confirmed-whole :
    {W : Type 0} (client : RebeccaClient W) (order : Order) (t : TargetSnapshot)
    → WholeSeconds client
    → Confirmed client order
    → persisted_target order ≡ some (renewal t)
    → t.expire % second ≡ 0
Confirmed-whole client order t seconds c has_target =
    let same : c.target ≡ renewal t = cc (c.is_target, has_target) in
    seconds.whole c.username c.world c.live t.expire c.is_read
      (expire-matches c.live t (rw same at c.is_match))

module _ {W : Type 0} (client : RebeccaClient W) (product : Product) (now : Instant)
    (persist : Option (Order → Reseller → Action W (Unit {0}))) where
  prepare-target :
      (live : Admin) (s : ApplyState W)
      → persisted_target s.order ≡ none
      → persisted_target (prepare product now persist live s).1.order
        ≡ some (renewal (target_snapshot live product now))
  unfolding prepare with_plan persisted_target
  prepare-target live s fresh = rw (fresh, prepare) (rw order-plan refl)

  apply_live-target :
      (live : Admin) (s : ApplyState W)
      → persisted_target s.order ≡ none
      → persisted_target (apply_live client product now persist (some live) s).1.order
        ≡ some (renewal (target_snapshot live product now))
  unfolding apply_live
  apply_live-target live s fresh =
      let first = prepare product now persist live in
      let rest = carry_out client product now live in
      let planned = prepare-target live s fresh in
      elim (Result-cases (first s).0) [
        | inl (p, e) ↦ rw (>>=-state first rest s e) (
            persisted_target_of_same (first s).1.order (rest p (first s).1).1.order
              (carry_out-snapshots client product now persist live p (first s).1).0
            ∙ planned)
        | inr (_, e) ↦ rw (e, ◌>>=◌) planned
      ]

  -- The first call that sees an administrator persists the target calculated from that read, whatever
  -- happens afterwards.
  pub apply_order-target :
      (live : Admin) (s : ApplyState W)
      → is_skipped s ≡ false
      → persisted_target s.order ≡ none
      → (client.get_admin (or_else s.reseller.rebecca_admin_username []) s.world).0 ≡ ok (some live)
      → persisted_target (apply_order client product now persist s).1.order
        ≡ some (renewal (target_snapshot live product now))
  unfolding apply_order find_live
  apply_order-target live s runs fresh r =
      let find = find_live client s.reseller in
      let rest = apply_live client product now persist in
      rw (runs, apply_order)
        (rw (>>=-state find rest s r) (apply_live-target live (find s).1 fresh))

  -- An order whose target is not at a whole second is never applied: no call returns true.
  pub fractional_target_fails :
      (t : TargetSnapshot) (s : ApplyState W)
      → WholeSeconds client
      → persisted_target s.order ≡ some (renewal t)
      → t.expire % second ≢ 0
      → (apply_order client product now persist s).0 ≢ ok true
  fractional_target_fails t s seconds has_target fraction h =
      let done = apply_order-Succeeded client product now persist s h in
      let final = (apply_order client product now persist s).1.order in
      let kept = apply_order-snapshots client product now persist s (renewal t) has_target in
      fraction (
        Confirmed-whole client final t seconds done.confirmed
          (persisted_target_of_same s.order final kept.0 ∙ has_target))

  -- Where every expiry that the client reads is a whole second (`WholeSeconds`), a first call at a time with a
  -- fraction of a second, for a reseller whose entitlement has no expiry or one that has passed, does not
  -- return true.
  pub expired_renewal_fails :
      (live : Admin) (s : ApplyState W)
      → WholeSeconds client
      → is_skipped s ≡ false
      → persisted_target s.order ≡ none
      → (client.get_admin (or_else s.reseller.rebecca_admin_username []) s.world).0 ≡ ok (some live)
      → or_else live.expire now ≤ now
      → now % second ≢ 0
      → (apply_order client product now persist s).0 ≢ ok true
  expired_renewal_fails live s seconds runs fresh r past fraction h =
      let done = apply_order-Succeeded client product now persist s h in
      let final = (apply_order client product now persist s).1.order in
      let t = target_snapshot live product now in
      let whole =
        Confirmed-whole client final t seconds done.confirmed
          (apply_order-target live s runs fresh r) in
      fraction (
        sym (renewal_expiry-mod live.expire now product.duration_days past)
        ∙ (unfold target_snapshot in whole))
