-- ===== src/Payments/Service/Renewed.antt =====
-- Renewals that go through: a Rebecca that does what it is asked to, and an entitlement that has not expired.
use rebecca_reseller_bot.Prelude.{
  ◌%◌, ◌<◌, ◌≤◌, ◌≡◌, refl, ap, ◌∙◌, true, false, Option, none, some, arith, or_else, [],
  if◌then◌else◌,
}
use rebecca_reseller_bot.Prelude.Int.{pos, eqb_ℤ}
use rebecca_reseller_bot.Prelude.Text.{Text, lit}
use rebecca_reseller_bot.Prelude.Time.{Instant, second}
use rebecca_reseller_bot.Prelude.Effects.{
  Action, Exception, ok, reraise, pure, catch, gets, >>=-state, ◌>>=◌, ◌>>◌,
}
use rebecca_reseller_bot.Rebecca.Models.{Admin, normalize_status}
use rebecca_reseller_bot.Rebecca.Interface.{RebeccaClient, Entitlement, AdminPayload}
use rebecca_reseller_bot.Database.Models.{
  OrderStatus, Order, Reseller, Product, TargetSnapshot, Target, renewal, is_lapsed,
}
use rebecca_reseller_bot.Reseller.Quota.{renewal_expiry}
use rebecca_reseller_bot.Payments.Service.Snapshots.{
  matches, expected, entitlement_snapshot, target_snapshot, snapshot_eq_iff, entitlement,
}
use rebecca_reseller_bot.Payments.Service.Apply.{
  ApplyState, persisted_target, proceed, remote, set_error, save, plan, prepare, with_plan, mutate,
  verify, finish, carry_out, apply_live, is_skipped, find_live, apply_order,
}

-- The administrator with another entitlement, as `from_rebecca` reads it: a limit of 0 is an unlimited one.
unfoldable pub renewed : Entitlement → Admin → Admin
renewed e live = record live {
  data_limit = some e.data_limit;
  data_limit_unlimited = eqb_ℤ e.data_limit (pos 0);
  expire = some e.expire;
  services = e.services;
  users_limit = e.users_limit;
}

abbrev pub renewal_payload : Target → AdminPayload
renewal_payload t = record { username = none; credentials = none; entitlement = entitlement t }

-- Persisting succeeds, and an update of an administrator that was read just before it succeeds, and what is read
-- after it is that administrator with the new entitlement, where its expiry is a whole second and not 0,
-- which means no expiry.
pub record Obeys {W : Type 0} (client : RebeccaClient W)
    (persist : Option (Order → Reseller → Action W (Unit {0}))) : Type 0 where
  pub persists : (s : ApplyState W) (w : W) → (save persist s w).0 ≡ ok tt
  pub updates :
      (u : Text) (w : W) (live : Admin) (t : Target) (s : ApplyState W)
      → (client.get_admin u w).0 ≡ ok (some live)
      → 0 < (entitlement t).expire
      → (entitlement t).expire % second ≡ 0
      → let w1 = (save persist s (client.get_admin u w).1).1 in
        let w2 = (client.update_admin live.username (renewal_payload t) w1).1 in
        (a : Admin) × ((client.update_admin live.username (renewal_payload t) w1).0 ≡ ok a)
        × ((client.get_admin live.username w2).0 ≡ ok (some (renewed (entitlement t) live)))

renewed-matches :
    (live : Admin) (t : TargetSnapshot)
    → live.role ≡ t.role
    → normalize_status live.status ≡ normalize_status t.status
    → matches (renewed (entitlement (renewal t)) live) (renewal t) ≡ true
unfolding matches renewed entitlement entitlement_snapshot expected
renewed-matches live t role status =
    (snapshot_eq_iff (entitlement_snapshot (renewed (entitlement (renewal t)) live)) (expected t)).1
      (rw (role, status) refl)

whole_target :
    (current : Option Instant) (now e days : Instant)
    → current ≡ some e
    → now ≤ e
    → e % second ≡ 0
    → renewal_expiry current now days % second ≡ 0
unfolding renewal_expiry
whole_target current now e days h later whole = rw h (omega arith)

module _ {W : Type 0} (client : RebeccaClient W) (product : Product) (now : Instant) where
  -- The last line of the `try` block.
  unfoldable enable_lapsed : Admin → Action (ApplyState W) (Unit {0})
  enable_lapsed live = do
    reseller ← gets (λ s. s.reseller)
    if is_lapsed reseller.status then remote (client.enable_admin live.username) else pure tt

  caught :
      (m : Action (ApplyState W) (Unit {0})) (h : Exception → Action (ApplyState W) (Unit {0}))
      (s t : ApplyState W)
      → m s ≡ (ok tt, t)
      → catch m h s ≡ (ok tt, t)
  caught m h s t e =
      let passes : (m s).0 ≡ ok tt = ap (λ x. x.0) e in
      let moved : (m s).1 ≡ t = ap (λ x. x.1) e in rw (passes, moved, catch) refl

  mutate-ok :
      (t : Target) (live a : Admin) (s : ApplyState W)
      → (client.update_admin live.username (renewal_payload t) s.world).0 ≡ ok a
      → is_lapsed s.reseller.status ≡ false
      → mutate client t live s ≡ (
        ok tt,
        record s { world = (client.update_admin live.username (renewal_payload t) s.world).1 },
      )
  unfolding mutate enable_lapsed
  mutate-ok t live a s e lapsed =
      let update = remote (client.update_admin live.username (renewal_payload t)) in
      let t1 = record s {
        world = (client.update_admin live.username (renewal_payload t) s.world).1;
      } in
      let updated : (update s).0 ≡ ok a = rw e refl in
      let enabled : enable_lapsed live t1 ≡ (ok tt, t1) = rw (lapsed, enable_lapsed) refl in
      caught (update >> enable_lapsed live) (λ x. set_error (some x.message) >> reraise x) s t1
        (>>=-state update (λ _. enable_lapsed live) s updated ∙ enabled)

  verify-ok :
      (target : Target) (live : Admin) (s : ApplyState W)
      → matches live target ≡ true
      → verify product now target (some live) s ≡ (ok true, finish product now s)
  unfolding verify
  verify-ok target live s h = rw (h, verify) refl

  -- The second part, at a state where the two calls of Rebecca go well.
  carry_out-ok :
      (target : Target) (live a later : Admin) (s : ApplyState W)
      → let w = (client.update_admin live.username (renewal_payload target) s.world).1 in
        (client.update_admin live.username (renewal_payload target) s.world).0 ≡ ok a
        → is_lapsed s.reseller.status ≡ false
        → (client.get_admin live.username w).0 ≡ ok (some later)
        → matches later target ≡ true
        → ((carry_out client product now live (proceed target) s).0 ≡ ok true)
          × ((carry_out client product now live (proceed target) s).1.order.status
              ≡ OrderStatus.applied)
  unfolding carry_out finish
  carry_out-ok target live a later s e lapsed read same =
      let act = mutate client target live in
      let mutated = mutate-ok target live a s e lapsed in
      let passes : (act s).0 ≡ ok tt = ap (λ x. x.0) mutated in
      let moved = ap (λ x. x.1) mutated in
      let t = record s {
        world = (client.update_admin live.username (renewal_payload target) s.world).1;
      } in
      let rest = remote (client.get_admin live.username) >>= verify product now target in
      let second_part : rest t ≡ (
        ok true,
        finish product now (record t { world = (client.get_admin live.username t.world).1 }),
      ) =
        >>=-state (remote (client.get_admin live.username)) (verify product now target) t read
        ∙ verify-ok target later (record t { world = (client.get_admin live.username t.world).1 })
            same in
      rw (>>=-state act (λ _. rest) s passes) (rw moved (rw second_part (refl, refl)))

  entitled_whole :
      (live : Admin) (e : Instant)
      → live.expire ≡ some e
      → now ≤ e
      → e % second ≡ 0
      → (entitlement (renewal (target_snapshot live product now))).expire % second ≡ 0
  unfolding entitlement target_snapshot
  entitled_whole live e expiry later whole =
      whole_target live.expire now e product.duration_days expiry later whole

  entitled_positive :
      (live : Admin) (e : Instant)
      → live.expire ≡ some e
      → 0 < e
      → 0 < (entitlement (renewal (target_snapshot live product now))).expire
  unfolding entitlement target_snapshot renewal_expiry
  entitled_positive live e expiry positive = rw expiry (omega arith)

  target-matches :
      (live : Admin)
      → live.role ≡ lit "reseller"
      → normalize_status live.status ≡ normalize_status (lit "active")
      → let target = renewal (target_snapshot live product now) in
        matches (renewed (entitlement target) live) target ≡ true
  unfolding target_snapshot
  target-matches live role status =
      renewed-matches live (target_snapshot live product now) role status

  prepare-plan :
      (persist : Option (Order → Reseller → Action W (Unit {0}))) (live : Admin) (s : ApplyState W)
      → persisted_target s.order ≡ none
      → let s' = record s { order = with_plan product now live s.order } in
        (save persist s' s.world).0 ≡ ok tt
        → prepare product now persist live s ≡ (
          ok (proceed (renewal (target_snapshot live product now))),
          record s' { world = (save persist s' s.world).1 },
        )
  unfolding prepare plan
  prepare-plan persist live s fresh saved =
      let s' = record s { order = with_plan product now live s.order } in
      let progress = proceed (renewal (target_snapshot live product now)) in
      rw (fresh, prepare) (>>=-state (remote (save persist s')) (λ _. pure progress) s' saved)

  -- Take a persisting that succeeds, and a Rebecca where an update of an administrator just read succeeds and the
  -- next read shows the administrator with the entitlement of the update (`Obeys`). Then the first attempt
  -- carries a renewal out: the call returns true and the order is applied. The reseller is neither suspended
  -- nor lapsed, its administrator is an active reseller whose expiry is a whole second, not 0, that has not
  -- passed, and the order has no target yet.
  pub renewal_succeeds :
      (persist : Option (Order → Reseller → Action W (Unit {0}))) (live : Admin) (e : Instant)
      (s : ApplyState W)
      → Obeys client persist
      → is_skipped s ≡ false
      → is_lapsed s.reseller.status ≡ false
      → persisted_target s.order ≡ none
      → (client.get_admin (or_else s.reseller.rebecca_admin_username []) s.world).0 ≡ ok (some live)
      → live.role ≡ lit "reseller"
      → normalize_status live.status ≡ normalize_status (lit "active")
      → live.expire ≡ some e
      → 0 < e
      → now ≤ e
      → e % second ≡ 0
      → ((apply_order client product now persist s).0 ≡ ok true)
        × ((apply_order client product now persist s).1.order.status ≡ OrderStatus.applied)
  unfolding apply_order find_live apply_live
  renewal_succeeds persist live e s obeys runs awake fresh found role status expiry positive later
        whole =
      let target = renewal (target_snapshot live product now) in
      let u = or_else s.reseller.rebecca_admin_username [] in
      let find = find_live client s.reseller in
      let s1 = (find s).1 in
      let s2 = record s1 { order = with_plan product now live s1.order } in
      let (a, updated, read) =
        obeys.updates u s.world live target s2 found (entitled_positive live e expiry positive)
          (entitled_whole live e expiry later whole) in
      let planned = record s2 { world = (save persist s2 s1.world).1 } in
      let first : prepare product now persist live s1 ≡ (ok (proceed target), planned) =
        prepare-plan persist live s1 fresh (obeys.persists s2 s1.world) in
      let passes : (prepare product now persist live s1).0 ≡ ok (proceed target) =
        ap (λ x. x.0) first in
      let moved : (prepare product now persist live s1).1 ≡ planned = ap (λ x. x.1) first in
      let rest = carry_out client product now live in
      let last =
        carry_out-ok target live a (renewed (entitlement target) live) planned updated awake read
          (target-matches live role status) in
      rw (runs, apply_order)
        (rw (>>=-state find (apply_live client product now persist) s found)
          (rw (>>=-state (prepare product now persist live) rest s1 passes) (rw moved last)))
