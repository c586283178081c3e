-- ===== src/Payments/Service/Target.antt =====
-- The snapshots of an order are written once, and success is confirmed by a read.
use rebecca_reseller_bot.Prelude.{◌≡◌, refl, true, Option, none, some, arith, inl, inr, or_else, []}
use rebecca_reseller_bot.Prelude.Text.{Text}
use rebecca_reseller_bot.Prelude.Time.{Instant}
use rebecca_reseller_bot.Prelude.Effects.{Action, ok, Result-cases}
use rebecca_reseller_bot.Rebecca.Models.{Admin}
use rebecca_reseller_bot.Rebecca.Interface.{RebeccaClient}
use rebecca_reseller_bot.Database.Models.{Order, Reseller, Product, Target, Snapshot}
use rebecca_reseller_bot.Payments.Service.Snapshots.{matches}
use rebecca_reseller_bot.Payments.Service.Apply.{
  ApplyState, Progress, done, proceed, persisted_target, recover, mutate, finish, verify, carry_out,
  prepare, apply_live, apply_order, find_live,
}

-- The two snapshots of `b` are those of `a`.
abbrev pub SameSnapshots : Order → Order → Type 0
SameSnapshots a b = (b.after_snapshot ≡ a.after_snapshot) × (b.before_snapshot ≡ a.before_snapshot)

-- An administrator that a call of `get_admin` returned, and that matches the order's target.
pub record Confirmed {W : Type 0} (client : RebeccaClient W) (order : Order) : Type 0 where
  pub target : Target
  pub live : Admin
  pub username : Text
  pub world : W
  pub is_target : persisted_target order ≡ some target
  pub is_match : matches live target ≡ true
  pub is_read : (client.get_admin username world).0 ≡ ok (some live)

module _ {W : Type 0} (client : RebeccaClient W) (product : Product) (now : Instant)
    (persist : Option (Order → Reseller → Action W (Unit {0}))) where
  pub mutate-snapshots :
      (target : Target) (live : Admin) (s : ApplyState W)
      → SameSnapshots s.order (mutate client target live s).1.order
  unfolding mutate
  mutate-snapshots target live s = ground arith

  pub carry_out-snapshots :
      (live : Admin) (p : Progress) (s : ApplyState W)
      → SameSnapshots s.order (carry_out client product now live p s).1.order
  unfolding carry_out verify finish
  carry_out-snapshots live done s = ground arith
  carry_out-snapshots live (proceed target) s = ground (arith, mutate-snapshots target live s)

  pub recover-snapshots :
      (target : Target) (before : Option Snapshot) (live : Admin) (s : ApplyState W)
      → SameSnapshots s.order (recover now target before live s).1.order
  unfolding recover
  recover-snapshots target none live s = ground arith
  recover-snapshots target (some before) live s = ground arith

  prepare-snapshots :
      (live : Admin) (s : ApplyState W) (target : Target)
      → persisted_target s.order ≡ some target
      → SameSnapshots s.order (prepare product now persist live s).1.order
  unfolding prepare
  prepare-snapshots live s target h =
      rw (h, prepare) (recover-snapshots target s.order.before_snapshot live s)

  apply_live-snapshots :
      (found : Option Admin) (s : ApplyState W) (target : Target)
      → persisted_target s.order ≡ some target
      → SameSnapshots s.order (apply_live client product now persist found s).1.order
  unfolding apply_live
  apply_live-snapshots none s target h = (refl, refl)
  apply_live-snapshots (some live) s target h =
      grind (arith, prepare-snapshots live s target h, carry_out-snapshots)

  -- Once a target is persisted, no call of `apply_order` changes the order's before snapshot or its
  -- target, whatever the client does and however the call ends.
  pub apply_order-snapshots :
      (s : ApplyState W) (target : Target)
      → persisted_target s.order ≡ some target
      → SameSnapshots s.order (apply_order client product now persist s).1.order
  unfolding apply_order find_live
  apply_order-snapshots s target h =
      let u = or_else s.reseller.rebecca_admin_username [] in
      elim (Result-cases (client.get_admin u s.world).0) [
        | inl (found, e) ↦ ground (
          arith,
          apply_live-snapshots found (record s { world = (client.get_admin u s.world).1 }) target h,
        )
        | inr (_, e) ↦ ground arith
      ]

  pub verify-true :
      (target : Target) (found : Option Admin) (s : ApplyState W)
      → (verify product now target found s).0 ≡ ok true
      → (live : Admin) × (found ≡ some live)
        × (matches live target ≡ true)
        × ((verify product now target found s).1 ≡ finish product now s)
  unfolding verify
  verify-true target none s h = cc
  verify-true target (some live) s h = (live, refl, ground arith, ground arith)
