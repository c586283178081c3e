-- ===== src/Payments/Service/Named.antt =====
-- `apply_order` leaves the reseller its administrator.
use rebecca_reseller_bot.Prelude.{
  ◌≡◌, refl, ◌∙◌, Option, none, some, arith, inl, inr, Bool-cases, Option-cases,
}
use rebecca_reseller_bot.Prelude.Text.{Text}
use rebecca_reseller_bot.Prelude.Time.{Instant}
use rebecca_reseller_bot.Prelude.Effects.{Action, Result-cases, >>=-state, ◌>>=◌}
use rebecca_reseller_bot.Rebecca.Models.{Admin}
use rebecca_reseller_bot.Rebecca.Interface.{RebeccaClient}
use rebecca_reseller_bot.Database.Models.{Order, Reseller, Product, Snapshot, Target}
use rebecca_reseller_bot.Payments.Service.Apply.{
  ApplyState, Progress, done, proceed, persisted_target, reactivated, plan, recover, mutate, verify,
  finish, carry_out, prepare, apply_live, is_skipped, find_live, apply_order,
}

-- The username of the reseller's administrator.
abbrev pub admin_name : {W : Type 0} → ApplyState W → Option Text
admin_name s = s.reseller.rebecca_admin_username

reactivated-name :
    (r : Reseller) → (reactivated r).rebecca_admin_username ≡ r.rebecca_admin_username
unfolding reactivated
reactivated-name r = ground arith

module _ {W : Type 0} (client : RebeccaClient W) (product : Product) (now : Instant)
    (persist : Option (Order → Reseller → Action W (Unit {0}))) where
  mutate-name :
      (t : Target) (live : Admin) (s : ApplyState W)
      → admin_name (mutate client t live s).1 ≡ admin_name s
  unfolding mutate
  mutate-name t live s = ground arith

  verify-name :
      (t : Target) (found : Option Admin) (s : ApplyState W)
      → admin_name (verify product now t found s).1 ≡ admin_name s
  unfolding verify finish
  verify-name t none s = refl
  verify-name t (some live) s = ground (arith, reactivated-name s.reseller)

  carry_out-name :
      (p : Progress) (live : Admin) (s : ApplyState W)
      → admin_name (carry_out client product now live p s).1 ≡ admin_name s
  unfolding carry_out
  carry_out-name done live s = refl
  carry_out-name (proceed t) live s =
      let s₁ = (mutate client t live s).1 in
      let w₂ = (client.get_admin live.username s₁.world).1 in
      elim (Result-cases (client.get_admin live.username s₁.world).0) [
        | inl (found, e) ↦
            ground (arith, mutate-name t live s, verify-name t found (record s₁ { world = w₂ }))
        | inr (_, e) ↦ ground (arith, mutate-name t live s)
      ]

  recover-name :
      (target : Target) (before : Option Snapshot) (live : Admin) (s : ApplyState W)
      → admin_name (recover now target before live s).1 ≡ admin_name s
  unfolding recover
  recover-name target none live s = refl
  recover-name target (some before) live s = ground (arith, reactivated-name s.reseller)

  prepare-name :
      (live : Admin) (s : ApplyState W)
      → admin_name (prepare product now persist live s).1 ≡ admin_name s
  unfolding prepare plan
  prepare-name live s = elim (Option-cases (persisted_target s.order)) [
    | inl e ↦ rw (e, prepare) (ground arith)
    | inr (t, e) ↦ rw (e, prepare) (recover-name t s.order.before_snapshot live s)
  ]

  apply_live-name :
      (found : Option Admin) (s : ApplyState W)
      → admin_name (apply_live client product now persist found s).1 ≡ admin_name s
  unfolding apply_live
  apply_live-name none s = refl
  apply_live-name (some live) s =
      let first = prepare product now persist live in
      elim (Result-cases (first s).0) [
        | inl (p, e) ↦
            rw (>>=-state first (carry_out client product now live) s e)
              (carry_out-name p live (first s).1 ∙ prepare-name live s)
        | inr (_, e) ↦ rw (e, ◌>>=◌) (prepare-name live s)
      ]

  pub apply_order-name :
      (s : ApplyState W) → admin_name (apply_order client product now persist s).1 ≡ admin_name s
  unfolding apply_order find_live
  apply_order-name s =
      let find = find_live client s.reseller in
      elim (Bool-cases (is_skipped s)) [
        | inl e ↦ rw (e, apply_order) refl
        | inr e ↦ elim (Result-cases (find s).0) [
          | inl (found, f) ↦
              rw (e, apply_order)
                (rw (>>=-state find (apply_live client product now persist) s f)
                  (apply_live-name found (find s).1))
          | inr (_, f) ↦ rw (e, apply_order) (rw (f, ◌>>=◌) refl)
        ]
      ]
