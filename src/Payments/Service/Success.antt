-- ===== src/Payments/Service/Success.antt =====
-- What `apply_order` has established when it returns true, and what it leaves when it raises.
use rebecca_reseller_bot.Prelude.{
  ◌≡◌, refl, ap, ◌∙◌, true, Option, none, some, arith, inl, inr, or_else, [], Bool-cases,
  Option-cases,
}
use rebecca_reseller_bot.Prelude.Time.{Instant}
use rebecca_reseller_bot.Prelude.Text.{Text}
use rebecca_reseller_bot.Prelude.Effects.{Action, ok, Result-cases, >>=-eq-ok, >>=-state, ◌>>=◌}
use rebecca_reseller_bot.Rebecca.Models.{Admin}
use rebecca_reseller_bot.Rebecca.Interface.{RebeccaClient}
use rebecca_reseller_bot.Database.Models.{
  Order, OrderStatus, Reseller, Product, Target, Snapshot, renewal,
}
use rebecca_reseller_bot.Payments.Service.Snapshots.{matches, target_snapshot}
use rebecca_reseller_bot.Payments.Service.Target.{
  Confirmed, carry_out-snapshots, recover-snapshots, verify-true,
}
use rebecca_reseller_bot.Payments.Service.Apply.{
  ApplyState, Progress, done, proceed, persisted_target, save, with_plan, plan, recover, mutate,
  finish, verify, carry_out, prepare, apply_live, is_skipped, find_live, apply_order, remote,
}

-- The order is marked as applied, and an administrator that Rebecca reported matches its target.
pub record Succeeded {W : Type 0} (client : RebeccaClient W) (now : Instant) (order : Order)
    : Type 0 where
  pub is_applied : order.status ≡ OrderStatus.applied
  pub has_no_error : order.apply_error ≡ none
  pub is_dated : order.applied_at ≡ some now
  pub confirmed : Confirmed client order

pub persisted_target_of_same :
    (a b : Order) → b.after_snapshot ≡ a.after_snapshot → persisted_target b ≡ persisted_target a
unfolding persisted_target
persisted_target_of_same a b h = rw h

module _ {W : Type 0} (client : RebeccaClient W) (product : Product) (now : Instant)
    (persist : Option (Order → Reseller → Action W (Unit {0}))) where
  -- A run of `carry_out` that returns true has ended in `finish`, after a matching read.
  carry_out_ok :
      (live : Admin) (t : Target) (s : ApplyState W)
      → (carry_out client product now live (proceed t) s).0 ≡ ok true
      → (v : Admin) × (s₂ : ApplyState W) × (w : W) × (matches v t ≡ true)
        × ((client.get_admin live.username w).0 ≡ ok (some v))
        × ((carry_out client product now live (proceed t) s).1 ≡ finish product now s₂)
  unfolding carry_out
  carry_out_ok live t s h =
      let read = remote (client.get_admin live.username) in
      let (_, m, h₁) = >>=-eq-ok (mutate client t live) (λ _. read >>= verify product now t) s h in
      let s₁ = (mutate client t live s).1 in
      let (found, g, h₂) = >>=-eq-ok read (verify product now t) s₁ h₁ in
      let s₂ = record s₁ { world = (client.get_admin live.username s₁.world).1 } in
      let (v, e, is_match, final) = verify-true client product now persist t found s₂ h₂ in
      (v, s₂, s₁.world, is_match, rw (← e) g, rw (m, ◌>>=◌) (rw (g, ◌>>=◌) final))

  finish-Succeeded :
      (live : Admin) (t : Target) (s : ApplyState W)
      → persisted_target s.order ≡ some t
      → (carry_out client product now live (proceed t) s).0 ≡ ok true
      → Succeeded client now (carry_out client product now live (proceed t) s).1.order
  unfolding finish
  finish-Succeeded live t s p h =
      let (v, s₂, w, is_match, is_read, final) = carry_out_ok live t s h in
      let r = carry_out client product now live (proceed t) s in
      let same = carry_out-snapshots client product now persist live (proceed t) s in
      record {
        is_applied = ap (λ (x : ApplyState W). x.order.status) final;
        has_no_error = ap (λ (x : ApplyState W). x.order.apply_error) final;
        is_dated = ap (λ (x : ApplyState W). x.order.applied_at) final;
        confirmed = record {
          target = t;
          live = v;
          username = live.username;
          world = w;
          is_target = persisted_target_of_same s.order r.1.order same.0 ∙ p;
          is_match = is_match;
          is_read = is_read;
        };
      }

  -- What the first part of the call has established for what comes next.
  abbrev pub Prepared : Progress → Order → Type 0
  Prepared done order = Succeeded client now order
  Prepared (proceed t) order = persisted_target order ≡ some t

  pub plan-ok :
      (live : Admin) (s : ApplyState W) (p : Progress)
      → (plan product now persist live s).0 ≡ ok p
      → p ≡ proceed (renewal (target_snapshot live product now))
  unfolding plan
  plan-ok live s p h =
      elim (Result-cases
        (save persist (record s { order = with_plan product now live s.order }) s.world).0) [
          | inl (_, e) ↦ ground arith
          | inr (_, e) ↦ ground arith
        ]

  pub order-plan :
      (live : Admin) (s : ApplyState W)
      → (plan product now persist live s).1.order ≡ with_plan product now live s.order
  unfolding plan
  order-plan live s =
      elim (Result-cases
        (save persist (record s { order = with_plan product now live s.order }) s.world).0) [
          | inl (_, e) ↦ ground arith
          | inr (_, e) ↦ ground arith
        ]

  plan-Prepared :
      (live : Admin) (s : ApplyState W) (p : Progress)
      → (plan product now persist live s).0 ≡ ok p
      → Prepared p (plan product now persist live s).1.order
  unfolding with_plan persisted_target
  plan-Prepared live s p h = rw (plan-ok live s p h, order-plan) refl

  recover-Prepared :
      (target : Target) (before : Option Snapshot) (live : Admin) (u : Text) (w : W)
      (s : ApplyState W) (p : Progress)
      → (client.get_admin u w).0 ≡ ok (some live)
      → persisted_target s.order ≡ some target
      → (recover now target before live s).0 ≡ ok p
      → Prepared p (recover now target before live s).1.order
  unfolding recover
  recover-Prepared target none live u w s p is_read e h = absurd (cc h)
  recover-Prepared target (some before) live u w s done is_read e h =
      let r = recover now target (some before) live s in
      let m : matches live target ≡ true = ground arith in
      record {
        is_applied = ground arith;
        has_no_error = ground arith;
        is_dated = ground arith;
        confirmed = record {
          target = target;
          live = live;
          username = u;
          world = w;
          is_target =
              persisted_target_of_same s.order r.1.order
                (recover-snapshots client product now persist target (some before) live s).0
              ∙ e;
          is_match = m;
          is_read = is_read;
        };
      }
  recover-Prepared target (some before) live u w s (proceed t) is_read e h =
      let r = recover now target (some before) live s in
      let same : some target ≡ some t = ground arith in
      persisted_target_of_same s.order r.1.order
        (recover-snapshots client product now persist target (some before) live s).0
      ∙ e
      ∙ same

  pub prepare-Prepared :
      (live : Admin) (u : Text) (w : W) (s : ApplyState W) (p : Progress)
      → (client.get_admin u w).0 ≡ ok (some live)
      → (prepare product now persist live s).0 ≡ ok p
      → Prepared p (prepare product now persist live s).1.order
  unfolding prepare
  prepare-Prepared live u w s p is_read h = elim (Option-cases (persisted_target s.order)) [
    | inl e ↦ rw (e, prepare) (plan-Prepared live s p (rw (e, prepare) at h))
    | inr (target, e) ↦
        rw (e, prepare)
          (recover-Prepared target s.order.before_snapshot live u w s p is_read e
            (rw (e, prepare) at h))
  ]

  carry_out-Succeeded :
      (live : Admin) (p : Progress) (s : ApplyState W)
      → Prepared p s.order
      → (carry_out client product now live p s).0 ≡ ok true
      → Succeeded client now (carry_out client product now live p s).1.order
  carry_out-Succeeded live done s prepared h = unfold carry_out in prepared
  carry_out-Succeeded live (proceed t) s prepared h = finish-Succeeded live t s prepared h

  apply_live-Succeeded :
      (found : Option Admin) (u : Text) (w : W) (s : ApplyState W)
      → (client.get_admin u w).0 ≡ ok found
      → (apply_live client product now persist found s).0 ≡ ok true
      → Succeeded client now (apply_live client product now persist found s).1.order
  unfolding apply_live
  apply_live-Succeeded none u w s is_read h = absurd (cc h)
  apply_live-Succeeded (some live) u w s is_read h =
      let first = prepare product now persist live in
      let rest = carry_out client product now live in
      let (p, e, h₁) = >>=-eq-ok first rest s h in
      rw (>>=-state first rest s e)
        (carry_out-Succeeded live p (first s).1 (prepare-Prepared live u w s p is_read e) h₁)

  -- If `apply_order` returns true, then the order is applied, dated now and without an error, and its
  -- target matches an administrator that a call of `get_admin` returned.
  pub apply_order-Succeeded :
      (s : ApplyState W)
      → (apply_order client product now persist s).0 ≡ ok true
      → Succeeded client now (apply_order client product now persist s).1.order
  unfolding apply_order find_live
  apply_order-Succeeded s h =
      let find = find_live client s.reseller in
      let rest = apply_live client product now persist in
      let u = or_else s.reseller.rebecca_admin_username [] in
      elim (Bool-cases (is_skipped s)) [
        | inl e ↦ absurd (ground arith)
        | inr e ↦
            let (found, f, h₁) = >>=-eq-ok find rest s (rw (e, apply_order) at h) in
            rw (e, apply_order)
              (rw (>>=-state find rest s f) (apply_live-Succeeded found u s.world (find s).1 f h₁))
      ]
