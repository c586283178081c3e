-- ===== src/Payments/Service/Once.antt =====
-- Repeated calls of `apply_order`, and the traffic that they add.
use rebecca_reseller_bot.Prelude.{
  ◌≡◌, refl, ap, sym, ◌∙◌, ◌⊎◌, Option, none, some, List, [], ◌∷◌, arith, inl, inr, or_else,
  Bool-cases,
}
use rebecca_reseller_bot.Prelude.Int.{ℤ}
use rebecca_reseller_bot.Prelude.Time.{Instant}
use rebecca_reseller_bot.Prelude.Text.{Text}
use rebecca_reseller_bot.Prelude.Effects.{Action, ok, Result-cases, >>=-state, ◌>>=◌}
use rebecca_reseller_bot.Rebecca.Models.{Admin}
use rebecca_reseller_bot.Rebecca.Interface.{RebeccaClient, AdminPayload}
use rebecca_reseller_bot.Database.Models.{Order, Reseller, Product, Snapshot, Target, renewal}
use rebecca_reseller_bot.Payments.Service.Snapshots.{target_snapshot, entitlement}
use rebecca_reseller_bot.Payments.Service.Success.{
  persisted_target_of_same, order-plan, Prepared, prepare-Prepared,
}
use rebecca_reseller_bot.Payments.Service.Named.{apply_order-name}
use rebecca_reseller_bot.Payments.Service.Target.{recover-snapshots, carry_out-snapshots}
use rebecca_reseller_bot.Payments.Service.Apply.{
  ApplyState, Progress, done, proceed, persisted_target, save, plan, with_plan, recover, mutate,
  verify, finish, carry_out, prepare, apply_live, is_skipped, find_live, apply_order,
}

-- What the service does with the stored data limit of the administrator `who`: a read of `who` shows it, an
-- update of an administrator leaves it or sets it to what the payload says, and nothing else here changes it.
pub record KeepsLimit {W : Type 0} (client : RebeccaClient W)
    (persist : Option (Order → Reseller → Action W (Unit {0}))) (who : Text) (limit : W → Option ℤ)
    : Type 0 where
  pub get_reads :
      (w : W) (a : Admin) → (client.get_admin who w).0 ≡ ok (some a) → a.data_limit ≡ limit w
  pub get_keeps : (u : Text) (w : W) → limit (client.get_admin u w).1 ≡ limit w
  pub update_sets :
      (u : Text) (p : AdminPayload) (w : W)
      → (limit (client.update_admin u p w).1 ≡ limit w)
        ⊎ ((u ≡ who) × (limit (client.update_admin u p w).1 ≡ some p.entitlement.data_limit))
  pub enable_keeps : (u : Text) (w : W) → limit (client.enable_admin u w).1 ≡ limit w
  pub persist_keeps : (s : ApplyState W) (w : W) → limit (save persist s w).1 ≡ limit w

-- One call after another, each at its own time; what a call raises is caught by the caller.
unfoldable pub attempts :
    {W : Type 0}
    → RebeccaClient W
    → Product
    → Option (Order → Reseller → Action W (Unit {0}))
    → List Instant
    → ApplyState W
    → ApplyState W
attempts client product persist [] s = s
attempts client product persist (now ∷ nows) s =
    attempts client product persist nows (apply_order client product now persist s).1

-- The limit is the old one, or the target's.
abbrev pub OneOf : Option ℤ → Option ℤ → Target → Type 0
OneOf l old t = (l ≡ old) ⊎ (l ≡ some (entitlement t).data_limit)

module _ {W : Type 0} (client : RebeccaClient W) (product : Product)
    (persist : Option (Order → Reseller → Action W (Unit {0}))) (who : Text) (limit : W → Option ℤ)
    (laws : KeepsLimit client persist who limit) where
  -- Either the order has no target and the limit of `who` is untouched, or it has the target calculated from
  -- a read of `who` that showed the old limit, and the limit is the old one or that target's.
  abbrev pub Spent : Option ℤ → ApplyState W → Type 0
  Spent old s =
      ((persisted_target s.order ≡ none) × (limit s.world ≡ old))
      ⊎ ((live : Admin) × (at : Instant) × (w : W) × ((client.get_admin who w).0 ≡ ok (some live))
          × (live.data_limit ≡ old)
          × (persisted_target s.order ≡ some (renewal (target_snapshot live product at)))
          × OneOf (limit s.world) old (renewal (target_snapshot live product at)))

  mutate-OneOf :
      (t : Target) (live : Admin) (s : ApplyState W)
      → OneOf (limit (mutate client t live s).1.world) (limit s.world) t
  unfolding mutate
  mutate-OneOf t live s =
      let p : AdminPayload = record {
        username = none;
        credentials = none;
        entitlement = entitlement t;
      } in
      ground (
        arith,
        laws.update_sets live.username p s.world,
        laws.enable_keeps live.username (client.update_admin live.username p s.world).1,
      )

  world-verify :
      (now : Instant) (t : Target) (found : Option Admin) (s : ApplyState W)
      → (verify product now t found s).1.world ≡ s.world
  unfolding verify finish
  world-verify now t none s = refl
  world-verify now t (some live) s = ground arith

  carry_out-OneOf :
      (now : Instant) (t : Target) (live : Admin) (s : ApplyState W)
      → OneOf (limit (carry_out client product now live (proceed t) s).1.world) (limit s.world) t
  unfolding carry_out
  carry_out-OneOf now t live s =
      let s₁ = (mutate client t live s).1 in
      let w₂ = (client.get_admin live.username s₁.world).1 in
      elim (Result-cases (client.get_admin live.username s₁.world).0) [
        | inl (found, e) ↦ ground (
          arith,
          mutate-OneOf t live s,
          laws.get_keeps live.username s₁.world,
          world-verify now t found (record s₁ { world = w₂ }),
        )
        | inr (_, e) ↦ ground (arith, mutate-OneOf t live s, laws.get_keeps live.username s₁.world)
      ]

  -- `Spent` after the last part of the call.
  carry_out-Spent :
      (now : Instant) (old : Option ℤ) (live : Admin) (p : Progress) (s : ApplyState W)
      → Prepared client product now persist p s.order
      → Spent old s
      → Spent old (carry_out client product now live p s).1
  carry_out-Spent now old live done s prepared h = unfold carry_out in h
  carry_out-Spent now old live (proceed q) s prepared (inl (fresh, l)) =
      absurd (cc (prepared, fresh))
  carry_out-Spent now old live (proceed q) s prepared (inr (seen, at, w, r, e, t, one)) =
      let same : q ≡ renewal (target_snapshot seen product at) = cc in
      let final = (carry_out client product now live (proceed q) s).1 in
      let kept = (carry_out-snapshots client product now persist live (proceed q) s).0 in
      inr (
        seen,
        at,
        w,
        r,
        e,
        persisted_target_of_same s.order final.order kept ∙ t,
        ground (arith, carry_out-OneOf now q live s),
      )

  recover-world :
      (now : Instant) (target : Target) (before : Option Snapshot) (live : Admin) (s : ApplyState W)
      → (recover now target before live s).1.world ≡ s.world
  unfolding recover
  recover-world now target none live s = refl
  recover-world now target (some before) live s = ground arith

  plan-world :
      (now : Instant) (live : Admin) (s : ApplyState W)
      → limit (plan product now persist live s).1.world ≡ limit s.world
  unfolding plan
  plan-world now live s =
      let s' = record s { order = with_plan product now live s.order } in
      elim (Result-cases (save persist s' s.world).0) [
        | inl (_, e) ↦ ground (arith, laws.persist_keeps s' s.world)
        | inr (_, e) ↦ ground (arith, laws.persist_keeps s' s.world)
      ]

  recover-Spent :
      (now at : Instant) (old : Option ℤ) (live seen : Admin) (before : Option Snapshot) (w : W)
      (s : ApplyState W)
      → (client.get_admin who w).0 ≡ ok (some seen)
      → seen.data_limit ≡ old
      → persisted_target s.order ≡ some (renewal (target_snapshot seen product at))
      → OneOf (limit s.world) old (renewal (target_snapshot seen product at))
      → Spent old (recover now (renewal (target_snapshot seen product at)) before live s).1
  recover-Spent now at old live seen before w s read d t one =
      let target = renewal (target_snapshot seen product at) in
      let r = (recover now target before live s).1 in
      let same = (recover-snapshots client product now persist target before live s).0 in
      inr (
        seen,
        at,
        w,
        read,
        d,
        persisted_target_of_same s.order r.order same ∙ t,
        rw (recover-world now target before live s) one,
      )

  prepare-Spent :
      (now : Instant) (old : Option ℤ) (live : Admin) (w : W) (s : ApplyState W)
      → (client.get_admin who w).0 ≡ ok (some live)
      → live.data_limit ≡ limit s.world
      → Spent old s
      → Spent old (prepare product now persist live s).1
  unfolding prepare with_plan persisted_target
  prepare-Spent now old live w s read e (inl (fresh, l)) =
      rw (fresh, prepare)
        (inr (live, now, w, read, e ∙ l, rw order-plan refl, inl (plan-world now live s ∙ l)))
  prepare-Spent now old live _ s _ e (inr (seen, at, w, read, d, t, one)) =
      rw (t, prepare) (recover-Spent now at old live seen s.order.before_snapshot w s read d t one)

  apply_live-Spent :
      (now : Instant) (old : Option ℤ) (found : Option Admin) (w : W) (s : ApplyState W)
      → (client.get_admin who w).0 ≡ ok found
      → limit w ≡ limit s.world
      → Spent old s
      → Spent old (apply_live client product now persist found s).1
  unfolding apply_live
  apply_live-Spent now old none w s r same h = h
  apply_live-Spent now old (some live) w s r same h =
      let first = prepare product now persist live in
      let rest = carry_out client product now live in
      let spent = prepare-Spent now old live w s r (laws.get_reads w live r ∙ same) h in
      elim (Result-cases (first s).0) [
        | inl (p, e) ↦ rw (>>=-state first rest s e) (
            carry_out-Spent now old live p (first s).1
              (prepare-Prepared client product now persist live who w s p r e) spent)
        | inr (_, e) ↦ rw (e, ◌>>=◌) spent
      ]

  apply_order-Spent :
      (now : Instant) (old : Option ℤ) (s : ApplyState W)
      → or_else s.reseller.rebecca_admin_username [] ≡ who
      → Spent old s
      → Spent old (apply_order client product now persist s).1
  unfolding apply_order find_live
  apply_order-Spent now old s named h =
      let find = find_live client s.reseller in
      let rest = apply_live client product now persist in
      let u = or_else s.reseller.rebecca_admin_username [] in
      let keep = laws.get_keeps u s.world in
      let moved : Spent old (find s).1 = rw keep h in
      elim (Bool-cases (is_skipped s)) [
        | inl e ↦ rw (e, apply_order) h
        | inr e ↦ elim (Result-cases (find s).0) [
          | inl (found, f) ↦
              rw (e, apply_order)
                (rw (>>=-state find rest s f) (
                  apply_live-Spent now old found s.world (find s).1 (rw named at f) (sym keep)
                    moved))
          | inr (_, f) ↦ rw (e, apply_order) (rw (f, ◌>>=◌) moved)
        ]
      ]

  -- Take the administrator `who` of the reseller, and a service that changes its stored data limit only by an
  -- update of `who`, which sets what the payload says, or not at all (`KeepsLimit`). Then any number of calls of
  -- `apply_order`, at any times and however each ends, keeps `Spent`: the limit of `who` is the one before
  -- the order, or that of the one target calculated from it, never a sum of several. Other administrators
  -- may have any limits.
  pub attempts-Spent :
      (nows : List Instant) (old : Option ℤ) (s : ApplyState W)
      → or_else s.reseller.rebecca_admin_username [] ≡ who
      → Spent old s
      → Spent old (attempts client product persist nows s)
  unfolding attempts
  attempts-Spent [] old s named h = h
  attempts-Spent (now ∷ nows) old s named h =
      let next = (apply_order client product now persist s).1 in
      attempts-Spent nows old next
        (ap (λ (x : Option Text). or_else x []) (apply_order-name client product now persist s)
          ∙ named)
        (apply_order-Spent now old s named h)
