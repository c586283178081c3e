-- ===== src/Reseller/Quota/Laws.antt =====
-- What a renewal gives, and when an entitlement counts as exhausted.
use rebecca_reseller_bot.Prelude.{
  ℕ, ◌≤◌, ◌<◌, ◌≡◌, ◌⊎◌, ◌↔◌, true, false, Option, none, some, arith, or_else, refl, inl, inr, leb,
  Bool-cases,
}
use rebecca_reseller_bot.Prelude.Int.{ℤ, pos, ◌+ℤ◌, ◌-ℤ◌, ◌≤ℤ◌, ◌<ℤ◌, max_ℤ}
use rebecca_reseller_bot.Prelude.Time.{Instant}
use rebecca_reseller_bot.Reseller.Quota.{renewal_expiry, renewal_data_limit, exhausted}

-- For a use that is not negative, a renewal adds what was bought to the larger of the old limit and
-- the use; a missing limit counts as the use.
pub renewal_data_limit_lem :
    (limit : Option ℤ) (used purchased : ℤ)
    → pos 0 ≤ℤ used
    → renewal_data_limit limit used purchased ≡ max_ℤ (or_else limit used) used +ℤ purchased
unfolding renewal_data_limit max_ℤ
renewal_data_limit_lem none used purchased h = ground arith
renewal_data_limit_lem (some limit) used purchased h = ground arith

-- After a renewal the traffic left is exactly what was left before, or nothing, plus what was bought.
pub renewal_remaining :
    (limit used purchased : ℤ)
    → pos 0 <ℤ limit
    → renewal_data_limit (some limit) used purchased -ℤ used
      ≡ max_ℤ (limit -ℤ used) (pos 0) +ℤ purchased
unfolding renewal_data_limit max_ℤ ◌+ℤ◌ ◌-ℤ◌
renewal_remaining limit used purchased h = ground arith

-- A renewal for at least a day and some traffic, of a use that is not negative, leaves an entitlement
-- that is not exhausted at that time.
pub renewal-not_exhausted :
    (current : Option Instant) (limit : Option ℤ) (used purchased : ℤ) (now : Instant) (days : ℕ)
    → pos 0 ≤ℤ used
    → pos 0 <ℤ purchased
    → 0 < days
    → exhausted
        (some (renewal_expiry current now days))
        (some (renewal_data_limit limit used purchased))
        used
        now
      ≡ false
unfolding exhausted renewal_expiry renewal_data_limit ◌+ℤ◌ ◌-ℤ◌
renewal-not_exhausted current none used purchased now days h p d = ground arith
renewal-not_exhausted current (some limit) used purchased now days h p d = ground arith

-- An entitlement is exhausted exactly if its expiry has come, or it has a positive limit that the use
-- has reached.
pub exhausted_iff :
    (expire : Option Instant) (limit : Option ℤ) (used : ℤ) (now : Instant)
    → (exhausted expire limit used now ≡ true) ↔ (
        ((t : Instant) × (expire ≡ some t) × (t ≤ now))
        ⊎ ((l : ℤ) × (limit ≡ some l) × (pos 0 <ℤ l) × (l ≤ℤ used)))
unfolding exhausted ◌-ℤ◌
exhausted_iff none none used now = ((λ h. ground arith), (λ h. ground arith))
exhausted_iff (some t) none used now = ((λ h. inl (t, refl, ground arith)), (λ h. ground arith))
exhausted_iff none (some l) used now =
    ((λ h. inr (l, refl, ground arith, ground arith)), (λ h. ground arith))
exhausted_iff (some t) (some l) used now = (
  (λ h. elim (Bool-cases (leb t now)) [
    | inl e ↦ inl (t, refl, ground arith)
    | inr e ↦ inr (l, refl, ground arith, ground arith)
  ]),
  (λ h. ground arith),
)
