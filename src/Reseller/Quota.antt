-- ===== src/Reseller/Quota.antt =====
-- app/reseller/quota.py: the arithmetic of renewals and of exhaustion.
pub mod Laws
use rebecca_reseller_bot.Prelude.{
  ℕ, ◌+◌, ◌*◌, max, Bool, false, ◌&&◌, ◌||◌, Option, none, some, leb, or_else, if◌then◌else◌,
}
use rebecca_reseller_bot.Prelude.Int.{ℤ, pos, ◌+ℤ◌, ◌-ℤ◌, ltb_ℤ, leb_ℤ}
use rebecca_reseller_bot.Prelude.Time.{Instant, day}

unfoldable pub renewal_expiry : Option Instant → Instant → ℕ → Instant
renewal_expiry current now days = max (or_else current now) now + days * day

unfoldable pub renewal_data_limit : Option ℤ → ℤ → ℤ → ℤ
renewal_data_limit none used purchased = used +ℤ purchased
renewal_data_limit (some limit) used purchased =
    if leb_ℤ limit (pos 0)
    then used +ℤ purchased
    else if ltb_ℤ used limit
    then limit +ℤ purchased
    else used +ℤ purchased

unfoldable pub time_exhausted : Option Instant → Instant → Bool
time_exhausted none now = false
time_exhausted (some expire) now = leb expire now

unfoldable pub traffic_exhausted : Option ℤ → ℤ → Bool
traffic_exhausted none used = false
traffic_exhausted (some limit) used = ltb_ℤ (pos 0) limit && leb_ℤ (limit -ℤ used) (pos 0)

unfoldable pub exhausted : Option Instant → Option ℤ → ℤ → Instant → Bool
unfolding time_exhausted traffic_exhausted
exhausted expire limit used now = time_exhausted expire now || traffic_exhausted limit used
