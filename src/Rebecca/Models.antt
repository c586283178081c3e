-- ===== src/Rebecca/Models.antt =====
-- app/rebecca/models.py: statuses, expiry times, and the administrators and users that Rebecca
-- reports. The field `raw`, which no code reads, is left out.
use rebecca_reseller_bot.Prelude.{ℕ, ◌/◌, Bool, Option, none, some, List, [], ◌∷◌, if◌then◌else◌}
use rebecca_reseller_bot.Prelude.Int.{ℤ}
use rebecca_reseller_bot.Prelude.Text.{Text, lit, lower, strip, one_of}
use rebecca_reseller_bot.Prelude.Time.{Instant, second}

unfoldable pub normalize_status : Text → Text
unfolding lower strip one_of lit
normalize_status value =
    let normalized = strip (lower value) in
    if one_of normalized (lit "active" ∷ lit "enabled" ∷ [])
    then lit "active"
    else if one_of normalized (lit "disabled" ∷ lit "inactive" ∷ [])
    then lit "disabled"
    else normalized

-- `serialize_expire` at an aware time: whole seconds.
unfoldable pub serialize_expire : Option Instant → Option ℕ
serialize_expire none = none
serialize_expire (some value) = some (value / second)

-- An element of `services: list[int | str]`.
pub data ServiceId : Type 0 where
  number : ℤ → ServiceId
  name : Text → ServiceId

pub record Admin : Type 0 where
  pub username : Text
  pub role : Text
  pub status : Text
  pub expire : Option Instant
  pub data_limit : Option ℤ
  pub data_limit_unlimited : Bool
  pub used_traffic : ℤ
  pub services : List ServiceId
  pub users_limit : Option ℤ

pub record User : Type 0 where
  pub username : Text
  pub admin_username : Option Text
  pub status : Text
  pub expire : Option Instant
  pub data_limit : Option ℤ
  pub data_limit_unlimited : Bool
  pub used_traffic : ℤ
