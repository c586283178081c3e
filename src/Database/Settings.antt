-- ===== src/Database/Settings.antt =====
-- app/database/settings.py: the settings that the owner can change, with the environment's values
-- behind them.
pub mod Parse
pub mod Ranges
use rebecca_reseller_bot.Prelude.{
  ℕ, zero, suc, ◌+◌, ◌-◌, ◌*◌, Bool, true, false, ◌&&◌, ◌||◌, not, Option, none, some, List, [],
  ◌∷◌, ◌++◌, any, first, if◌then◌else◌,
}
use rebecca_reseller_bot.Prelude.Int.{ℤ, pos, leb_ℤ, ltb_ℤ, eqb_ℤ}
use rebecca_reseller_bot.Prelude.Text.{Text, lit, teq, strip, starts_with, is_empty}
use rebecca_reseller_bot.Prelude.Json.{
  Json, null, bool, int, float, str, arr, obj, Items, nil, cons,
}
use rebecca_reseller_bot.Prelude.Effects.{Result, ok, raised, ErrorKind, Exception}
use rebecca_reseller_bot.Database.Models.{Setting, Database}
use Parse.{int_of, split_commas}

-- The defaults of app/config.py that the service reads; the two tuples as lists of numbers.
pub record Settings : Type 0 where
  pub dry_run : Bool
  pub user_delete_grace_hours : ℤ
  pub trial_duration_hours : ℤ
  pub trial_traffic_gb : ℤ
  pub time_warning_thresholds : List ℤ
  pub traffic_warning_thresholds : List ℤ

unfoldable pub bad_value : {A : Type 0} → Text → Result A
bad_value m = raised (record { kind = ErrorKind.value_error; message = m })

-- `select(Setting.value).where(Setting.key == key)`; a JSON null reads as `None`.
unfoldable pub stored : Text → List Setting → Option Json
stored key settings = elim (first (λ (r : Setting). teq r.key key) settings) [
  | none ↦ none
  | some row ↦ elim row.value [ null ↦ none | v ↦ some v ]
]

unfoldable pub operations_mode : Settings → List Setting → Result Text
operations_mode defaults settings = elim (stored (lit "operations_mode") settings) [
  | none ↦ ok (if defaults.dry_run then lit "dry_run" else lit "live")
  | some (str value) ↦
      if not (teq value (lit "dry_run") || teq value (lit "live"))
      then bad_value (lit "invalid operations_mode")
      else ok value
  | some _ ↦ bad_value (lit "invalid operations_mode")
]

-- Writes the row of that key, and adds it where there is none.
unfoldable pub put_setting : Text → Json → List Setting → List Setting
put_setting key value [] = record { key = key; value = value } ∷ []
put_setting key value (row ∷ rows) =
    if teq row.key key
    then record row { value = value } ∷ rows
    else row ∷ put_setting key value rows

unfoldable pub set_operations_mode : Text → List Setting → Result (List Setting)
set_operations_mode mode settings =
    if not (teq mode (lit "dry_run") || teq mode (lit "live"))
    then bad_value (lit "invalid operations_mode")
    else ok (put_setting (lit "operations_mode") (str mode) settings)

-- `int(await self._value(session, key))`
unfoldable pub int_value : Text → ℤ → List Setting → Result ℤ
int_value key default settings = elim (stored key settings) [
  | none ↦ ok default
  | some v ↦ int_of v
]

-- A number that has to pass a test.
unfoldable pub checked : (ℤ → Bool) → Text → Result ℤ → Result ℤ
checked test m (raised e) = raised e
checked test m (ok value) = if test value then ok value else bad_value m

unfoldable pub grace_hours : Settings → List Setting → Result ℤ
grace_hours defaults settings =
    checked (λ value. leb_ℤ (pos 1) value && leb_ℤ value (pos 720))
      (lit "user_delete_grace_hours must be between 1 and 720")
      (int_value (lit "user_delete_grace_hours") defaults.user_delete_grace_hours settings)

unfoldable pub trial_traffic_gb : Settings → List Setting → Result ℤ
trial_traffic_gb defaults settings =
    checked (λ value. not (leb_ℤ value (pos 0))) (lit "trial_traffic_gb must be positive")
      (int_value (lit "trial_traffic_gb") defaults.trial_traffic_gb settings)

unfoldable pub trial_duration_hours : Settings → List Setting → Result ℤ
trial_duration_hours defaults settings =
    checked (λ value. not (leb_ℤ value (pos 0))) (lit "trial_duration_hours must be positive")
      (int_value (lit "trial_duration_hours") defaults.trial_duration_hours settings)

-- The environment has no such field, so only the stored value counts. A value that is no text has a
-- `str` that begins with neither scheme.
unfoldable pub customer_panel_url : List Setting → Result (Option Text)
customer_panel_url settings = elim (stored (lit "customer_panel_url") settings) [
  | none ↦ ok none
  | some (str value) ↦
      if is_empty (strip value)
      then ok none
      else if not
          (starts_with (strip value) (lit "http://") || starts_with (strip value) (lit "https://"))
      then bad_value (lit "customer_panel_url must use http:// or https://")
      else ok (some (strip value))
  | some _ ↦ bad_value (lit "customer_panel_url must use http:// or https://")
]

-- `tuple(sorted({...}, reverse=True))`, an element at a time.
unfoldable pub insert_descending : ℤ → List ℤ → List ℤ
insert_descending x [] = x ∷ []
insert_descending x (y ∷ ys) =
    if eqb_ℤ x y then y ∷ ys else if ltb_ℤ y x then x ∷ y ∷ ys else y ∷ insert_descending x ys

unfoldable pub descending : List ℤ → List ℤ
descending [] = []
descending (x ∷ xs) = insert_descending x (descending xs)

-- `{int(item) for item in value}` over a list of JSON values, or over the parts of a text.
unfoldable pub ints_of_items : Items → Result (List ℤ)
ints_of_items nil = ok []
ints_of_items (cons v vs) = elim (int_of v) [
  | raised e ↦ raised e
  | ok x ↦ elim (ints_of_items vs) [ raised e ↦ raised e | ok xs ↦ ok (x ∷ xs) ]
]

unfoldable pub ints_of_texts : List Text → Result (List ℤ)
ints_of_texts [] = ok []
ints_of_texts (t ∷ ts) = elim (int_of (str t)) [
  | raised e ↦ raised e
  | ok x ↦ elim (ints_of_texts ts) [ raised e ↦ raised e | ok xs ↦ ok (x ∷ xs) ]
]

unfoldable pub threshold_values : List ℤ → Option Json → Result (List ℤ)
threshold_values default none = ok default
threshold_values default (some (str t)) = ints_of_texts (split_commas t)
threshold_values default (some (arr vs)) = ints_of_items vs
threshold_values default (some _) =
    raised (record { kind = ErrorKind.type_error; message = lit "not iterable" })

unfoldable pub positive : List ℤ → Result (List ℤ)
positive [] = bad_value (lit "thresholds must be positive")
positive (x ∷ xs) =
    if any (λ item. leb_ℤ item (pos 0)) (x ∷ xs)
    then bad_value (lit "thresholds must be positive")
    else ok (x ∷ xs)

-- `_thresholds` after the numbers are read.
unfoldable pub thresholds : Result (List ℤ) → Result (List ℤ)
thresholds (raised e) = raised e
thresholds (ok values) = positive (descending values)

unfoldable pub time_thresholds : Settings → List Setting → Result (List ℤ)
time_thresholds defaults settings = thresholds (
    threshold_values defaults.time_warning_thresholds
      (stored (lit "time_warning_thresholds") settings))

unfoldable pub capped : Result (List ℤ) → Result (List ℤ)
capped (raised e) = raised e
capped (ok values) =
    if any (λ item. ltb_ℤ (pos 100) item) values
    then bad_value (lit "traffic thresholds cannot exceed 100")
    else ok values

unfoldable pub traffic_thresholds : Settings → List Setting → Result (List ℤ)
traffic_thresholds defaults settings = capped (
    thresholds (
      threshold_values defaults.traffic_warning_thresholds
        (stored (lit "traffic_warning_thresholds") settings)))
