-- ===== src/Bot/Values/ReadBack.antt =====
-- What an owner enters is what the service of the settings then reads.
use rebecca_reseller_bot.Prelude.{◌≡◌, refl, false, some, List, [], ◌∷◌, inl, inr, Bool-cases}
use rebecca_reseller_bot.Prelude.Int.{ℤ, pos, leb_ℤ}
use rebecca_reseller_bot.Prelude.Text.{Text, lit, teq, teq_refl, one_of}
use rebecca_reseller_bot.Prelude.Json.{Json, int, str}
use rebecca_reseller_bot.Prelude.Effects.{Result, ok, raised}
use rebecca_reseller_bot.Database.Models.{Setting}
use rebecca_reseller_bot.Database.Settings.{
  Settings, bad_value, stored, put_setting, int_value, checked, trial_traffic_gb,
  trial_duration_hours,
}
use rebecca_reseller_bot.Database.Settings.Parse.{int_of}
use rebecca_reseller_bot.Bot.Values.{entered_value, positive_int}

stored_int :
    (key : Text) (n : ℤ) (rows : List Setting)
    → stored key (put_setting key (int n) rows) ≡ some (int n)
unfolding stored put_setting
stored_int key n [] = rw (teq_refl, stored) refl
stored_int key n (row ∷ rows) = elim (Bool-cases (teq row.key key)) [
  | inl e ↦ rw (e, put_setting) (rw (e, stored) refl)
  | inr e ↦ rw (e, put_setting) (rw (e, stored) (stored_int key n rows))
]

-- A value that passes is a positive number.
positive_int-ok :
    (read : Result ℤ) (value : Json)
    → positive_int read ≡ ok value
    → (n : ℤ) × (read ≡ ok n) × (value ≡ int n) × (leb_ℤ n (pos 0) ≡ false)
unfolding positive_int bad_value
positive_int-ok (raised e) value h = absurd (cc h)
positive_int-ok (ok n) value h = elim (Bool-cases (leb_ℤ n (pos 0))) [
  | inl e ↦ (let bad : bad_value (lit "not positive") ≡ ok value = rw e at h in absurd (cc bad))
  | inr e ↦ (let same : ok (int n) ≡ ok value = rw e at h in (n, refl, cc same, e))
]

int_value-put :
    (key : Text) (default n : ℤ) (rows : List Setting)
    → int_value key default (put_setting key (int n) rows) ≡ ok n
unfolding int_value int_of
int_value-put key default n rows = rw (stored_int key n rows, int_value) refl

entered_traffic :
    (text : Text) → entered_value (lit "trial_traffic_gb") text ≡ positive_int (int_of (str text))
unfolding entered_value teq one_of lit
entered_traffic text = refl

entered_duration :
    (text : Text)
    → entered_value (lit "trial_duration_hours") text ≡ positive_int (int_of (str text))
unfolding entered_value teq one_of lit
entered_duration text = refl

-- The traffic of a trial that an owner enters, where it is accepted, is the positive number of the text, and
-- the service of the settings reads that number afterwards, whatever the settings were before.
pub entered_traffic_read :
    (defaults : Settings) (text : Text) (value : Json) (rows : List Setting)
    → entered_value (lit "trial_traffic_gb") text ≡ ok value
    → (n : ℤ) × (int_of (str text) ≡ ok n)
      × (leb_ℤ n (pos 0) ≡ false)
      × (trial_traffic_gb defaults (put_setting (lit "trial_traffic_gb") value rows) ≡ ok n)
unfolding trial_traffic_gb checked
entered_traffic_read defaults text value rows h =
    let key = lit "trial_traffic_gb" in
    let (n, read, same, positive) =
      positive_int-ok (int_of (str text)) value (rw (entered_traffic text) at h) in
    (
      n,
      read,
      positive,
      rw same (rw (int_value-put key defaults.trial_traffic_gb n rows, checked) (rw positive refl)),
    )

-- So is the duration.
pub entered_duration_read :
    (defaults : Settings) (text : Text) (value : Json) (rows : List Setting)
    → entered_value (lit "trial_duration_hours") text ≡ ok value
    → (n : ℤ) × (int_of (str text) ≡ ok n)
      × (leb_ℤ n (pos 0) ≡ false)
      × (trial_duration_hours defaults (put_setting (lit "trial_duration_hours") value rows) ≡ ok n)
unfolding trial_duration_hours checked
entered_duration_read defaults text value rows h =
    let key = lit "trial_duration_hours" in
    let (n, read, same, positive) =
      positive_int-ok (int_of (str text)) value (rw (entered_duration text) at h) in
    (
      n,
      read,
      positive,
      rw same
          (rw (int_value-put key defaults.trial_duration_hours n rows, checked) (rw positive refl)),
    )
