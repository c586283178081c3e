-- ===== src/Bot/Values.antt =====
-- The values of settings that an owner enters: the parsers of app/bot/settings.py, and `settings_value`
-- and `setting_set` of app/bot/handlers/common.py up to their write.
pub mod ReadBack
use rebecca_reseller_bot.Prelude.{
  ℕ, Bool, true, false, ◌&&◌, ◌||◌, not, List, [], ◌∷◌, any, all, select, map, ◌==◌, if◌then◌else◌,
}
use rebecca_reseller_bot.Prelude.Int.{ℤ, pos, leb_ℤ, ltb_ℤ, eqb_ℤ}
use rebecca_reseller_bot.Prelude.Text.{
  Text, lit, teq, one_of, strip, lstrip_where, lower, is_digit, is_lower, is_upper, is_empty,
  starts_with,
}
use rebecca_reseller_bot.Prelude.Json.{Json, bool, int, str, arr, Items, nil, cons}
use rebecca_reseller_bot.Prelude.Effects.{Result, ok, raised, ErrorKind}
use rebecca_reseller_bot.Database.Settings.{bad_value}
use rebecca_reseller_bot.Database.Settings.Parse.{int_of, split_commas}
use rebecca_reseller_bot.Bot.Cards.{normalize_card_number}

-- `isalnum` of ASCII.
unfoldable pub is_alnum : ℕ → Bool
is_alnum c = is_digit c || is_lower c || is_upper c

-- `value.strip().lstrip("@")`
unfoldable pub bare_name : Text → Text
bare_name value = lstrip_where (λ c. c == b'@') (strip value)

-- `isalnum` is false of the empty text.
unfoldable pub is_support_name : Text → Bool
is_support_name name =
    let rest = select (λ c. not (c == b'_')) name in
    not (is_empty name) && not (is_empty rest) && all is_alnum rest

unfoldable pub normalize_support_username : Text → Result Text
normalize_support_username value =
    if is_support_name (bare_name value)
    then ok (b'@' ∷ bare_name value)
    else bad_value (lit "support username")

-- An element of the sorted list of a set.
unfoldable pub insert_ascending : ℤ → List ℤ → List ℤ
insert_ascending n [] = n ∷ []
insert_ascending n (m ∷ ms) =
    let rest = insert_ascending n ms in
    if eqb_ℤ n m then m ∷ ms else if ltb_ℤ n m then n ∷ m ∷ ms else m ∷ rest

-- `sorted({int(item.strip()) for item in … if item.strip()})`
unfoldable pub sorted_ids : List Text → Result (List ℤ)
sorted_ids [] = ok []
sorted_ids (item ∷ items) =
    let rest = sorted_ids items in
    if is_empty (strip item) then rest else elim (int_of (str (strip item))) [
      | raised e ↦ raised e
      | ok n ↦ elim rest [ raised e ↦ raised e | ok ns ↦ ok (insert_ascending n ns) ]
    ]

unfoldable pub checked_ids : Result (List ℤ) → Result (List ℤ)
checked_ids (raised _) = bad_value (lit "service ids")
checked_ids (ok []) = bad_value (lit "one service id at least")
checked_ids (ok (n ∷ ns)) =
    if any (λ m. ltb_ℤ m (pos 0)) (n ∷ ns)
    then bad_value (lit "one service id at least")
    else ok (n ∷ ns)

unfoldable pub parse_service_ids : Text → Result (List ℤ)
parse_service_ids value = checked_ids (sorted_ids (split_commas value))

unfoldable pub json_ints : List ℤ → Items
json_ints [] = nil
json_ints (n ∷ ns) = cons (int n) (json_ints ns)

-- A parsed value as what the column holds.
unfoldable pub as_json {ℓ} : {A : Type ℓ} → (A → Json) → Result A → Result Json
as_json f (raised e) = raised e
as_json f (ok a) = ok (f a)

unfoldable pub positive_int : Result ℤ → Result Json
positive_int (raised e) = raised e
positive_int (ok n) = if leb_ℤ n (pos 0) then bad_value (lit "not positive") else ok (int n)

unfoldable pub panel_url : Text → Result Json
panel_url value =
    if not (starts_with value (lit "https://") || starts_with value (lit "http://"))
    then bad_value (lit "panel url")
    else ok (str value)

unfoldable pub not_blank : Text → Result Json
not_blank value = if is_empty value then bad_value (lit "empty") else ok (str value)

-- The chain of `settings_value`.
unfoldable pub entered_value : Text → Text → Result Json
entered_value key text =
    if teq key (lit "card_number")
    then as_json str (normalize_card_number text)
    else if teq key (lit "support_username")
    then as_json str (normalize_support_username text)
    else if teq key (lit "trial_service_ids")
    then as_json (λ ns. arr (json_ints ns)) (parse_service_ids text)
    else if one_of key (lit "trial_traffic_gb" ∷ lit "trial_duration_hours" ∷ [])
    then positive_int (int_of (str text))
    else if teq key (lit "customer_panel_url")
    then panel_url (strip text)
    else not_blank (strip text)

-- The keys of `settings_edit`.
unfoldable pub editable : List Text
editable =
    lit "card_number"
    ∷ lit "card_holder"
    ∷ lit "card_bank"
    ∷ lit "card_instructions"
    ∷ lit "support_username"
    ∷ lit "trial_service_ids"
    ∷ lit "trial_traffic_gb"
    ∷ lit "trial_duration_hours"
    ∷ lit "customer_panel_url"
    ∷ []

-- The keys of the command `/setting`.
unfoldable pub settable : List Text
settable =
    lit "trial_enabled"
    ∷ lit "trial_service_ids"
    ∷ lit "card_number"
    ∷ lit "card_holder"
    ∷ lit "card_bank"
    ∷ lit "card_instructions"
    ∷ lit "support_username"
    ∷ lit "plisio_toman_per_source"
    ∷ lit "user_delete_grace_hours"
    ∷ lit "time_warning_thresholds"
    ∷ lit "traffic_warning_thresholds"
    ∷ []

-- `[int(x) for x in value.split(",") if x]`
unfoldable pub int_items : List Text → Result Items
int_items [] = ok nil
int_items (item ∷ items) =
    let rest = int_items items in
    if is_empty item then rest else elim (int_of (str item)) [
      | raised e ↦ raised e
      | ok n ↦ elim rest [ raised e ↦ raised e | ok ns ↦ ok (cons (int n) ns) ]
    ]

-- The chain of `setting_set`, at the keys that it allows.
unfoldable pub command_value : Text → Text → Result Json
command_value key value =
    if teq key (lit "card_number")
    then as_json str (normalize_card_number value)
    else if teq key (lit "support_username")
    then as_json str (normalize_support_username value)
    else if teq key (lit "trial_service_ids")
    then as_json (λ ns. arr (json_ints ns)) (parse_service_ids value)
    else if one_of key (lit "time_warning_thresholds" ∷ lit "traffic_warning_thresholds" ∷ [])
    then as_json arr (int_items (split_commas value))
    else if teq key (lit "trial_enabled")
    then ok (bool (one_of (lower value) (lit "1" ∷ lit "true" ∷ lit "on" ∷ [])))
    else ok (str value)
