-- ===== src/Bot/Console.antt =====
-- What the buttons of app/bot/handlers/owner/console.py change of products and resellers, with the parser
-- of product values there and `rial_to_toman` of app/bot/ui/money.py.
pub mod Checked
use rebecca_reseller_bot.Prelude.{
  ℕ, ◌*◌, ◌^◌, ◌/◌, ◌%◌, Bool, true, false, ◌&&◌, ◌||◌, not, Option, none, some, List, [], ◌∷◌, all,
  select, length, update_where, any, ltb, ◌==◌, or_else, if◌then◌else◌,
}
use rebecca_reseller_bot.Prelude.Int.{ℤ, pos, negsuc, ◌-ℤ◌}
use rebecca_reseller_bot.Prelude.Text.{Text, lit, teq, one_of, lower, strip, is_empty}
use rebecca_reseller_bot.Prelude.Time.{Instant}
use rebecca_reseller_bot.Prelude.Json.{str}
use rebecca_reseller_bot.Prelude.Effects.{Action, Result, ok, raised, pure, gets, ◌>>=◌, ◌>>◌}
use rebecca_reseller_bot.Rebecca.Models.{Admin, ServiceId, number}
use rebecca_reseller_bot.Rebecca.Interface.{RebeccaClient}
use rebecca_reseller_bot.Database.Models.{Reseller, ResellerStatus, Product, Database}
use rebecca_reseller_bot.Database.Settings.{Settings, bad_value, operations_mode}
use rebecca_reseller_bot.Database.Settings.Parse.{int_of}
use rebecca_reseller_bot.Payments.Plisio.Amount.{Decimal, finite, special, parse_decimal}
use rebecca_reseller_bot.Scheduler.State.{Run, change, database, read, remote, update_reseller}
use rebecca_reseller_bot.Bot.Transactions.{in_transaction, get_product, get_reseller}
use rebecca_reseller_bot.Bot.Receipts.{needed}
use rebecca_reseller_bot.Bot.Values.{is_alnum, parse_service_ids}
use rebecca_reseller_bot.Bot.Owner.{
  Console, OwnerAnswer, no_owner, invalid_value, saved, no_client, dry_run_only,
  enabling_unverified, done, owned, flip_hold, suspend, unsuspend,
}

-- A field of `PRODUCT_FIELDS` with its value.
pub data ProductValue : Type 0 where
  product_name product_slug : Text → ProductValue
  price_toman traffic_gb duration_days : ℕ → ProductValue
  users_limit : Option ℤ → ProductValue
  service_ids : List ℤ → ProductValue

unfoldable pub is_slug : Text → Bool
is_slug value =
    let rest = select (λ c. not (c == b'-') && not (c == b'_')) value in
    not (is_empty rest) && all is_alnum rest

unfoldable pub parse_name : Text → Result Text
parse_name value =
    if is_empty value || ltb 100 (length value) then bad_value (lit "name") else ok value

unfoldable pub parse_slug : Text → Result Text
parse_slug value = if is_slug value then parse_name value else bad_value (lit "slug")

unfoldable pub positive_count : Result ℤ → Result ℕ
positive_count (raised e) = raised e
positive_count (ok (negsuc n)) = bad_value (lit "not positive")
positive_count (ok (pos n)) = if n == 0 then bad_value (lit "not positive") else ok n

-- `rial_to_toman`: a positive whole number of rials that 10 divides.
unfoldable pub whole_toman : Decimal → Result ℕ
whole_toman special = bad_value (lit "price")
whole_toman (finite (negsuc m) u d) = bad_value (lit "price")
whole_toman (finite (pos m) u d) =
    if m == 0 || not (m * 10 ^ u % 10 ^ d == 0)
    then bad_value (lit "price")
    else if not (m * 10 ^ u / 10 ^ d % 10 == 0)
    then bad_value (lit "price")
    else ok (m * 10 ^ u / 10 ^ d / 10)

unfoldable pub rial_to_toman : Text → Result ℕ
rial_to_toman value = elim (parse_decimal (strip value)) [
  | none ↦ bad_value (lit "price")
  | some d ↦ whole_toman d
]

unfoldable pub as_value {ℓ} : {A : Type ℓ} → (A → ProductValue) → Result A → Result ProductValue
as_value f (raised e) = raised e
as_value f (ok a) = ok (f a)

-- `no_limit` is the Persian word for no limit.
unfoldable pub parse_limit : Text → Text → Result (Option ℤ)
parse_limit no_limit value =
    if one_of (lower value) (lit "none" ∷ lit "-" ∷ no_limit ∷ [])
    then ok none
    else elim (positive_count (int_of (str value))) [
      | raised e ↦ raised e
      | ok n ↦ ok (some (pos n))
    ]

-- `_parse_product`, with the price by `rial_to_toman` as its callers read it.
unfoldable pub parse_product : Text → Text → Text → Result ProductValue
parse_product no_limit field text =
    if teq field (lit "price_toman")
    then as_value price_toman (rial_to_toman text)
    else if teq field (lit "name")
    then as_value product_name (parse_name (strip text))
    else if teq field (lit "slug")
    then as_value product_slug (parse_slug (strip text))
    else if teq field (lit "traffic_gb")
    then as_value traffic_gb (positive_count (int_of (str (strip text))))
    else if teq field (lit "duration_days")
    then as_value duration_days (positive_count (int_of (str (strip text))))
    else if teq field (lit "users_limit")
    then as_value users_limit (parse_limit no_limit (strip text))
    else if teq field (lit "service_ids")
    then as_value service_ids (parse_service_ids (strip text))
    else bad_value (lit "field")

unfoldable pub numbers : List ℤ → List ServiceId
numbers [] = []
numbers (n ∷ ns) = number n ∷ numbers ns

-- `setattr(p, field, value)`
unfoldable pub set_field : ProductValue → Product → Product
set_field (product_name t) p = record p { name = t }
set_field (product_slug t) p = record p { slug = t }
set_field (price_toman n) p = record p { price_toman = n }
set_field (traffic_gb n) p = record p { traffic_gb = n }
set_field (duration_days n) p = record p { duration_days = n }
set_field (users_limit l) p = record p { users_limit = l }
set_field (service_ids ns) p = record p { service_ids = numbers ns }

unfoldable pub update_product : ℕ → (Product → Product) → Database → Database
update_product id f db = record db {
  products = update_where (λ (p : Product). p.id == id) f db.products;
}

-- Another product has that slug.
unfoldable pub is_slug_taken : ℕ → ProductValue → Database → Bool
is_slug_taken id (product_slug t) db =
    any (λ (p : Product). not (p.id == id) && teq p.slug t) db.products
is_slug_taken id _ db = false

-- `action == "disable"`, and the statuses that Rebecca may report after it.
unfoldable pub is_expected : Bool → Option Admin → Bool
is_expected disable none = false
is_expected true (some live) = one_of (lower live.status) (lit "disabled" ∷ lit "inactive" ∷ [])
is_expected false (some live) = one_of (lower live.status) (lit "active" ∷ lit "enabled" ∷ [])

-- The row after `reseller_refresh`.
unfoldable pub refreshed : Instant → Admin → Reseller → Reseller
refreshed now live x = record x {
  last_known_data_limit = or_else live.data_limit (pos 0);
  last_known_usage = live.used_traffic;
  last_known_remaining = or_else live.data_limit (pos 0) -ℤ live.used_traffic;
  expires_at = live.expire;
  last_sync_at = some now;
}

module _ {W : Type 0} (console : Console W) (defaults : Settings) where
  -- The row is used, so a missing one raises.
  unfoldable pub edit_product : ℕ → (Product → Product) → Action (Run W) OwnerAnswer
  edit_product id f = gets (λ r. get_product id (database r)) >>= needed >>= λ p.
      change (update_product p.id f) >> pure done

  unfoldable pub product_toggle : ℕ → ℕ → Action (Run W) OwnerAnswer
  product_toggle caller id =
      owned console caller no_owner
        (in_transaction (edit_product id (λ p. record p { enabled = not p.enabled })))

  unfoldable pub product_remove : ℕ → ℕ → Action (Run W) OwnerAnswer
  product_remove caller id =
      owned console caller no_owner
        (in_transaction (edit_product id (λ p. record p { deleted = true; enabled = false })))

  -- The unique slug is tested at the commit.
  unfoldable pub set_checked : ProductValue → Product → Action (Run W) OwnerAnswer
  set_checked value p r =
      if is_slug_taken p.id value (database r)
      then (ok invalid_value, r)
      else (change (update_product p.id (set_field value)) >> pure saved) r

  unfoldable pub store_product : ℕ → Result ProductValue → Action (Run W) OwnerAnswer
  store_product id (raised e) = pure invalid_value
  store_product id (ok value) =
      in_transaction (gets (λ r. get_product id (database r)) >>= needed >>= set_checked value)

  unfoldable pub product_edit_value : ℕ → ℕ → Text → Text → Text → Action (Run W) OwnerAnswer
  product_edit_value caller id no_limit field text =
      owned console caller no_owner (store_product id (parse_product no_limit field text))

  unfoldable pub toggle_hold : Reseller → Action (Run W) OwnerAnswer
  toggle_hold x = change (update_reseller x.id flip_hold) >> pure saved

  unfoldable pub console_hold : ℕ → ℕ → Action (Run W) OwnerAnswer
  console_hold caller id =
      owned console caller no_owner
        (in_transaction (gets (λ r. get_reseller id (database r)) >>= needed >>= toggle_hold))

  unfoldable pub keep_live : Instant → ℕ → Option Admin → Action (Run W) OwnerAnswer
  keep_live now id none = pure done
  keep_live now id (some live) = change (update_reseller id (refreshed now live)) >> pure done

  unfoldable pub refresh_row :
      Instant → Option (RebeccaClient W) → Reseller → Action (Run W) OwnerAnswer
  refresh_row now none x = pure no_client
  refresh_row now (some client) x =
      let username = or_else x.rebecca_admin_username [] in
      if is_empty username
      then pure no_client
      else remote (client.get_admin username) >>= keep_live now x.id

  unfoldable pub reseller_refresh : ℕ → ℕ → Instant → Action (Run W) OwnerAnswer
  reseller_refresh caller id now = owned console caller no_owner (
      in_transaction
        (gets (λ r. get_reseller id (database r)) >>= needed >>= refresh_row now console.rebecca))

  unfoldable pub finish_state : Bool → ℕ → Option Admin → Action (Run W) OwnerAnswer
  finish_state disable id live =
      if not (is_expected disable live)
      then pure enabling_unverified
      else change (update_reseller id (if disable then suspend else unsuspend)) >> pure done

  unfoldable pub switch_admin : RebeccaClient W → Bool → Text → Action W (Unit {0})
  switch_admin client true username = client.disable_admin username
  switch_admin client false username = client.enable_admin username

  unfoldable pub switch_at_rebecca :
      Bool → Option (RebeccaClient W) → Reseller → Action (Run W) OwnerAnswer
  switch_at_rebecca disable none x = pure no_client
  switch_at_rebecca disable (some client) x =
      let username = or_else x.rebecca_admin_username [] in
      if is_empty username
      then pure no_client
      else remote (switch_admin client disable username)
        >> (remote (client.get_admin username) >>= finish_state disable x.id)

  -- The stored mode is tested here, before the row is used.
  unfoldable pub switch_row : Bool → Option Reseller → Text → Action (Run W) OwnerAnswer
  switch_row disable found mode =
      if teq mode (lit "dry_run") || not console.allow_disable_actions
      then pure dry_run_only
      else needed found >>= switch_at_rebecca disable console.rebecca

  unfoldable pub switch_rows : Bool → ℕ → Action (Run W) OwnerAnswer
  switch_rows disable id r =
      (read (λ (db : Database). operations_mode defaults db.settings)
          >>= switch_row disable (get_reseller id (database r)))
        r

  unfoldable pub reseller_state_change : ℕ → Bool → ℕ → Action (Run W) OwnerAnswer
  reseller_state_change caller disable id =
      owned console caller no_owner (in_transaction (switch_rows disable id))
