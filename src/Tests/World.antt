-- ===== src/Tests/World.antt =====
-- A Rebecca service in memory, with one administrator and one user at most, and rows to work on.
use rebecca_reseller_bot.Prelude.{
  ℕ, suc, ◌+◌, ◌*◌, ◌/◌, ◌==◌, if◌then◌else◌, true, false, Option, none, some, [], ◌∷◌,
}
use rebecca_reseller_bot.Prelude.Int.{pos}
use rebecca_reseller_bot.Prelude.Text.{Text, lit}
use rebecca_reseller_bot.Prelude.Time.{Instant, second, day}
use rebecca_reseller_bot.Prelude.Effects.{Result, ok, raised, ErrorKind}
use rebecca_reseller_bot.Rebecca.Models.{Admin, User, number}
use rebecca_reseller_bot.Rebecca.Interface.{RebeccaClient, AdminPayload, Entitlement}
use rebecca_reseller_bot.Database.Models.{
  Reseller, ResellerStatus, Order, OrderStatus, Product, Payment, Database, ResellerUserCache,
}
use rebecca_reseller_bot.Database.Session.{Session}

pub record World : Type 0 where
  pub admin : Option Admin
  pub user : Option User
  pub created : ℕ

-- Expiry times are kept as whole seconds, where 0 means no expiry.
unfoldable pub whole : Option Instant → Option Instant
whole none = none
whole (some t) = if t / second == 0 then none else some (t / second * second)

unfoldable pub shown : Option Admin → Option Admin
unfolding whole
shown none = none
shown (some a) = some (record a { expire = whole a.expire })

unfoldable pub entitled : Entitlement → Option Admin → Option Admin
entitled e none = none
entitled e (some a) = some (record a {
  data_limit = some e.data_limit;
  expire = some e.expire;
  services = e.services;
  users_limit = e.users_limit;
})

unfoldable pub with_status : Text → Option Admin → Option Admin
with_status status none = none
with_status status (some a) = some (record a { status = status })

unfoldable pub made : AdminPayload → Admin
unfolding lit
made p = record {
  username = elim p.username [ none ↦ [] | some u ↦ u ];
  role = elim p.credentials [ none ↦ [] | some c ↦ c.role ];
  status = lit "active";
  expire = some p.entitlement.expire;
  data_limit = some p.entitlement.data_limit;
  data_limit_unlimited = false;
  used_traffic = pos 0;
  services = p.entitlement.services;
  users_limit = p.entitlement.users_limit;
}

unfoldable pub answer : {A : Type 0} → Text → Option A → Result A
answer m none = raised (record { kind = ErrorKind.not_found; message = m })
answer m (some a) = ok a

unfoldable pub user_with : Text → Option User → Option User
user_with status none = none
user_with status (some u) = some (record u { status = status })

unfoldable pub service : RebeccaClient World
unfolding shown entitled with_status made answer user_with lit
service = record {
  get_admin = λ u w. (ok (shown w.admin), w);
  create_reseller_admin =
      λ p w. (ok (made p), record w { admin = some (made p); created = suc w.created });
  update_admin = λ u p w. (
    answer u (entitled p.entitlement w.admin),
    record w { admin = entitled p.entitlement w.admin },
  );
  disable_admin = λ u w. (ok tt, record w { admin = with_status (lit "disabled") w.admin });
  enable_admin = λ u w. (ok tt, record w { admin = with_status (lit "active") w.admin });
  disable_admin_users = λ u w. (ok tt, w);
  detects_admin_users_disable = λ w. (ok true, w);
  list_admin_users = λ u w. (ok (elim w.user [ none ↦ [] | some v ↦ v ∷ [] ]), w);
  get_user = λ u w. (ok w.user, w);
  update_user = λ u s w. (answer u (user_with s w.user), record w { user = user_with s w.user });
  delete_user = λ u w. (ok tt, record w { user = none });
}

-- The time of the examples: a whole second, and half a second later.
abbrev pub noon : Instant
noon = 1700000000 * second

abbrev pub late : Instant
late = noon + 500000

unfoldable pub shop : Admin
unfolding lit
shop = record {
  username = lit "shop_1234";
  role = lit "reseller";
  status = lit "active";
  expire = some (noon + 3 * day);
  data_limit = some (pos 1000);
  data_limit_unlimited = false;
  used_traffic = pos 400;
  services = number (pos 1) ∷ [];
  users_limit = some (pos 10);
}

unfoldable pub sudo_shop : Admin
unfolding lit shop
sudo_shop = record shop { role = lit "sudo" }

unfoldable pub spent_shop : Admin
unfolding shop
spent_shop = record shop { expire = some (noon) }

unfoldable pub old_user : User
unfolding lit
old_user = record {
  username = lit "u1";
  admin_username = some (lit "shop_1234");
  status = lit "active";
  expire = some noon;
  data_limit = none;
  data_limit_unlimited = true;
  used_traffic = pos 0;
}

abbrev pub empty_world : World
empty_world = record { admin = none; user = none; created = 0 }

unfoldable pub shop_world : World
unfolding shop old_user
shop_world = record { admin = some shop; user = some old_user; created = 1 }

unfoldable pub sudo_world : World
unfolding sudo_shop
sudo_world = record { admin = some sudo_shop; user = none; created = 1 }

unfoldable pub spent_world : World
unfolding spent_shop
spent_world = record { admin = some spent_shop; user = none; created = 1 }

unfoldable pub small_plan : Product
unfolding lit
small_plan = record {
  id = 1;
  name = lit "Small";
  slug = lit "small";
  enabled = true;
  deleted = false;
  service_type = lit "vpn";
  service_ids = number (pos 1) ∷ [];
  duration_days = 30;
  traffic_gb = 50;
  price_toman = 1000;
  users_limit = some (pos 10);
}

unfoldable pub ali : Reseller
unfolding lit
ali = record {
  id = 1;
  telegram_id = 77;
  telegram_username = some (lit "ali");
  rebecca_admin_username = some (lit "shop_1234");
  status = ResellerStatus.active;
  product_id = some 1;
  created_at = noon;
  activated_at = some noon;
  expires_at = none;
  purchased_traffic_bytes = pos 0;
  last_known_data_limit = pos 0;
  last_known_usage = pos 0;
  last_known_remaining = pos 0;
  trial = false;
  trial_used = false;
  suspended_reason = none;
  last_sync_at = none;
  automation_hold = false;
}

unfoldable pub sara : Reseller
unfolding ali
sara = record ali { id = 2; rebecca_admin_username = none; product_id = none }

unfoldable pub paid_order : Order
unfolding lit
paid_order = record {
  id = 5;
  order_number = lit "A5";
  reseller_id = 1;
  product_id = 1;
  amount = 1000;
  currency = lit "USD";
  status = OrderStatus.paid;
  payment_method = lit "PLISIO";
  created_at = noon;
  expires_at = none;
  paid_at = some noon;
  applied_at = none;
  before_snapshot = none;
  after_snapshot = none;
  apply_error = none;
}

unfoldable pub open_order : Order
unfolding paid_order
open_order = record paid_order { status = OrderStatus.waiting_payment; paid_at = none }

unfoldable pub open_payment : Payment
unfolding lit
open_payment = record {
  id = 9;
  order_id = 5;
  method = lit "PLISIO";
  status = lit "new";
  telegram_file_id = none;
  plisio_txn_id = some (lit "t1");
  invoice_url = none;
}

unfoldable pub expired_row : ResellerUserCache
unfolding lit
expired_row = record {
  id = 3;
  reseller_id = 1;
  username = lit "u1";
  rebecca_admin_username = lit "shop_1234";
  status = lit "disabled";
  expire = some noon;
  data_limit = none;
  used_traffic = pos 0;
  first_seen_at = noon;
  last_seen_at = noon;
  local_status = lit "EXPIRED";
  expired_detected_at = some noon;
  delete_after = some noon;
  warning_sent_at = none;
  deletion_hold = false;
  disabled_by_parent_reseller = false;
  disabled_by_own_expiry = true;
}

unfoldable pub tables : Database
unfolding ali sara small_plan open_order open_payment expired_row
tables = record {
  resellers = ali ∷ sara ∷ [];
  products = small_plan ∷ [];
  orders = open_order ∷ [];
  payments = open_payment ∷ [];
  trial_records = [];
  reseller_users = expired_row ∷ [];
  warning_events = [];
  audit_logs = [];
  lifecycle_locks = [];
  settings = [];
}

unfoldable pub session : Session
unfolding tables
session = record { written = tables; committed = tables }
