-- ===== src/Payments/Service/Snapshots.antt =====
-- `entitlement_snapshot`, `_target_snapshot` and `_matches` of app/payments/service.py.
use rebecca_reseller_bot.Prelude.{
  ◌*◌, ◌^◌, Bool, true, false, ◌&&◌, some, List, map, ◌≡◌, ◌==◌, ==_iff, ◌↔◌, arith,
}
use rebecca_reseller_bot.Prelude.Int.{pos, eqb_ℤ, eqb_ℤ_iff}
use rebecca_reseller_bot.Prelude.Text.{Text, lit, teq, tle, teq_iff}
use rebecca_reseller_bot.Prelude.Time.{Instant}
use rebecca_reseller_bot.Prelude.Sorting.{
  sorted, show_ℤ, opt_eq, opt_eq_iff, texts_eq, texts_eq_iff,
}
use rebecca_reseller_bot.Rebecca.Models.{Admin, ServiceId, number, name, normalize_status}
use rebecca_reseller_bot.Rebecca.Interface.{Entitlement}
use rebecca_reseller_bot.Database.Models.{
  Product, Snapshot, TargetSnapshot, Target, renewal, reservation,
}
use rebecca_reseller_bot.Reseller.Quota.{renewal_data_limit, renewal_expiry}

-- `str(item)`
unfoldable pub service_text : ServiceId → Text
unfolding show_ℤ
service_text (number n) = show_ℤ n
service_text (name t) = t

unfoldable pub sorted_services : List ServiceId → List Text
unfolding sorted service_text tle
sorted_services services = sorted tle (map service_text services)

unfoldable pub entitlement_snapshot : Admin → Snapshot
entitlement_snapshot admin = record {
  data_limit = admin.data_limit;
  expire = admin.expire;
  services = sorted_services admin.services;
  users_limit = admin.users_limit;
  role = admin.role;
  status = normalize_status admin.status;
}

unfoldable pub target_snapshot : Admin → Product → Instant → TargetSnapshot
target_snapshot admin product now = record {
  data_limit =
      renewal_data_limit admin.data_limit admin.used_traffic (pos (product.traffic_gb * 1024 ^ 3));
  expire = renewal_expiry admin.expire now product.duration_days;
  services = product.service_ids;
  users_limit = product.users_limit;
  role = lit "reseller";
  status = lit "active";
}

-- `actual == expected`
unfoldable pub snapshot_eq : Snapshot → Snapshot → Bool
snapshot_eq a b =
    opt_eq eqb_ℤ a.data_limit b.data_limit
    && opt_eq (λ s t. s == t) a.expire b.expire
    && texts_eq a.services b.services
    && opt_eq eqb_ℤ a.users_limit b.users_limit
    && teq a.role b.role
    && teq a.status b.status

pub snapshot_eq_iff : (a b : Snapshot) → (snapshot_eq a b ≡ true) ↔ (a ≡ b)
unfolding snapshot_eq
snapshot_eq_iff a b = ground (
  arith,
  opt_eq_iff eqb_ℤ eqb_ℤ_iff a.data_limit b.data_limit,
  opt_eq_iff (λ s t. s == t) ==_iff a.expire b.expire,
  texts_eq_iff a.services b.services,
  opt_eq_iff eqb_ℤ eqb_ℤ_iff a.users_limit b.users_limit,
  teq_iff a.role b.role,
  teq_iff a.status b.status,
)

-- `_matches` against a before snapshot.
unfoldable pub matches_before : Admin → Snapshot → Bool
matches_before live snapshot = snapshot_eq (entitlement_snapshot live) (record snapshot {
  services = sorted tle snapshot.services;
  status = normalize_status snapshot.status;
})

-- The expected dict of `_matches` for a target.
unfoldable pub expected : TargetSnapshot → Snapshot
expected t = record {
  data_limit = some t.data_limit;
  expire = some t.expire;
  services = sorted_services t.services;
  users_limit = t.users_limit;
  role = t.role;
  status = normalize_status t.status;
}

-- `_matches` against a target. The dict of a reservation has no role and has a username, so it never
-- equals a snapshot.
unfoldable pub matches : Admin → Target → Bool
matches live (renewal t) = snapshot_eq (entitlement_snapshot live) (expected t)
matches live (reservation _) = false

-- The four keys that `update_admin` is given.
unfoldable pub entitlement : Target → Entitlement
entitlement (renewal t) = record {
  data_limit = t.data_limit;
  expire = t.expire;
  services = t.services;
  users_limit = t.users_limit;
}
entitlement (reservation r) = record {
  data_limit = r.data_limit;
  expire = r.expire;
  services = r.services;
  users_limit = r.users_limit;
}
