-- ===== src/Database/Models.antt =====
-- The rows of app/database/models.py, a record for each table that the code below works on.
use rebecca_reseller_bot.Prelude.{ℕ, Bool, ◌||◌, Option, List, ◌==◌}
use rebecca_reseller_bot.Prelude.Int.{ℤ}
use rebecca_reseller_bot.Prelude.Text.{Text}
use rebecca_reseller_bot.Prelude.Json.{Json}
use rebecca_reseller_bot.Prelude.Time.{Instant}
use rebecca_reseller_bot.Rebecca.Models.{Admin, ServiceId}

pub data ResellerStatus : Type 0 where
  provisioning trial active low_quota expired suspended disabled error : ResellerStatus

pub data OrderStatus : Type 0 where
  pending waiting_receipt waiting_payment paid applying applied : OrderStatus
  rejected expired cancelled failed : OrderStatus

-- Equality of the enum's members, by their position.
abbrev pub reseller_rank : ResellerStatus → ℕ
reseller_rank ResellerStatus.provisioning = 0
reseller_rank ResellerStatus.trial = 1
reseller_rank ResellerStatus.active = 2
reseller_rank ResellerStatus.low_quota = 3
reseller_rank ResellerStatus.expired = 4
reseller_rank ResellerStatus.suspended = 5
reseller_rank ResellerStatus.disabled = 6
reseller_rank ResellerStatus.error = 7

abbrev pub order_rank : OrderStatus → ℕ
order_rank OrderStatus.pending = 0
order_rank OrderStatus.waiting_receipt = 1
order_rank OrderStatus.waiting_payment = 2
order_rank OrderStatus.paid = 3
order_rank OrderStatus.applying = 4
order_rank OrderStatus.applied = 5
order_rank OrderStatus.rejected = 6
order_rank OrderStatus.expired = 7
order_rank OrderStatus.cancelled = 8
order_rank OrderStatus.failed = 9

abbrev pub same_reseller_status : ResellerStatus → ResellerStatus → Bool
same_reseller_status a b = reseller_rank a == reseller_rank b

abbrev pub same_order_status : OrderStatus → OrderStatus → Bool
same_order_status a b = order_rank a == order_rank b

-- `status in {PAID, APPLYING, APPLIED}`
abbrev pub is_settled : OrderStatus → Bool
is_settled s =
    same_order_status s OrderStatus.paid
    || same_order_status s OrderStatus.applying
    || same_order_status s OrderStatus.applied

-- `status in {EXPIRED, DISABLED}`
abbrev pub is_lapsed : ResellerStatus → Bool
is_lapsed s =
    same_reseller_status s ResellerStatus.expired || same_reseller_status s ResellerStatus.disabled

pub record Reseller : Type 0 where
  pub id : ℕ
  pub telegram_id : ℕ
  pub telegram_username : Option Text
  pub rebecca_admin_username : Option Text
  pub status : ResellerStatus
  pub product_id : Option ℕ
  pub created_at : Instant
  pub activated_at : Option Instant
  pub expires_at : Option Instant
  pub purchased_traffic_bytes : ℤ
  pub last_known_data_limit : ℤ
  pub last_known_usage : ℤ
  pub last_known_remaining : ℤ
  pub trial : Bool
  pub trial_used : Bool
  pub suspended_reason : Option Text
  pub last_sync_at : Option Instant
  pub automation_hold : Bool

pub record Product : Type 0 where
  pub id : ℕ
  pub name : Text
  pub slug : Text
  pub enabled : Bool
  pub deleted : Bool
  pub service_type : Text
  pub service_ids : List ServiceId
  pub duration_days : ℕ
  pub traffic_gb : ℕ
  pub price_toman : ℕ
  pub users_limit : Option ℤ

-- What `entitlement_snapshot` builds. The ISO text of an instant in UTC is kept as the instant, and
-- the sorted texts of the services as they are.
pub record Snapshot : Type 0 where
  pub data_limit : Option ℤ
  pub expire : Option Instant
  pub services : List Text
  pub users_limit : Option ℤ
  pub role : Text
  pub status : Text

-- What `_target_snapshot` builds.
pub record TargetSnapshot : Type 0 where
  pub data_limit : ℤ
  pub expire : Instant
  pub services : List ServiceId
  pub users_limit : Option ℤ
  pub role : Text
  pub status : Text

-- The target of a first purchase, with the reserved username.
pub record Reservation : Type 0 where
  pub username : Text
  pub expire : Instant
  pub data_limit : ℤ
  pub services : List ServiceId
  pub users_limit : Option ℤ

-- `after_snapshot["target"]`, of a renewal or of a first purchase.
pub data Target : Type 0 where
  renewal : TargetSnapshot → Target
  reservation : Reservation → Target

-- The column `after_snapshot`: `{"target": ...}`, or the dump of the administrator created.
pub data AfterSnapshot : Type 0 where
  planned : Target → AfterSnapshot
  dump : Admin → AfterSnapshot

-- An amount of hundredths, `Numeric(18, 2)`.
pub record Order : Type 0 where
  pub id : ℕ
  pub order_number : Text
  pub reseller_id : ℕ
  pub product_id : ℕ
  pub amount : ℕ
  pub currency : Text
  pub status : OrderStatus
  pub payment_method : Text
  pub created_at : Instant
  pub expires_at : Option Instant
  pub paid_at : Option Instant
  pub applied_at : Option Instant
  pub before_snapshot : Option Snapshot
  pub after_snapshot : Option AfterSnapshot
  pub apply_error : Option Text

pub record Payment : Type 0 where
  pub id : ℕ
  pub order_id : ℕ
  pub method : Text
  pub status : Text
  pub telegram_file_id : Option Text
  pub plisio_txn_id : Option Text
  pub invoice_url : Option Text

pub record TrialRecord : Type 0 where
  pub id : ℕ
  pub telegram_id : ℕ
  pub used_at : Instant
  pub admin_username : Option Text
  pub expires_at : Option Instant
  pub status : Text

pub record ResellerUserCache : Type 0 where
  pub id : ℕ
  pub reseller_id : ℕ
  pub username : Text
  pub rebecca_admin_username : Text
  pub status : Text
  pub expire : Option Instant
  pub data_limit : Option ℤ
  pub used_traffic : ℤ
  pub first_seen_at : Instant
  pub last_seen_at : Instant
  pub local_status : Text
  pub expired_detected_at : Option Instant
  pub delete_after : Option Instant
  pub warning_sent_at : Option Instant
  pub deletion_hold : Bool
  pub disabled_by_parent_reseller : Bool
  pub disabled_by_own_expiry : Bool

pub record WarningEvent : Type 0 where
  pub target_type : Text
  pub target_identifier : Text
  pub kind : Text
  pub entitlement_key : Text
  pub created_at : Instant

pub record AuditLog : Type 0 where
  pub timestamp : Instant
  pub actor : Text
  pub actor_type : Text
  pub action : Text
  pub target_type : Text
  pub target_identifier : Text
  pub order_id : Option ℕ
  pub result : Text
  pub error : Option Text

pub record LifecycleLock : Type 0 where
  pub key : Text
  pub acquired_at : Instant
  pub expires_at : Instant

pub record Setting : Type 0 where
  pub key : Text
  pub value : Json

-- The tables of the database.
pub record Database : Type 0 where
  pub resellers : List Reseller
  pub products : List Product
  pub orders : List Order
  pub payments : List Payment
  pub trial_records : List TrialRecord
  pub reseller_users : List ResellerUserCache
  pub warning_events : List WarningEvent
  pub audit_logs : List AuditLog
  pub lifecycle_locks : List LifecycleLock
  pub settings : List Setting
