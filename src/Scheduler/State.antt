-- ===== src/Scheduler/State.antt =====
-- What the jobs of app/scheduler/jobs.py work on: the session, the world behind Rebecca and Telegram,
-- and the part of the configuration that they read.
use rebecca_reseller_bot.Prelude.{
  ℕ, Bool, true, false, Option, none, some, List, [], ◌∷◌, ◌++◌, ◌==◌, update_where,
}
use rebecca_reseller_bot.Prelude.Int.{ℤ}
use rebecca_reseller_bot.Prelude.Text.{Text, lit}
use rebecca_reseller_bot.Prelude.Time.{Instant}
use rebecca_reseller_bot.Prelude.Effects.{Action, Result, modify, pure, catch, zoom, ◌>>◌}
use rebecca_reseller_bot.Rebecca.Interface.{RebeccaClient}
use rebecca_reseller_bot.Database.Models.{Reseller, Order, Payment, ResellerUserCache, Database}
use rebecca_reseller_bot.Database.Session.{Session, write}
use rebecca_reseller_bot.Database.Settings.{Settings}

-- The messages that the jobs send, by their variable parts; the Persian wording is left out.
pub data Notice : Type 0 where
  time_warning traffic_warning : ℤ → Notice
  reseller_expired : Notice
  user_expired : Text → ℤ → Notice
  user_deletion_soon user_deleted : Text → Notice

pub record Run (W : Type 0) : Type 0 where
  pub session : Session
  pub world : W

-- `self.rebecca`, `self.notifications` and `self.settings`. `redact` hides secrets in a text of the
-- audit, by regular expressions.
pub record Runner (W : Type 0) : Type 0 where
  pub rebecca : RebeccaClient W
  pub bot : Option (ℕ → Notice → Action W (Unit {0}))
  pub redact : Text → Text
  -- `str` of a `datetime` or of `None`
  pub str_time : Option Instant → Text
  pub settings : Settings
  pub destructive_actions : Bool
  pub allow_disable_actions : Bool
  pub allow_delete_actions : Bool
  pub plisio_enabled : Bool
  pub plisio_secret_key : Text
  pub batch_size : ℕ

module _ {W : Type 0} where
  abbrev pub remote : {A : Type 0} → Action W A → Action (Run W) A
  remote = zoom (λ r. r.world) (λ r w. record r { world = w })

  abbrev pub change : (Database → Database) → Action (Run W) (Unit {0})
  change f = modify λ r. record r { session = write f r.session }

  abbrev pub database : Run W → Database
  database r = r.session.written

  -- A value of the settings, or the exception of reading it.
  abbrev pub read : {A : Type 0} → (Database → Result A) → Action (Run W) A
  read f r = (f r.session.written, r)

  -- `for row in rows: body(row)`
  unfoldable pub for_each :
      {A : Type 0} → (A → Action (Run W) (Unit {0})) → List A → Action (Run W) (Unit {0})
  for_each body [] = pure tt
  for_each body (x ∷ xs) = body x >> for_each body xs

  unfoldable pub audit :
      Runner W
      → Instant
      → Text
      → Text
      → Text
      → Text
      → Option ℕ
      → Option Text
      → Action (Run W) (Unit {0})
  audit runner now action target_type target result order_id error = change λ db. record db {
    audit_logs =
        db.audit_logs
        ++ (record {
          timestamp = now;
          actor = lit "system";
          actor_type = lit "SYSTEM";
          action = action;
          target_type = target_type;
          target_identifier = runner.redact target;
          order_id = order_id;
          result = result;
          error = elim error [ none ↦ none | some e ↦ some (runner.redact e) ];
        }
            ∷ []);
  }

  -- `NotificationService.send`: whether the message went out; it never raises.
  unfoldable pub send : Runner W → ℕ → Notice → Action (Run W) Bool
  send runner chat_id notice = elim runner.bot [
    | none ↦ pure false
    | some deliver ↦ catch (remote (deliver chat_id notice) >> pure true) (λ _. pure false)
  ]

-- The write-back of a row.
unfoldable pub update_reseller : ℕ → (Reseller → Reseller) → Database → Database
update_reseller id f db = record db {
  resellers = update_where (λ (r : Reseller). r.id == id) f db.resellers;
}

unfoldable pub update_user_row : ℕ → (ResellerUserCache → ResellerUserCache) → Database → Database
update_user_row id f db = record db {
  reseller_users = update_where (λ (u : ResellerUserCache). u.id == id) f db.reseller_users;
}

unfoldable pub update_order : ℕ → (Order → Order) → Database → Database
update_order id f db = record db { orders = update_where (λ (o : Order). o.id == id) f db.orders }

unfoldable pub update_payment : ℕ → (Payment → Payment) → Database → Database
update_payment id f db = record db {
  payments = update_where (λ (p : Payment). p.id == id) f db.payments;
}
