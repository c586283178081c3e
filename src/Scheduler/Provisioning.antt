-- ===== src/Scheduler/Provisioning.antt =====
-- The first purchase in `_reconcile_orders_locked` of app/scheduler/jobs.py: a username is reserved, the
-- administrator is provisioned, and the credentials are delivered.
use rebecca_reseller_bot.Prelude.{
  ℕ, zero, suc, ◌+◌, ◌*◌, ◌^◌, Bool, true, false, not, Option, none, some, List, [], any, first,
  ◌==◌, or_else, if◌then◌else◌,
}
use rebecca_reseller_bot.Prelude.Int.{pos}
use rebecca_reseller_bot.Prelude.Text.{Text, lit, teq, is_empty}
use rebecca_reseller_bot.Prelude.Time.{Instant, day}
use rebecca_reseller_bot.Prelude.Effects.{Action, ErrorKind, pure, raise, ◌>>=◌, ◌>>◌}
use rebecca_reseller_bot.Rebecca.Models.{Admin}
use rebecca_reseller_bot.Database.Models.{
  Order, OrderStatus, Reseller, ResellerStatus, Product, Reservation, Target, reservation, renewal,
  planned, dump, Database,
}
use rebecca_reseller_bot.Database.Settings.{customer_panel_url}
use rebecca_reseller_bot.Reseller.Credentials.{username_candidate, generate_password}
use rebecca_reseller_bot.Reseller.Provision.{Provision, provision}
use rebecca_reseller_bot.Payments.Service.Apply.{persisted_target}
use rebecca_reseller_bot.Scheduler.State.{
  Run, Runner, remote, change, database, read, audit, update_reseller, update_order,
}
use rebecca_reseller_bot.Scheduler.Locked.{save_session}

-- What the owner and the customer are told about an order, by the variable parts.
pub data OrderNotice : Type 0 where
  apply_failed : Text → OrderNotice
  renewed : Order → Product → OrderNotice

-- The message with the credentials, by its parts.
pub record CredentialNotice : Type 0 where
  pub product : Product
  pub expiry : Instant
  pub username : Text
  pub password : Text
  pub panel_url : Option Text

-- What this job uses besides: the random draws of `secrets`, as streams, the messages (whether one
-- went out), and the secrets that no password may contain.
pub record OrderRunner (W : Type 0) : Type 0 where
  pub runner : Runner W
  pub drawn_suffix : Action W ℕ
  pub drawn_passwords : Action W (ℕ → Text)
  pub password_fuel : ℕ
  pub forbidden : List Text
  pub send_order : ℕ → OrderNotice → Action W Bool
  pub owners : OrderNotice → Action W (Unit {0})
  pub send_credentials : ℕ → CredentialNotice → Action W Bool

-- The target of a first purchase.
unfoldable pub reserved : Instant → Product → Text → Reservation
reserved now product username = record {
  username = username;
  expire = now + product.duration_days * day;
  data_limit = pos (product.traffic_gb * 1024 ^ 3);
  services = product.service_ids;
  users_limit = product.users_limit;
}

unfoldable pub find_reseller : ℕ → Database → Option Reseller
find_reseller id db = first (λ (r : Reseller). r.id == id) db.resellers

unfoldable pub find_product : ℕ → Database → Option Product
find_product id db = first (λ (p : Product). p.id == id) db.products

unfoldable pub is_taken : Text → Database → Bool
is_taken name db =
    any (λ (r : Reseller). elim r.rebecca_admin_username [ none ↦ false | some n ↦ teq n name ])
      db.resellers

-- The arguments of `provision` from a reserved target; a renewal's has no username of its own.
unfoldable pub provision_of : Reseller → Text → Text → Target → Provision
provision_of reseller username password (reservation t) = record {
  username = username;
  password = password;
  expire = t.expire;
  data_limit = t.data_limit;
  services = t.services;
  telegram_id = some reseller.telegram_id;
  users_limit = t.users_limit;
}
provision_of reseller username password (renewal t) = record {
  username = username;
  password = password;
  expire = t.expire;
  data_limit = t.data_limit;
  services = t.services;
  telegram_id = some reseller.telegram_id;
  users_limit = t.users_limit;
}

-- The rows after a delivery.
unfoldable pub activate : Product → Reseller → Reseller
activate product r = record r { status = ResellerStatus.active; product_id = some product.id }

unfoldable pub delivered_order : Instant → Order → Order
delivered_order now o = record o {
  status = OrderStatus.applied;
  applied_at = some now;
  apply_error = none;
}

module _ {W : Type 0} (env : OrderRunner W) (now : Instant) where
  -- The rest of the loop follows where the candidate has a reseller or an administrator.
  unfoldable pub check_found : Action (Run W) Text → Text → Option Admin → Action (Run W) Text
  check_found next candidate none = pure candidate
  check_found next candidate (some _) = next

  unfoldable pub check_candidate : Action (Run W) Text → Text → Action (Run W) Text
  check_candidate next candidate r =
      if is_taken candidate (database r)
      then next r
      else (remote (env.runner.rebecca.get_admin candidate) >>= check_found next candidate) r

  -- `_available_username`, with the number of tries left.
  unfoldable pub available_username : ℕ → Option Text → Action (Run W) Text
  available_username zero telegram_username =
      raise ErrorKind.runtime_error (lit "unable to reserve a unique reseller username")
  available_username (suc tries) telegram_username = remote env.drawn_suffix >>= λ drawn.
      check_candidate (available_username tries telegram_username)
        (username_candidate telegram_username none drawn)

  unfoldable pub reserved_order : Product → Text → Order → Order
  reserved_order product username order = record order {
    status = OrderStatus.applying;
    after_snapshot = some (planned (reservation (reserved now product username)));
  }

  unfoldable pub reserved_reseller : Text → Reseller → Reseller
  reserved_reseller username reseller = record reseller {
    rebecca_admin_username = some username;
    status = ResellerStatus.provisioning;
  }

  -- The rows of a reservation: the username and the target are committed together.
  unfoldable pub reserve_as : Order → Reseller → Product → Text → Action (Run W) (Order × Reseller)
  reserve_as order reseller product username = do
    change (update_reseller reseller.id (λ _. reserved_reseller username reseller))
    change (update_order order.id (λ _. reserved_order product username order))
    save_session
    pure (reserved_order product username order, reserved_reseller username reseller)

  unfoldable pub has_username : Reseller → Bool
  has_username reseller = elim reseller.rebecca_admin_username [
    | none ↦ false
    | some name ↦ not (is_empty name)
  ]

  unfoldable pub reserve : Order → Reseller → Product → Action (Run W) (Order × Reseller)
  reserve order reseller product =
      if has_username reseller
      then pure (order, reseller)
      else available_username 100 reseller.telegram_username >>= reserve_as order reseller product

  unfoldable pub missing : {A : Type 0} → Text → Action (Run W) A
  missing m = raise ErrorKind.type_error m

  unfoldable pub drawn_password : Action (Run W) Text
  drawn_password = remote env.drawn_passwords >>= λ tokens.
      elim (generate_password env.password_fuel tokens env.forbidden) [
        | none ↦ missing (lit "no password drawn")
        | some password ↦ pure password
      ]

  -- `(await self.rebecca.get_admin(username)).model_dump(mode="json")`
  unfoldable pub record_dump : Order → Option Admin → Action (Run W) (Unit {0})
  record_dump order none =
      raise ErrorKind.attribute_error (lit "'NoneType' object has no attribute 'model_dump'")
  record_dump order (some admin) =
      change (update_order order.id (λ o. record o { after_snapshot = some (dump admin) }))

  -- The order and the reseller are active, and the administrator is read once more.
  unfoldable pub record_delivery : Order → Reseller → Product → Text → Action (Run W) (Unit {0})
  record_delivery order reseller product username = do
    change (update_reseller reseller.id (activate product))
    change (update_order order.id (delivered_order now))
    record_dump order (← remote (env.runner.rebecca.get_admin username))
    audit env.runner now (lit "RESELLER_CREATED") (lit "reseller") username (lit "OK")
        (some order.id) none

  unfoldable pub after_delivery :
      Order → Reseller → Product → Text → Bool → Action (Run W) (Unit {0})
  after_delivery order reseller product username false =
      raise ErrorKind.runtime_error (lit "credential delivery failed")
  after_delivery order reseller product username true =
      record_delivery order reseller product username

  -- From the provisioning to the delivery; the password stays out of the database.
  unfoldable pub deliver : Order → Reseller → Product → Text → Target → Action (Run W) (Unit {0})
  deliver order reseller product username target = do
    password ← drawn_password
    remote (provision env.runner.rebecca (provision_of reseller username password target))
    change (
        update_order order.id
          (λ o. record o { apply_error = some (lit "CREDENTIAL_DELIVERY_PENDING") }))
    save_session
    panel_url ← read (λ (db : Database). customer_panel_url db.settings)
    sent ← remote (
        env.send_credentials reseller.telegram_id (record {
          product = product;
          expiry = (provision_of reseller username password target).expire;
          username = username;
          password = password;
          panel_url = panel_url;
        }))
    after_delivery order reseller product username sent

  unfoldable pub provision_order : Order → Reseller → Product → Action (Run W) (Unit {0})
  provision_order order reseller product = elim (persisted_target order) [
    | none ↦ missing (lit "'NoneType' object is not subscriptable")
    | some target ↦
        deliver order reseller product (or_else reseller.rebecca_admin_username []) target
  ]
