-- ===== src/Scheduler/Orders.antt =====
-- `_reconcile_orders` of app/scheduler/jobs.py: paid orders are carried out.
use rebecca_reseller_bot.Prelude.{
  Bool, true, false, ◌||◌, none, some, ◌++◌, select, take, or_else, if◌then◌else◌,
}
use rebecca_reseller_bot.Prelude.Text.{Text, lit, teq}
use rebecca_reseller_bot.Prelude.Sorting.{show_ℕ}
use rebecca_reseller_bot.Prelude.Time.{Instant}
use rebecca_reseller_bot.Prelude.Effects.{Action, Exception, ok, raised, pure, gets, ◌>>=◌, ◌>>◌}
use rebecca_reseller_bot.Rebecca.Interface.{RebeccaClient}
use rebecca_reseller_bot.Database.Models.{
  Order, OrderStatus, Reseller, ResellerStatus, Product, Database, same_order_status,
  same_reseller_status,
}
use rebecca_reseller_bot.Database.Settings.{operations_mode}
use rebecca_reseller_bot.Payments.Service.Apply.{apply_order}
use rebecca_reseller_bot.Scheduler.State.{
  Run, remote, change, database, read, for_each, audit, update_reseller, update_order,
}
use rebecca_reseller_bot.Scheduler.Locked.{locked, save_session}
use rebecca_reseller_bot.Scheduler.Provisioning.{
  OrderRunner, apply_failed, renewed, find_reseller, find_product, reserve, provision_order,
}

module _ {W : Type 0} (env : OrderRunner W) (now : Instant) where
  -- What `apply_order` left in the rows.
  unfoldable pub write_back : Order → Reseller → Action (Run W) (Unit {0})
  write_back order reseller = do
    change (update_order order.id (λ _. order))
    change (update_reseller reseller.id (λ _. reseller))

  unfoldable pub client_of_run : RebeccaClient (Run W)
  client_of_run = record {
    get_admin = λ u. remote (env.runner.rebecca.get_admin u);
    create_reseller_admin = λ p. remote (env.runner.rebecca.create_reseller_admin p);
    update_admin = λ u p. remote (env.runner.rebecca.update_admin u p);
    disable_admin = λ u. remote (env.runner.rebecca.disable_admin u);
    enable_admin = λ u. remote (env.runner.rebecca.enable_admin u);
    disable_admin_users = λ u. remote (env.runner.rebecca.disable_admin_users u);
    detects_admin_users_disable = remote env.runner.rebecca.detects_admin_users_disable;
    list_admin_users = λ u. remote (env.runner.rebecca.list_admin_users u);
    get_user = λ u. remote (env.runner.rebecca.get_user u);
    update_user = λ u s. remote (env.runner.rebecca.update_user u s);
    delete_user = λ u. remote (env.runner.rebecca.delete_user u);
  }

  -- `session.commit`, with the rows as they are then.
  unfoldable pub persist : Order → Reseller → Action (Run W) (Unit {0})
  persist order reseller = do write_back order reseller; save_session

  unfoldable pub renewed_order : Order → Reseller → Product → Bool → Action (Run W) (Unit {0})
  renewed_order order reseller product false = pure tt
  renewed_order order reseller product true = do
    audit env.runner now (lit "RESELLER_RENEWED") (lit "reseller")
        (or_else reseller.rebecca_admin_username (show_ℕ reseller.id)) (lit "OK") (some order.id)
        none
    remote (env.send_order reseller.telegram_id (renewed order product))
    pure tt

  -- `apply_order` on the rows: they are written back however the call ends.
  unfoldable pub apply_rows : Order → Reseller → Product → Action (Run W) (Order × Reseller × Bool)
  apply_rows order reseller product r =
      let (result, s) =
        apply_order client_of_run product now (some persist)
          (record { order = order; reseller = reseller; world = r }) in
      let r' = (write_back s.order s.reseller s.world).1 in
      elim result [
        | ok changed ↦ (ok (s.order, s.reseller, changed), r')
        | raised e ↦ (raised e, r')
      ]

  unfoldable pub apply_failed_order : Order → Exception → Action (Run W) (Unit {0})
  apply_failed_order order e = do
    audit env.runner now (lit "ORDER_APPLY_FAILED") (lit "order") order.order_number (lit "ERROR")
        (some order.id) (some e.message)
    remote (env.owners (apply_failed order.order_number))

  -- The body of the `try`: what a renewal changed, or nothing after a first purchase.
  unfoldable pub attempt : Product → Order × Reseller → Action (Run W) (Order × Reseller × Bool)
  attempt product (order, reseller) =
      if same_reseller_status reseller.status ResellerStatus.provisioning
      then (provision_order env now order reseller product >> pure (order, reseller, false))
      else apply_rows order reseller product

  -- `try: … except …: … else: …`
  unfoldable pub try_order : Order → Reseller → Product → Action (Run W) (Unit {0})
  try_order order reseller product r =
      let (result, r') = (reserve env now order reseller product >>= attempt product) r in
      elim result [
        | ok (order', reseller', changed) ↦ renewed_order order' reseller' product changed r'
        | raised e ↦ apply_failed_order order e r'
      ]

  unfoldable pub with_mode : Order → Reseller → Product → Text → Action (Run W) (Unit {0})
  with_mode order reseller product mode =
      if teq mode (lit "dry_run")
      then audit env.runner now (lit "WOULD_APPLY_ORDER") (lit "order") order.order_number
          (lit "DRY_RUN") (some order.id) none
      else try_order order reseller product

  unfoldable pub incomplete : Order → Action (Run W) (Unit {0})
  incomplete order =
      audit env.runner now (lit "ORDER_APPLY_FAILED") (lit "order") order.order_number (lit "ERROR")
        (some order.id) (some (lit "missing reseller/product"))

  unfoldable pub reconcile_won : Order → Bool → Action (Run W) (Unit {0})
  reconcile_won order false r = (ok tt, r)
  reconcile_won order true r = elim (find_reseller order.reseller_id (database r)) [
    | none ↦ incomplete order r
    | some reseller ↦ elim (find_product order.product_id (database r)) [
      | none ↦ incomplete order r
      | some product ↦
          (read (λ (db : Database). operations_mode env.runner.settings db.settings)
              >>= with_mode order reseller product)
            r
    ]
  ]

  unfoldable pub reconcile_order : Order → Action (Run W) (Unit {0})
  reconcile_order order = locked (lit "order:" ++ show_ℕ order.id) 300 now (reconcile_won order)

  unfoldable pub reconcile_orders_locked : Action (Run W) (Unit {0})
  reconcile_orders_locked = do
    orders ← gets (λ r. take env.runner.batch_size (
        select
          (λ (o : Order).
            same_order_status o.status OrderStatus.paid
            || same_order_status o.status OrderStatus.applying)
          (database r).orders))
    for_each reconcile_order orders

  unfoldable pub reconcile_orders : Action (Run W) (Unit {0})
  reconcile_orders =
      locked (lit "orders:reconcile") 300 now
        (λ won. if won then reconcile_orders_locked else pure tt)
