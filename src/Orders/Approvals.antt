-- ===== src/Orders/Approvals.antt =====
-- The handlers of receipts of app/bot/handlers/common.py and app/bot/handlers/owner/console.py, on the
-- table of the orders.
use rebecca_reseller_bot.Prelude.{
  ℕ, ◌≡◌, refl, Bool, true, false, ◌&&◌, not, Option, none, some, inl, inr, Bool-cases,
  if◌then◌else◌,
}
use rebecca_reseller_bot.Prelude.Text.{Text}
use rebecca_reseller_bot.Prelude.Time.{Instant}
use rebecca_reseller_bot.Prelude.Effects.{Action, Result-cases, pure, ◌>>=◌, ◌>>◌}
use rebecca_reseller_bot.Database.Models.{
  Order, OrderStatus, Payment, Product, Reseller, same_order_status,
}
use rebecca_reseller_bot.Database.Settings.{operations_mode, stored}
use rebecca_reseller_bot.Scheduler.State.{Run, change, database, update_payment}
use rebecca_reseller_bot.Bot.Transactions.{
  notify, notify_all, get_order, approval_for_customer, approval_for_owner, receipt_received,
  owner_access, payment_of, in_transaction,
}
use rebecca_reseller_bot.Bot.Receipts.{
  Desk, receipt_kept, approved, unauthorized, needed, claim, is_claimed, is_claimable, set_paid,
  set_waiting_receipt, keep_receipt, kept_rows, receipt_of, receipt_for, receipt_rows, tell_owners,
  caption, announce_receipt, receipt, approval_of, approval_rows, claim_approval, tell_waiting,
  tell_approval, announce_approval, card_approve, order_approve,
}
use rebecca_reseller_bot.Orders.Changes.{
  is_pending, is_waiting_receipt, set_waiting_receipt-IsMove, set_paid-IsMove, claimable_status,
}
use rebecca_reseller_bot.Orders.Table.{Moves, Moves-refl, IsMove, update_where-Moves}
use rebecca_reseller_bot.Orders.Actions.{
  RunMoves, RunMoves-refl, RunMoves-trans, Moving, Silent, >>=-RunMoves, >>=-Silent, Silent-Moving,
  needed-Silent, >>-Silent, with_row_lem, with_order_lem, update_order-RunMoves,
  transaction_then-Moves, notify_all-Silent,
}

module _ {W : Type 0} (desk : Desk W) where
  keep_receipt-RunMoves :
      (id : ℕ) (file_id : Text) (o : Order) (p : Payment) (r : Run W)
      → get_order id (database r) ≡ some o
      → RunMoves r (keep_receipt desk file_id o p r).1
  unfolding keep_receipt set_waiting_receipt RunMoves update_payment
  keep_receipt-RunMoves id file_id o p r h =
      elim (Bool-cases (same_order_status o.status OrderStatus.pending)) [
        | inr e ↦ rw (e, keep_receipt) (RunMoves-refl r)
        | inl e ↦
            rw (e, keep_receipt)
              (update_order-RunMoves id set_waiting_receipt o r (λ _. refl) h
                (set_waiting_receipt-IsMove o (is_pending o.status e)))
      ]

  kept_rows-Moving : (o : Order) (kept : Bool) → Moving (kept_rows desk o kept)
  unfolding kept_rows
  kept_rows-Moving o false r = RunMoves-refl r
  kept_rows-Moving o true r = RunMoves-refl r

  receipt_for-RunMoves :
      (id : ℕ) (file_id : Text) (o : Order) (r : Run W)
      → get_order id (database r) ≡ some o
      → RunMoves r (receipt_for desk file_id o r).1
  unfolding receipt_for receipt_of
  receipt_for-RunMoves id file_id o r h =
      with_row_lem (payment_of o.id) (receipt_of desk file_id o) r (λ p.
        let kept = keep_receipt desk file_id o p in
        >>=-RunMoves kept (kept_rows desk o) r (keep_receipt-RunMoves id file_id o p r h)
          (λ b. kept_rows-Moving o b (kept r).1))

  receipt_rows-Moving :
      (order_id : ℕ) (file_id : Text) → Moving (receipt_rows desk order_id file_id)
  unfolding receipt_rows
  receipt_rows-Moving order_id file_id =
      with_order_lem order_id (receipt_for desk file_id) (receipt_for-RunMoves order_id file_id)

  tell_owners-Silent :
      (file_id : Text) (o : Order) (reseller : Reseller) (product : Product)
      → Silent (tell_owners desk file_id o reseller product)
  unfolding tell_owners
  tell_owners-Silent file_id o reseller product =
      let message = receipt_received o reseller product file_id in
      >>-Silent (notify_all desk.bot desk.owner_ids message) (pure receipt_kept)
        (notify_all-Silent desk.bot desk.owner_ids message) (λ _. refl)

  caption-Silent :
      (file_id : Text) (o : Order) (wanted : Option Product) (reseller : Reseller)
      → Silent (caption desk file_id o wanted reseller)
  unfolding caption
  caption-Silent file_id o wanted reseller =
      >>=-Silent (needed wanted) (tell_owners desk file_id o reseller) (needed-Silent wanted)
        (tell_owners-Silent file_id o reseller)

  announce_receipt-Silent :
      (file_id : Text) (kept : Option (Order × Option Reseller × Option Product))
      → Silent (announce_receipt desk file_id kept)
  unfolding announce_receipt
  announce_receipt-Silent file_id none r = refl
  announce_receipt-Silent file_id (some (o, found, wanted)) r =
      >>=-Silent (needed found) (caption desk file_id o wanted) (needed-Silent found)
        (caption-Silent file_id o wanted) r

  pub receipt-Moves :
      (order_id : ℕ) (file_id : Text) (r : Run W)
      → Moves r.session.committed.orders
          (receipt desk order_id file_id r).1.session.committed.orders
  unfolding receipt
  receipt-Moves order_id file_id r =
      transaction_then-Moves (receipt_rows desk order_id file_id) (announce_receipt desk file_id) r
        (receipt_rows-Moving order_id file_id) (announce_receipt-Silent file_id)

  -- The update of an approval or of a rejection.
  pub claim-RunMoves :
      (id : ℕ) (f : Order → Order) (r : Run W)
      → ((o : Order) → (f o).id ≡ o.id)
      → ((o : Order) → o.status ≡ OrderStatus.waiting_receipt → IsMove f o)
      → RunMoves r (change (claim id OrderStatus.waiting_receipt f) r).1
  unfolding claim RunMoves
  claim-RunMoves id f r key move = (
    refl,
    update_where-Moves (is_claimable id OrderStatus.waiting_receipt) f (database r).orders key
        (λ o h.
          move o
            (is_waiting_receipt o.status (claimable_status id OrderStatus.waiting_receipt o h))),
  )

  approval_of-Silent : (changed : Bool) (o : Order) → Silent (approval_of desk changed o)
  unfolding approval_of operations_mode stored
  approval_of-Silent changed o r =
      elim (Result-cases (operations_mode desk.settings (database r).settings)) [
        | inl (_, e) ↦ rw (e, approval_of) refl
        | inr (_, e) ↦ rw (e, approval_of) refl
      ]

  approval_rows-Moving :
      (order_id : ℕ) (changed : Bool) → Moving (approval_rows desk order_id changed)
  unfolding approval_rows
  approval_rows-Moving order_id changed =
      with_order_lem order_id (approval_of desk changed)
        (λ o r _. Silent-Moving (approval_of desk changed o) (approval_of-Silent changed o) r)

  claim_approval-Moving : (order_id : ℕ) (now : Instant) → Moving (claim_approval desk order_id now)
  unfolding claim_approval set_paid
  claim_approval-Moving order_id now r =
      let s = (change (claim order_id OrderStatus.waiting_receipt (set_paid now)) r).1 in
      let changed = is_claimed order_id OrderStatus.waiting_receipt (database r) in
      RunMoves-trans r s (approval_rows desk order_id changed s).1
        (claim-RunMoves order_id (set_paid now) r (λ _. refl) (set_paid-IsMove now))
        (approval_rows-Moving order_id changed s)

  tell_waiting-Silent : (dry_run : Bool) (o : Order) → Silent (tell_waiting desk dry_run o)
  unfolding tell_waiting
  tell_waiting-Silent false o r = refl
  tell_waiting-Silent true o r =
      notify_all-Silent desk.bot desk.owner_ids (approval_for_owner o.order_number) r

  tell_approval-Silent :
      (dry_run : Bool) (o : Order) (reseller : Reseller)
      → Silent (tell_approval desk dry_run o reseller)
  unfolding tell_approval notify
  tell_approval-Silent dry_run o reseller =
      let last = pure (approved (not dry_run && desk.has_lifecycle)) in
      >>-Silent (notify desk.bot reseller.telegram_id (approval_for_customer o.order_number))
        (tell_waiting desk dry_run o >> last) (λ _. refl)
        (>>-Silent (tell_waiting desk dry_run o) last (tell_waiting-Silent dry_run o) (λ _. refl))

  announce_approval-Silent :
      (claimed : Bool × Order × Option Reseller × Bool) → Silent (announce_approval desk claimed)
  unfolding announce_approval
  announce_approval-Silent (false, o, found, dry_run) r = refl
  announce_approval-Silent (true, o, found, dry_run) r =
      >>=-Silent (needed found) (tell_approval desk dry_run o) (needed-Silent found)
        (tell_approval-Silent dry_run o) r

  -- A handler for owners only.
  pub guarded-Moves :
      {A : Type 0} (caller : ℕ) (body : Action (Run W) A) (other : A) (r : Run W)
      → Moves r.session.committed.orders (body r).1.session.committed.orders
      → Moves r.session.committed.orders
          ((if not (owner_access caller desk.owner_ids) then pure other else body)
            r).1.session.committed.orders
  guarded-Moves caller body other r h = elim (Bool-cases (owner_access caller desk.owner_ids)) [
    | inl e ↦ rw e h
    | inr e ↦ rw e (Moves-refl r.session.committed.orders)
  ]

  pub card_approve-Moves :
      (caller order_id : ℕ) (now : Instant) (r : Run W)
      → Moves r.session.committed.orders
          (card_approve desk caller order_id now r).1.session.committed.orders
  unfolding card_approve
  card_approve-Moves caller order_id now r =
      guarded-Moves caller
        (in_transaction (claim_approval desk order_id now) >>= announce_approval desk) unauthorized
        r
        (transaction_then-Moves (claim_approval desk order_id now) (announce_approval desk) r
          (claim_approval-Moving order_id now) announce_approval-Silent)

  pub order_approve-Moves :
      (caller order_id : ℕ) (now : Instant) (r : Run W)
      → Moves r.session.committed.orders
          (order_approve desk caller order_id now r).1.session.committed.orders
  unfolding order_approve
  order_approve-Moves caller order_id now r =
      guarded-Moves caller
        (in_transaction (claim_approval desk order_id now) >>= announce_approval desk) unauthorized
        r
        (transaction_then-Moves (claim_approval desk order_id now) (announce_approval desk) r
          (claim_approval-Moving order_id now) announce_approval-Silent)
