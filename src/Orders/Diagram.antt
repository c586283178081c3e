-- ===== src/Orders/Diagram.antt =====
-- The states of an order, `OrderStatus` of app/database/models.py, and the moves between them that
-- the program means to make.
use rebecca_reseller_bot.Prelude.{◌≡◌, refl, Bool, true, false}
use rebecca_reseller_bot.Database.Models.{OrderStatus, is_settled}

infix 40 ◌⟶◌ ◌⟶*◌
pub data ◌⟶◌ : OrderStatus → OrderStatus → Type 0 where
  -- a receipt is sent, and the owner approves or rejects it
  send_receipt : OrderStatus.pending ⟶ OrderStatus.waiting_receipt
  approve : OrderStatus.waiting_receipt ⟶ OrderStatus.paid
  reject : OrderStatus.waiting_receipt ⟶ OrderStatus.rejected
  -- an invoice is completed, or was never made
  complete : OrderStatus.waiting_payment ⟶ OrderStatus.paid
  give_up : OrderStatus.waiting_payment ⟶ OrderStatus.failed
  -- what was paid is carried out
  prepare : OrderStatus.paid ⟶ OrderStatus.applying
  apply : OrderStatus.applying ⟶ OrderStatus.applied

pub data ◌⟶*◌ : OrderStatus → OrderStatus → Type 0 where
  here : {s : OrderStatus} → s ⟶* s
  then : {s t u : OrderStatus} → s ⟶ t → t ⟶* u → s ⟶* u

pub ⟶*-trans : {s t u : OrderStatus} → s ⟶* t → t ⟶* u → s ⟶* u
⟶*-trans here k = k
⟶*-trans (then e h) k = then e (⟶*-trans h k)

pub one_move : {s t : OrderStatus} → s ⟶ t → s ⟶* t
one_move e = then e here

-- The states that no move leaves.
unfoldable pub is_final : OrderStatus → Bool
is_final OrderStatus.applied = true
is_final OrderStatus.rejected = true
is_final OrderStatus.failed = true
is_final _ = false

move-settled : {s t : OrderStatus} → s ⟶ t → is_settled s ≡ true → is_settled t ≡ true
move-settled send_receipt h = h
move-settled approve h = refl
move-settled reject h = h
move-settled complete h = refl
move-settled give_up h = h
move-settled prepare h = refl
move-settled apply h = refl

pub settled_stays : {s t : OrderStatus} → s ⟶* t → is_settled s ≡ true → is_settled t ≡ true
settled_stays here h = h
settled_stays (then e k) h = settled_stays k (move-settled e h)

move-final : {s t : OrderStatus} → s ⟶ t → is_final s ≡ false
unfolding is_final
move-final send_receipt = refl
move-final approve = refl
move-final reject = refl
move-final complete = refl
move-final give_up = refl
move-final prepare = refl
move-final apply = refl

pub final_stays : {s t : OrderStatus} → s ⟶* t → is_final s ≡ true → t ≡ s
final_stays here h = refl
final_stays (then e k) h = absurd (cc (h, move-final e))
