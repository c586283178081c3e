-- ===== src/Orders/Settled.antt =====
-- What no sequence of calls of the handlers undoes: a payment, a rejection, a failure.
use rebecca_reseller_bot.Prelude.{
  ℕ, ◌≡◌, refl, subst, true, false, some, List, [], ◌∷◌, first, inl, inr, ◌==◌, Bool-cases,
}
use rebecca_reseller_bot.Database.Models.{Order, is_settled}
use rebecca_reseller_bot.Scheduler.State.{Run}
use rebecca_reseller_bot.Bot.Transactions.{get_order}
use rebecca_reseller_bot.Bot.Receipts.{Desk}
use rebecca_reseller_bot.Bot.Checkout.{Shop}
use rebecca_reseller_bot.Orders.Diagram.{is_final, settled_stays, final_stays}
use rebecca_reseller_bot.Orders.Table.{Evolves, Follows, IsSound}
use rebecca_reseller_bot.Orders.Calls.{Call, handle_all, handle_all-Evolves}

-- The later version of a row is found under its key.
found_later :
    (id : ℕ) (os os' : List Order) (o : Order)
    → Evolves os os'
    → first (λ (x : Order). x.id == id) os ≡ some o
    → (o' : Order) × (first (λ (x : Order). x.id == id) os' ≡ some o') × Follows o o'
unfolding Evolves Follows
found_later id [] os' o h e = absurd (cc e)
found_later id (x ∷ os) [] o h e = absurd h
found_later id (x ∷ os) (x' ∷ os') o (follows, rest) e = elim (Bool-cases (x.id == id)) [
  | inl m ↦
      let same : x ≡ o = cc (rw m at e) in
      let m' : (x'.id == id) ≡ true = rw follows.0 at m in
      (x', rw m' refl, subst (λ y. Follows y x') same follows)
  | inr m ↦
      let m' : (x'.id == id) ≡ false = rw follows.0 at m in
      let (o', found, follows') = found_later id os os' o rest (rw m at e) in
      (o', rw m' found, follows')
]

module _ {W : Type 0} (desk : Desk W) (shop : Shop W) where
  -- An order that is paid, is being applied or is applied stays one of these three through every
  -- sequence of calls of the handlers, with its number and amount; the table of the orders is sound before.
  pub settled_order_stays :
      (calls : List Call) (r : Run W) (id : ℕ) (o : Order)
      → IsSound r.session.committed.orders
      → get_order id r.session.committed ≡ some o
      → is_settled o.status ≡ true
      → (o' : Order) × (get_order id (handle_all desk shop calls r).session.committed ≡ some o')
        × (o.order_number ≡ o'.order_number)
        × (o.amount ≡ o'.amount)
        × (is_settled o'.status ≡ true)
  unfolding get_order Follows
  settled_order_stays calls r id o sound found settled =
      let after = (handle_all desk shop calls r).session.committed.orders in
      let evolves = (handle_all-Evolves desk shop calls r sound).0 in
      let (o', found', follows) = found_later id r.session.committed.orders after o evolves found in
      let (_, number, amount, moves) = follows in
      (o', found', number, amount, settled_stays moves settled)

  -- An order that is rejected, failed or applied keeps that state through every sequence of calls of the
  -- handlers, so no approval, retry or callback revives it; the table of the orders is sound before.
  pub final_order_stays :
      (calls : List Call) (r : Run W) (id : ℕ) (o : Order)
      → IsSound r.session.committed.orders
      → get_order id r.session.committed ≡ some o
      → is_final o.status ≡ true
      → (o' : Order) × (get_order id (handle_all desk shop calls r).session.committed ≡ some o')
        × (o'.status ≡ o.status)
  unfolding get_order Follows
  final_order_stays calls r id o sound found final =
      let after = (handle_all desk shop calls r).session.committed.orders in
      let evolves = (handle_all-Evolves desk shop calls r sound).0 in
      let (o', found', follows) = found_later id r.session.committed.orders after o evolves found in
      let (_, _, _, moves) = follows in (o', found', final_stays moves final)
