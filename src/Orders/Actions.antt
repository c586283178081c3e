-- ===== src/Orders/Actions.antt =====
-- Actions on a run of the handlers, by what they do to the table of the orders.
use rebecca_reseller_bot.Prelude.{
  ℕ, ◌≡◌, refl, ◌∙◌, subst, Option, none, some, List, [], ◌∷◌, inl, inr, ◌==◌,
}
use rebecca_reseller_bot.Prelude.Effects.{Action, ok, Result-cases, gets, ◌>>=◌, ◌>>◌}
use rebecca_reseller_bot.Database.Models.{Order, Database}
use rebecca_reseller_bot.Scheduler.State.{Run, change, database, update_order}
use rebecca_reseller_bot.Bot.Transactions.{
  Telegram, Message, begin, finish_transaction, in_transaction, notify, notify_all, get_order,
}
use rebecca_reseller_bot.Bot.Receipts.{needed, missing_row}
use rebecca_reseller_bot.Orders.Table.{Moves, Moves-refl, Moves-trans, IsMove, update_found-Moves}

module _ {W : Type 0} where
  -- Inside a transaction: what is committed stays, and the written orders move.
  unfoldable pub RunMoves : Run W → Run W → Type 0
  RunMoves r s =
      (r.session.committed ≡ s.session.committed)
      × Moves r.session.written.orders s.session.written.orders

  pub RunMoves-refl : (r : Run W) → RunMoves r r
  unfolding RunMoves
  RunMoves-refl r = (refl, Moves-refl r.session.written.orders)

  pub RunMoves-trans : (r s t : Run W) → RunMoves r s → RunMoves s t → RunMoves r t
  unfolding RunMoves
  RunMoves-trans r s t (h, m) (k, n) = (
    h ∙ k,
    Moves-trans r.session.written.orders s.session.written.orders t.session.written.orders m n,
  )

  abbrev pub Moving : {A : Type 0} → Action (Run W) A → Type 0
  Moving act = (r : Run W) → RunMoves r (act r).1

  -- An action that leaves the session alone.
  abbrev pub Silent : {A : Type 0} → Action (Run W) A → Type 0
  Silent act = (r : Run W) → (act r).1.session ≡ r.session

  -- What follows may use what the first part returned.
  pub bind-RunMoves :
      {A B : Type 0} (act : Action (Run W) A) (f : A → Action (Run W) B) (r : Run W)
      → RunMoves r (act r).1
      → ((a : A) → (act r).0 ≡ ok a → RunMoves (act r).1 (f a (act r).1).1)
      → RunMoves r ((act >>= f) r).1
  bind-RunMoves act f r h k = elim (Result-cases (act r).0) [
    | inl (a, e) ↦ rw (e, ◌>>=◌) (RunMoves-trans r (act r).1 (f a (act r).1).1 h (k a e))
    | inr (_, e) ↦ rw (e, ◌>>=◌) h
  ]

  pub >>=-RunMoves :
      {A B : Type 0} (act : Action (Run W) A) (f : A → Action (Run W) B) (r : Run W)
      → RunMoves r (act r).1
      → ((a : A) → RunMoves (act r).1 (f a (act r).1).1)
      → RunMoves r ((act >>= f) r).1
  >>=-RunMoves act f r h k = bind-RunMoves act f r h (λ a _. k a)

  pub >>=-Moving :
      {A B : Type 0} (act : Action (Run W) A) (f : A → Action (Run W) B)
      → Moving act
      → ((a : A) → Moving (f a))
      → Moving (act >>= f)
  >>=-Moving act f h k r = >>=-RunMoves act f r (h r) (λ a. k a (act r).1)

  pub >>=-Silent :
      {A B : Type 0} (act : Action (Run W) A) (f : A → Action (Run W) B)
      → Silent act
      → ((a : A) → Silent (f a))
      → Silent (act >>= f)
  >>=-Silent act f h k r = elim (Result-cases (act r).0) [
    | inl (a, e) ↦ rw (e, ◌>>=◌) (k a (act r).1 ∙ h r)
    | inr (_, e) ↦ rw (e, ◌>>=◌) (h r)
  ]

  pub >>-Silent :
      {A B : Type 0} (act : Action (Run W) A) (rest : Action (Run W) B)
      → Silent act
      → Silent rest
      → Silent (act >> rest)
  >>-Silent act rest h k = >>=-Silent act (λ _. rest) h (λ _. k)

  pub needed-Silent :
      {A : Type 0} (found : Option A) (r : Run W) → (needed found r).1.session ≡ r.session
  unfolding needed missing_row
  needed-Silent none r = refl
  needed-Silent (some a) r = refl

  pub Silent-Moving : {A : Type 0} (act : Action (Run W) A) → Silent act → Moving act
  unfolding RunMoves
  Silent-Moving act h r = rw (h r) (RunMoves-refl r)

  needed_then :
      {A B : Type 0} (found : Option B) (f : B → Action (Run W) A) (r : Run W)
      → ((b : B) → found ≡ some b → RunMoves r (f b r).1)
      → RunMoves r ((needed found >>= f) r).1
  unfolding needed missing_row
  needed_then none f r h = RunMoves-refl r
  needed_then (some b) f r h = h b refl

  -- `order = await session.get(Order, id)`, where the code goes on to use it.
  pub with_order_lem :
      {A : Type 0} (id : ℕ) (f : Order → Action (Run W) A)
      → ((o : Order) (r : Run W) → get_order id (database r) ≡ some o → RunMoves r (f o r).1)
      → Moving (gets (λ r. get_order id (database r)) >>= needed >>= f)
  with_order_lem id f h r = needed_then (get_order id (database r)) f r (λ o. h o r)

  -- Another row that the code goes on to use.
  pub with_row_lem :
      {A B : Type 0} (find : Database → Option B) (f : B → Action (Run W) A) (r : Run W)
      → ((b : B) → RunMoves r (f b r).1)
      → RunMoves r ((gets (λ s. find (database s)) >>= needed >>= f) r).1
  with_row_lem find f r h = needed_then (find (database r)) f r (λ b _. h b)

  -- A write-back of the order that was found.
  pub update_order-RunMoves :
      (id : ℕ) (f : Order → Order) (o : Order) (r : Run W)
      → ((x : Order) → (f x).id ≡ x.id)
      → get_order id (database r) ≡ some o
      → IsMove f o
      → RunMoves r (change (update_order o.id f) r).1
  unfolding RunMoves get_order update_order
  update_order-RunMoves id f o r key h move =
      (refl, update_found-Moves (λ x. x.id == id) f (database r).orders o key h move)

  -- What a transaction commits is what its body moves to.
  pub in_transaction-Moves :
      {A : Type 0} (body : Action (Run W) A) (r : Run W)
      → Moving body
      → Moves r.session.committed.orders ((in_transaction body) r).1.session.committed.orders
  unfolding RunMoves in_transaction begin finish_transaction
  in_transaction-Moves body r h =
      let (same, moved) = h (begin r) in
      elim (Result-cases (body (begin r)).0) [
        | inl (a, e) ↦ rw (e, finish_transaction) moved
        | inr (_, e) ↦
            rw (e, finish_transaction)
              (subst (λ (db : Database). Moves r.session.committed.orders db.orders) same
                (Moves-refl r.session.committed.orders))
      ]

  -- What follows the transaction only speaks.
  pub transaction_then-Moves :
      {A B : Type 0} (body : Action (Run W) A) (f : A → Action (Run W) B) (r : Run W)
      → Moving body
      → ((a : A) → Silent (f a))
      → Moves r.session.committed.orders ((in_transaction body >>= f) r).1.session.committed.orders
  transaction_then-Moves body f r h k = elim (Result-cases (in_transaction body r).0) [
    | inl (a, e) ↦
        rw (e, ◌>>=◌) (rw (k a (in_transaction body r).1) (in_transaction-Moves body r h))
    | inr (_, e) ↦ rw (e, ◌>>=◌) (in_transaction-Moves body r h)
  ]

  pub notify_all-Silent :
      (bot : Telegram W) (chats : List ℕ) (message : Message)
      → Silent (notify_all bot chats message)
  unfolding notify_all notify
  notify_all-Silent bot [] message r = refl
  notify_all-Silent bot (chat ∷ chats) message r =
      >>=-Silent (notify bot chat message) (λ _. notify_all bot chats message) (λ _. refl)
        (λ _. notify_all-Silent bot chats message) r
