-- ===== src/Orders/Table.antt =====
-- The table of the orders from one moment to a later one: what may have happened to its rows.
use rebecca_reseller_bot.Prelude.{
  ℕ, ◌≡◌, refl, ◌∙◌, sym, subst, Bool, true, false, not, some, List, [], ◌∷◌, ◌++◌, all, first,
  update_where, ◌==◌, arith, is_some, Bool-cases, inl, inr,
}
use rebecca_reseller_bot.Database.Models.{Order, OrderStatus, is_settled}
use rebecca_reseller_bot.Orders.Diagram.{◌⟶*◌, here, ⟶*-trans}

-- An order carries the time of its payment exactly where it was paid.
unfoldable pub IsConsistent : Order → Type 0
IsConsistent o = is_settled o.status ≡ is_some o.paid_at

-- A later version of the same row.
unfoldable pub Follows : Order → Order → Type 0
Follows o o' =
    (o.id ≡ o'.id)
    × (o.order_number ≡ o'.order_number)
    × (o.amount ≡ o'.amount)
    × (o.status ⟶* o'.status)

-- The states that a new row is given.
pub data IsBorn : OrderStatus → Type 0 where
  card_waits : IsBorn OrderStatus.pending
  invoice_waits : IsBorn OrderStatus.waiting_payment

-- A state that a new row reaches.
unfoldable pub Arises : OrderStatus → Type 0
Arises s = (b : OrderStatus) × IsBorn b × (b ⟶* s)

-- Every row is followed by its later version, and new rows come after them.
unfoldable pub Evolves : List Order → List Order → Type 0
Evolves [] [] = Unit
Evolves [] (o ∷ os) = Arises o.status × Evolves [] os
Evolves (o ∷ os) [] = ⊥
Evolves (o ∷ os) (o' ∷ os') = Follows o o' × Evolves os os'

abbrev pub is_fresh : ℕ → List Order → Bool
is_fresh k = all (λ o. not (o.id == k))

-- No two rows have the same key, and every row is consistent.
unfoldable pub IsSound : List Order → Type 0
IsSound [] = Unit
IsSound (o ∷ os) = (is_fresh o.id os ≡ true) × IsConsistent o × IsSound os

pub Follows-refl : (o : Order) → Follows o o
unfolding Follows
Follows-refl o = (refl, refl, refl, here)

pub Follows-trans : (a b c : Order) → Follows a b → Follows b c → Follows a c
unfolding Follows
Follows-trans a b c (i, n, m, h) (j, o, p, k) = (cc (i, j), cc (n, o), cc (m, p), ⟶*-trans h k)

pub Evolves-refl : (os : List Order) → Evolves os os
unfolding Evolves
Evolves-refl [] = tt
Evolves-refl (o ∷ os) = (Follows-refl o, Evolves-refl os)

Arises-then : (o o' : Order) → Arises o.status → Follows o o' → Arises o'.status
unfolding Arises Follows
Arises-then o o' (b, born, h) (_, _, _, k) = (b, born, ⟶*-trans h k)

pub Evolves-trans : (a b c : List Order) → Evolves a b → Evolves b c → Evolves a c
unfolding Evolves
Evolves-trans [] [] c h k = k
Evolves-trans [] (o ∷ b) [] h k = tt
Evolves-trans [] (o ∷ b) (o' ∷ c) (h, hs) (k, ks) =
    (Arises-then o o' h k, Evolves-trans [] b c hs ks)
Evolves-trans (o ∷ a) [] c h k = absurd h
Evolves-trans (o ∷ a) (o' ∷ b) [] h k = absurd k
Evolves-trans (o ∷ a) (o' ∷ b) (o'' ∷ c) (h, hs) (k, ks) =
    (Follows-trans o o' o'' h k, Evolves-trans a b c hs ks)

-- From a sound table, a sound table that it evolves to.
unfoldable pub Moves : List Order → List Order → Type 0
Moves os os' = IsSound os → Evolves os os' × IsSound os'

pub Moves-refl : (os : List Order) → Moves os os
unfolding Moves
Moves-refl os sound = (Evolves-refl os, sound)

pub Moves-trans : (a b c : List Order) → Moves a b → Moves b c → Moves a c
unfolding Moves
Moves-trans a b c h k sound =
    let (e, sound') = h sound in let (e', sound'') = k sound' in (Evolves-trans a b c e e', sound'')

-- What a change of one row has to do.
unfoldable pub IsMove : (Order → Order) → Order → Type 0
IsMove f o = IsConsistent o → Follows o (f o) × IsConsistent (f o)

-- No change of a row makes a key stale.
is_fresh-update_where :
    (p : Order → Bool) (f : Order → Order) (k : ℕ) (os : List Order)
    → ((o : Order) → (f o).id ≡ o.id)
    → is_fresh k (update_where p f os) ≡ is_fresh k os
is_fresh-update_where p f k [] h = refl
is_fresh-update_where p f k (o ∷ os) h = elim (Bool-cases (p o)) [
  | inl e ↦ rw (e, h o, is_fresh-update_where p f k os h) refl
  | inr e ↦ rw (e, is_fresh-update_where p f k os h) refl
]

-- `UPDATE … WHERE`, where the change is a move for every row that it meets.
pub update_where-Moves :
    (p : Order → Bool) (f : Order → Order) (os : List Order)
    → ((o : Order) → (f o).id ≡ o.id)
    → ((o : Order) → p o ≡ true → IsMove f o)
    → Moves os (update_where p f os)
unfolding Moves IsMove Evolves IsSound
update_where-Moves p f [] key move sound = (tt, tt)
update_where-Moves p f (o ∷ os) key move (fresh, consistent, sound) =
    let (es, sounds) = update_where-Moves p f os key move sound in
    let keep = is_fresh-update_where p f o.id os key in
    elim (Bool-cases (p o)) [
      | inl e ↦
          let (follows, consistent') = move o e consistent in
          rw e ((follows, es), (rw (key o) (keep ∙ fresh), consistent', sounds))
      | inr e ↦ rw e ((Follows-refl o, es), (keep ∙ fresh, consistent, sounds))
    ]

-- A change of a row that no key meets.
pub update_fresh :
    (k : ℕ) (f : Order → Order) (os : List Order)
    → is_fresh k os ≡ true
    → update_where (λ o. o.id == k) f os ≡ os
update_fresh k f [] h = refl
update_fresh k f (o ∷ os) h = elim (Bool-cases (o.id == k)) [
  | inl e ↦ absurd (ground (arith, h, e))
  | inr e ↦ rw (e, update_fresh k f os (ground (arith, h))) refl
]

-- A row that is found has none of the keys that are fresh.
found_not_fresh :
    (p : Order → Bool) (k : ℕ) (os : List Order) (o : Order)
    → is_fresh k os ≡ true
    → first p os ≡ some o
    → (k == o.id) ≡ false
found_not_fresh p k [] o h e = absurd (cc e)
found_not_fresh p k (x ∷ os) o h e = ground (arith, h, e, found_not_fresh p k os o)

-- The head is the row that is found.
update_head-Moves :
    (f : Order → Order) (o : Order) (os : List Order)
    → (f o).id ≡ o.id
    → IsMove f o
    → Moves (o ∷ os) (update_where (λ x. x.id == o.id) f (o ∷ os))
unfolding Moves IsMove Evolves IsSound
update_head-Moves f o os key move (fresh, consistent, sound) =
    let (follows, consistent') = move consistent in
    let same : (o.id == o.id) ≡ true = ground arith in
    rw (same, update_fresh o.id f os fresh)
      ((follows, Evolves-refl os), (rw key fresh, consistent', sound))

-- The write-back of a row that was found: the key meets no other row.
pub update_found-Moves :
    (p : Order → Bool) (f : Order → Order) (os : List Order) (o : Order)
    → ((x : Order) → (f x).id ≡ x.id)
    → first p os ≡ some o
    → IsMove f o
    → Moves os (update_where (λ x. x.id == o.id) f os)
unfolding Moves Evolves IsSound
update_found-Moves p f [] o key h move sound = (tt, tt)
update_found-Moves p f (x ∷ os) o key h move (fresh, consistent, sound) = elim (Bool-cases (p x)) [
  | inl e ↦
      let same : x ≡ o = cc (rw e at h) in
      subst (λ y. Moves (x ∷ os) (update_where (λ z. z.id == y.id) f (x ∷ os))) same
        (update_head-Moves f x os (key x) (subst (IsMove f) (sym same) move))
        (fresh, consistent, sound)
  | inr e ↦
      let rest : first p os ≡ some o = rw e at h in
      let (es, sounds) = update_found-Moves p f os o key rest move sound in
      let keep = is_fresh-update_where (λ y. y.id == o.id) f x.id os key in
      rw (found_not_fresh p x.id os o fresh rest)
        ((Follows-refl x, es), (keep ∙ fresh, consistent, sounds))
]

-- A fresh key stays fresh beside another one.
is_fresh-append :
    (k : ℕ) (os : List Order) (o : Order)
    → is_fresh k os ≡ true
    → (o.id == k) ≡ false
    → is_fresh k (os ++ (o ∷ [])) ≡ true
is_fresh-append k [] o h e = ground (arith, e)
is_fresh-append k (x ∷ os) o h e = ground (arith, h, e, is_fresh-append k os o)

-- A new row with a fresh key.
pub append-Moves :
    (os : List Order) (o : Order)
    → is_fresh o.id os ≡ true
    → Arises o.status
    → IsConsistent o
    → Moves os (os ++ (o ∷ []))
unfolding Moves Evolves IsSound
append-Moves [] o fresh born consistent sound = ((born, tt), (refl, consistent, tt))
append-Moves (x ∷ os) o fresh born consistent (fresh', consistent', sound) =
    let (es, sounds) = append-Moves os o (ground (arith, fresh)) born consistent sound in
    let other : (o.id == x.id) ≡ false = ground (arith, fresh) in
    ((Follows-refl x, es), (is_fresh-append x.id os o fresh' other, consistent', sounds))
