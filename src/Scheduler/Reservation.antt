-- ===== src/Scheduler/Reservation.antt =====
-- What stands in the database before Rebecca sees the request to create an administrator.
use rebecca_reseller_bot.Prelude.{
  ℕ, zero, suc, ◌≡◌, refl, sym, ap, ◌∙◌, false, Option, none, some, inl, inr, Bool-cases,
  Option-cases,
}
use rebecca_reseller_bot.Prelude.Text.{Text}
use rebecca_reseller_bot.Prelude.Time.{Instant}
use rebecca_reseller_bot.Prelude.Effects.{Action, ok, >>=-eq-ok, >>=-state}
use rebecca_reseller_bot.Database.Session.{Session}
use rebecca_reseller_bot.Database.Models.{Order, Reseller, Product, reservation}
use rebecca_reseller_bot.Payments.Service.Apply.{persisted_target}
use rebecca_reseller_bot.Reseller.Credentials.{username_candidate}
use rebecca_reseller_bot.Scheduler.State.{Run, remote, database, update_reseller, update_order}
use rebecca_reseller_bot.Scheduler.Provisioning.{
  OrderRunner, is_taken, reserved, check_found, check_candidate, available_username, reserve_as,
  has_username, reserve, reserved_order, reserved_reseller,
}

pair : {A B : Type 0} {a a' : A} {b b' : B} → a ≡ a' → b ≡ b' → ◌≡◌ {A = A × B} (a, b) (a', b')
pair p q = λ i. (p i, q i)

module _ {W : Type 0} (env : OrderRunner W) (now : Instant) where
  -- The worlds that a search of a username which starts in `w` comes to: it draws suffixes and asks for
  -- administrators, and does nothing else.
  pub data Search (w : W) : W → Type 0 where
    start : Search w w
    drawn : {v : W} → Search w v → Search w (env.drawn_suffix v).1
    asked : {v : W} → (u : Text) → Search w v → Search w (env.runner.rebecca.get_admin u v).1

  -- A search that starts in `r` and ends in `after` found the name free: no reseller in the database of `r`
  -- has it, and the last question of the search was for an administrator of that name, and found none. The
  -- search left the session as it was.
  pub record Free (r : Run W) (name : Text) (after : Run W) : Type 0 where
    pub is_unused : is_taken name (database r) ≡ false
    pub last : W
    pub is_search : Search r.world last
    pub no_admin : (env.runner.rebecca.get_admin name last).0 ≡ ok none
    pub ends : after.world ≡ (env.runner.rebecca.get_admin name last).1
    pub same_session : after.session ≡ r.session

  check_candidate-Free :
      (r : Run W) (next : Action (Run W) Text) (candidate : Text) (q : Run W) (name : Text)
      → ((q : Run W)
          → Search r.world q.world
          → q.session ≡ r.session
          → (next q).0 ≡ ok name
          → Free r name (next q).1)
      → Search r.world q.world
      → q.session ≡ r.session
      → (check_candidate env now next candidate q).0 ≡ ok name
      → Free r name (check_candidate env now next candidate q).1
  unfolding check_candidate check_found
  check_candidate-Free r next candidate q name k search same h =
      elim (Bool-cases (is_taken candidate (database q))) [
        | inl e ↦ rw (e, check_candidate) (k q search same (rw (e, check_candidate) at h))
        | inr e ↦
            let find = remote (env.runner.rebecca.get_admin candidate) in
            let rest = check_found env now next candidate in
            let (found, f, g) = >>=-eq-ok find rest q (rw (e, check_candidate) at h) in
            elim (Option-cases found) [
              | inl n ↦
                  let c : candidate ≡ name = cc (rw (n, check_found) at g) in
                  let none_found : (find q).0 ≡ ok none = rw (← n) f in
                  rw (e, check_candidate)
                    (rw (>>=-state find rest q none_found) (record {
                      is_unused = rw (← c, ← same) e;
                      last = q.world;
                      is_search = search;
                      no_admin = rw (← c) none_found;
                      ends = rw c refl;
                      same_session = same;
                    }))
              | inr (a, n) ↦
                  rw (e, check_candidate)
                    (rw (>>=-state find rest q f) (
                      rw (n, check_found)
                        (k (find q).1 (asked candidate search) same (rw (n, check_found) at g))))
            ]
      ]

  available_username-Free :
      (r : Run W) (tries : ℕ) (telegram_username : Option Text) (q : Run W) (name : Text)
      → Search r.world q.world
      → q.session ≡ r.session
      → (available_username env now tries telegram_username q).0 ≡ ok name
      → Free r name (available_username env now tries telegram_username q).1
  unfolding available_username
  available_username-Free r zero telegram_username q name search same h = absurd (cc h)
  available_username-Free r (suc tries) telegram_username q name search same h =
      let next = available_username env now tries telegram_username in
      let rest = λ (drawn : ℕ).
        check_candidate env now next (username_candidate telegram_username none drawn) in
      let draw = remote env.drawn_suffix in
      let (n, e, g) = >>=-eq-ok draw rest q h in
      rw (>>=-state draw rest q e) (
        check_candidate-Free r next (username_candidate telegram_username none n) (draw q).1 name
          (λ p. available_username-Free r tries telegram_username p name) (drawn search) same g)

  -- What holds after a reservation that started in `r`: the username was free, and what is committed is the
  -- database of `r` with the order and its target and with the reseller and the username.
  pub record Durable (order : Order) (reseller : Reseller) (product : Product) (r : Run W)
      (order' : Order) (reseller' : Reseller) (after : Run W) : Type 0 where
    pub name : Text
    pub found : Run W
    pub is_free : Free r name found
    pub same_world : after.world ≡ found.world
    pub has_name : reseller'.rebecca_admin_username ≡ some name
    pub has_target : persisted_target order' ≡ some (reservation (reserved now product name))
    pub is_committed :
        after.session.committed
        ≡ update_order order.id
            (λ _. order')
            (update_reseller reseller.id (λ _. reseller') (database r))
    pub is_written : after.session.written ≡ after.session.committed

  reserve_as-Durable :
      (order : Order) (reseller : Reseller) (product : Product) (name : Text) (r found : Run W)
      (order' : Order) (reseller' : Reseller)
      → Free r name found
      → (reserve_as env now order reseller product name found).0 ≡ ok (order', reseller')
      → Durable order reseller product r order' reseller'
          (reserve_as env now order reseller product name found).1
  unfolding reserve_as reserved_order reserved_reseller persisted_target
  reserve_as-Durable order reseller product name r found order' reseller' free h =
      let o : reserved_order env now product name order ≡ order' = cc h in
      let s : reserved_reseller env now name reseller ≡ reseller' = cc h in
      record {
        name = name;
        found = found;
        is_free = free;
        same_world = refl;
        has_name = ap (λ x. x.rebecca_admin_username) (sym s);
        has_target = rw (← o) refl;
        is_committed =
            ap
              (λ (x : Order × Reseller).
                update_order order.id (λ _. x.0)
                  (update_reseller reseller.id (λ _. x.1) (database found)))
              (pair o s)
            ∙ ap
                (λ (x : Session).
                  update_order order.id (λ _. order')
                    (update_reseller reseller.id (λ _. reseller') x.written))
                free.same_session;
        is_written = refl;
      }

  -- A reservation that succeeds for a reseller without a username ends in a commit. What is committed is the
  -- database that it started with, with the order that has the target for a username and with the reseller
  -- that has that username, and nothing is left uncommitted. No reseller of that database had the username,
  -- and the last thing asked of Rebecca was for an administrator of that name, of which there was none.
  pub reserve-Durable :
      (order : Order) (reseller : Reseller) (product : Product) (r : Run W) (order' : Order)
      (reseller' : Reseller)
      → has_username env now reseller ≡ false
      → (reserve env now order reseller product r).0 ≡ ok (order', reseller')
      → Durable order reseller product r order' reseller'
          (reserve env now order reseller product r).1
  unfolding reserve
  reserve-Durable order reseller product r order' reseller' n h =
      let draw = available_username env now 100 reseller.telegram_username in
      let rest = reserve_as env now order reseller product in
      let (name, f, g) = >>=-eq-ok draw rest r (rw (n, reserve) at h) in
      rw (n, reserve)
        (rw (>>=-state draw rest r f) (
          reserve_as-Durable order reseller product name r (draw r).1 order' reseller'
            (available_username-Free r 100 reseller.telegram_username r name start refl f) g))
