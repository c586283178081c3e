-- ===== src/Bot/Console/Checked.antt =====
-- What has to hold before the console switches a reseller off or on.
use rebecca_reseller_bot.Prelude.{
  ℕ, ◌≡◌, refl, ap, ◌∙◌, ◌⊎◌, inl, inr, Bool, true, false, Option, none, some, [], or_else, ◌||◌,
  not, Bool-cases, arith, if◌then◌else◌,
}
use rebecca_reseller_bot.Prelude.Text.{Text, lit, teq, is_empty}
use rebecca_reseller_bot.Prelude.Effects.{Action, ok, Result-cases, >>=-state, >>=-raised, ◌>>=◌}
use rebecca_reseller_bot.Rebecca.Models.{Admin}
use rebecca_reseller_bot.Rebecca.Interface.{RebeccaClient}
use rebecca_reseller_bot.Database.Models.{Reseller, Database}
use rebecca_reseller_bot.Database.Session.{write}
use rebecca_reseller_bot.Database.Settings.{Settings, operations_mode}
use rebecca_reseller_bot.Scheduler.State.{Run, remote, update_reseller}
use rebecca_reseller_bot.Bot.Transactions.{
  owner_access, begin, in_transaction, finish_transaction, get_reseller,
}
use rebecca_reseller_bot.Bot.Receipts.{needed, missing_row}
use rebecca_reseller_bot.Bot.Owner.{Console, OwnerAnswer, owned, suspend, unsuspend}
use rebecca_reseller_bot.Bot.Console.{
  is_expected, finish_state, switch_admin, switch_at_rebecca, switch_row, switch_rows,
  reseller_state_change,
}

-- How the row changes.
abbrev pub switched : Bool → Reseller → Reseller
switched disable = if disable then suspend else unsuspend

-- An action that ends in one of two rows: the session as it was, or one row switched.
abbrev Ends : {W : Type 0} → Bool → ℕ → Run W → Run W → Type 0
Ends disable id r after =
    (after.session ≡ r.session)
    ⊎ (after.session ≡ write (update_reseller id (switched disable)) r.session)

module _ {W : Type 0} (console : Console W) (defaults : Settings) (disable : Bool) where
  -- Rebecca carried the switch out, and a read right after it showed the status that was asked for.
  pub record Confirmed (client : RebeccaClient W) (username : Text) (w : W) : Type 0 where
    pub is_switched : (switch_admin console defaults client disable username w).0 ≡ ok tt
    pub live : Option Admin
    pub is_read :
        (client.get_admin username (switch_admin console defaults client disable username w).1).0
        ≡ ok live
    pub has_status : is_expected disable live ≡ true

  -- What has to hold before the console calls Rebecca, and, where the row changes, after it did.
  pub record Switched (caller id : ℕ) (before after : Run W) : Type 0 where
    pub is_owner : owner_access caller console.owner_ids ≡ true
    pub mode : Text
    pub is_stored : operations_mode defaults before.session.committed.settings ≡ ok mode
    pub not_dry : teq mode (lit "dry_run") ≡ false
    pub is_allowed : console.allow_disable_actions ≡ true
    pub client : RebeccaClient W
    pub is_there : console.rebecca ≡ some client
    pub row : Reseller
    pub is_row : get_reseller id before.session.committed ≡ some row
    pub has_name : is_empty (or_else row.rebecca_admin_username []) ≡ false
    pub outcome :
        (after.session.committed ≡ before.session.committed)
        ⊎ ((after.session.committed
              ≡ update_reseller row.id (switched disable) before.session.committed)
            × Confirmed client (or_else row.rebecca_admin_username []) before.world)

  -- The session is as it was, or the switch was confirmed and the row is changed.
  abbrev Outcome : RebeccaClient W → Reseller → Run W → Run W → Type 0
  Outcome client x r after =
      (after.session ≡ r.session)
      ⊎ ((after.session ≡ write (update_reseller x.id (switched disable)) r.session)
          × Confirmed client (or_else x.rebecca_admin_username []) r.world)

  finish_state-cases :
      (id : ℕ) (live : Option Admin) (r : Run W)
      → ((finish_state console defaults disable id live r).1 ≡ r)
        ⊎ ((is_expected disable live ≡ true)
            × ((finish_state console defaults disable id live r).1.session
                ≡ write (update_reseller id (switched disable)) r.session))
  unfolding finish_state
  finish_state-cases id live r = elim (Bool-cases (is_expected disable live)) [
    | inl e ↦ inr (e, rw (e, finish_state) refl)
    | inr e ↦ inl (rw (e, finish_state) refl)
  ]

  read_back-Outcome :
      (client : RebeccaClient W) (x : Reseller) (r : Run W)
      → let username = or_else x.rebecca_admin_username [] in
        let s = record r {
          world = (switch_admin console defaults client disable username r.world).1;
        } in
        let again =
          remote (client.get_admin username) >>= finish_state console defaults disable x.id in
        (switch_admin console defaults client disable username r.world).0 ≡ ok tt
        → Outcome client x r (again s).1
  read_back-Outcome client x r h =
      let username = or_else x.rebecca_admin_username [] in
      let s = record r {
        world = (switch_admin console defaults client disable username r.world).1;
      } in
      let find = remote (client.get_admin username) in
      let rest = finish_state console defaults disable x.id in
      elim (Result-cases (client.get_admin username s.world).0) [
        | inr (_, e) ↦ inl (rw (>>=-raised find rest s e) refl)
        | inl (live, e) ↦ elim (finish_state-cases x.id live (find s).1) [
          | inl same ↦ inl (rw (>>=-state find rest s e) (ap (λ t. t.session) same))
          | inr (status, set) ↦ inr (
            rw (>>=-state find rest s e) set,
            record { is_switched = h; live = live; is_read = e; has_status = status },
          )
        ]
      ]

  switch_at_rebecca-cases :
      (found : Option (RebeccaClient W)) (x : Reseller) (r : Run W)
      → ((switch_at_rebecca console defaults disable found x r).1 ≡ r)
        ⊎ ((client : RebeccaClient W) × (found ≡ some client)
            × (is_empty (or_else x.rebecca_admin_username []) ≡ false)
            × Outcome client x r (switch_at_rebecca console defaults disable found x r).1)
  unfolding switch_at_rebecca
  switch_at_rebecca-cases none x r = inl refl
  switch_at_rebecca-cases (some client) x r =
      let username = or_else x.rebecca_admin_username [] in
      let switch = remote (switch_admin console defaults client disable username) in
      let again =
        remote (client.get_admin username) >>= finish_state console defaults disable x.id in
      elim (Bool-cases (is_empty username)) [
        | inl e ↦ inl (rw (e, switch_at_rebecca) refl)
        | inr e ↦ inr (
          client,
          refl,
          e,
          rw (e, switch_at_rebecca)
              (elim (Result-cases (switch r).0) [
                | inr (_, f) ↦ inl (rw (>>=-raised switch (λ _. again) r f) refl)
                | inl (t, f) ↦
                    rw (>>=-state switch (λ _. again) r f) (read_back-Outcome client x r f)
              ]),
        )
      ]

  -- What the block of the handler does with the row that it finds.
  switch_row-cases :
      (found : Option Reseller) (mode : Text) (r : Run W)
      → ((switch_row console defaults disable found mode r).1 ≡ r)
        ⊎ ((teq mode (lit "dry_run") ≡ false)
            × (console.allow_disable_actions ≡ true)
            × ((client : RebeccaClient W) × (row : Reseller) × (console.rebecca ≡ some client)
                × (found ≡ some row)
                × (is_empty (or_else row.rebecca_admin_username []) ≡ false)
                × Outcome client row r (switch_row console defaults disable found mode r).1))
  unfolding switch_row needed missing_row
  switch_row-cases none mode r =
      elim (Bool-cases (teq mode (lit "dry_run") || not console.allow_disable_actions)) [
        | inl e ↦ inl (rw (e, switch_row) refl)
        | inr e ↦ inl (rw (e, switch_row) refl)
      ]
  switch_row-cases (some row) mode r =
      elim (Bool-cases (teq mode (lit "dry_run") || not console.allow_disable_actions)) [
        | inl e ↦ inl (rw (e, switch_row) refl)
        | inr e ↦ elim (switch_at_rebecca-cases console.rebecca row r) [
          | inl same ↦ inl (rw (e, switch_row) same)
          | inr (client, is_there, named, outcome) ↦ inr (
            ground arith,
            ground arith,
            (client, row, is_there, refl, named, rw (e, switch_row) outcome),
          )
        ]
      ]

  -- A block that leaves the session of its transaction as it was commits nothing new.
  in_transaction-same :
      (body : Action (Run W) OwnerAnswer) (r : Run W)
      → (body (begin r)).1.session ≡ (begin r).session
      → (in_transaction body r).1.session.committed ≡ r.session.committed
  unfolding in_transaction finish_transaction begin
  in_transaction-same body r h = elim (Result-cases (body (begin r)).0) [
    | inl (_, e) ↦ rw (e, finish_transaction) (ap (λ s. s.written) h)
    | inr (_, e) ↦ rw (e, finish_transaction) (ap (λ s. s.committed) h)
  ]

  -- A block that writes once commits what it wrote, or nothing.
  in_transaction-write :
      (body : Action (Run W) OwnerAnswer) (f : Database → Database) (r : Run W)
      → (body (begin r)).1.session ≡ write f (begin r).session
      → ((in_transaction body r).1.session.committed ≡ r.session.committed)
        ⊎ ((in_transaction body r).1.session.committed ≡ f r.session.committed)
  unfolding in_transaction finish_transaction begin
  in_transaction-write body f r h = elim (Result-cases (body (begin r)).0) [
    | inl (_, e) ↦ inr (rw (e, finish_transaction) (ap (λ s. s.written) h))
    | inr (_, e) ↦ inl (rw (e, finish_transaction) (ap (λ s. s.committed) h))
  ]

  in_transaction-world :
      (body : Action (Run W) OwnerAnswer) (r : Run W)
      → (in_transaction body r).1.world ≡ (body (begin r)).1.world
  unfolding in_transaction finish_transaction
  in_transaction-world body r = elim (Result-cases (body (begin r)).0) [
    | inl (_, e) ↦ rw (e, finish_transaction) refl
    | inr (_, e) ↦ rw (e, finish_transaction) refl
  ]

  switch_rows-cases :
      (id : ℕ) (q : Run W)
      → ((switch_rows console defaults disable id q).1 ≡ q)
        ⊎ ((mode : Text) × (operations_mode defaults q.session.written.settings ≡ ok mode)
            × (teq mode (lit "dry_run") ≡ false)
            × (console.allow_disable_actions ≡ true)
            × ((client : RebeccaClient W) × (row : Reseller) × (console.rebecca ≡ some client)
                × (get_reseller id q.session.written ≡ some row)
                × (is_empty (or_else row.rebecca_admin_username []) ≡ false)
                × Outcome client row q (switch_rows console defaults disable id q).1))
  unfolding switch_rows
  switch_rows-cases id q =
      let found = get_reseller id q.session.written in
      elim (Result-cases (operations_mode defaults q.session.written.settings)) [
        | inr (_, e) ↦ inl (rw (e, ◌>>=◌) refl)
        | inl (mode, e) ↦ elim (switch_row-cases found mode q) [
          | inl same ↦ inl (rw (e, ◌>>=◌) same)
          | inr (live, allowed, (client, row, is_there, is_row, named, outcome)) ↦ inr (
            mode,
            e,
            live,
            allowed,
            (client, row, is_there, is_row, named, rw (e, ◌>>=◌) outcome),
          )
        ]
      ]

  -- What the transaction makes of the outcome of its block.
  committed-Outcome :
      (body : Action (Run W) OwnerAnswer) (client : RebeccaClient W) (row : Reseller) (r : Run W)
      → Outcome client row (begin r) (body (begin r)).1
      → let after = (in_transaction body r).1 in
        (after.session.committed ≡ r.session.committed)
        ⊎ ((after.session.committed ≡ update_reseller row.id (switched disable) r.session.committed)
            × Confirmed client (or_else row.rebecca_admin_username []) r.world)
  unfolding begin
  committed-Outcome body client row r (inl same) = inl (in_transaction-same body r same)
  committed-Outcome body client row r (inr (set, confirmed)) =
      elim (in_transaction-write body (update_reseller row.id (switched disable)) r set) [
        | inl same ↦ inl same
        | inr new ↦ inr (new, confirmed)
      ]

  -- However a press of the buttons of the console that suspend and enable a reseller ends, either Rebecca is not
  -- called and the committed database stays, or all this holds (`Switched`): an owner pressed it, the stored
  -- mode is not the dry run, the environment allows it, there is a client, and the reseller has an
  -- administrator. In that case the committed database stays, or only the reseller's row is switched, after
  -- Rebecca carried the switch out and a read right after it showed the new status.
  pub state_change_gated :
      (caller id : ℕ) (r : Run W)
      → let after = (reseller_state_change console defaults caller disable id r).1 in
        ((after.world ≡ r.world) × (after.session.committed ≡ r.session.committed))
        ⊎ Switched caller id r after
  unfolding reseller_state_change owned begin
  state_change_gated caller id r =
      let body = switch_rows console defaults disable id in
      elim (Bool-cases (owner_access caller console.owner_ids)) [
        | inr e ↦ inl (rw (e, reseller_state_change, owned) (refl, refl))
        | inl e ↦ elim (switch_rows-cases id (begin r)) [
          | inl same ↦ inl (
              rw (e, reseller_state_change, owned)
                (
                  in_transaction-world body r ∙ ap (λ t. t.world) same,
                  in_transaction-same body r (ap (λ t. t.session) same),
                ))
          | inr (mode, stored, live, allowed, (client, row, is_there, is_row, named, outcome)) ↦
              inr (record {
                is_owner = e;
                mode = mode;
                is_stored = stored;
                not_dry = live;
                is_allowed = allowed;
                client = client;
                is_there = is_there;
                row = row;
                is_row = is_row;
                has_name = named;
                outcome =
                    rw (e, reseller_state_change, owned)
                      (committed-Outcome body client row r outcome);
              })
        ]
      ]
