-- ===== src/Bot/Owner/Blind.antt =====
-- Which handlers of the owners do not look at the stored settings.
use rebecca_reseller_bot.Prelude.{
  ℕ, ◌≡◌, refl, ap, ◌∙◌, Bool, true, false, ◌||◌, not, Option, none, some, List, [], or_else, inl,
  inr, if◌then◌else◌,
}
use rebecca_reseller_bot.Prelude.Text.{Text, is_empty}
use rebecca_reseller_bot.Prelude.Time.{Instant}
use rebecca_reseller_bot.Prelude.Effects.{
  Action, raised, Result-cases, >>=-state, >>=-raised, pure, ◌>>=◌, ◌>>◌,
}
use rebecca_reseller_bot.Rebecca.Models.{Admin}
use rebecca_reseller_bot.Rebecca.Interface.{RebeccaClient}
use rebecca_reseller_bot.Database.Models.{
  Database, Reseller, ResellerStatus, Setting, same_reseller_status,
}
use rebecca_reseller_bot.Scheduler.State.{Run, change, remote, update_reseller}
use rebecca_reseller_bot.Bot.Transactions.{
  owner_access, begin, in_transaction, finish_transaction, get_reseller,
}
use rebecca_reseller_bot.Bot.Owner.{
  Console, OwnerAnswer, no_owner, owned, may_delete, remove_user, suspend, unsuspend, would_disable,
  disable_at_rebecca, disable_or_note, suspend_row, suspend_rows, reseller_disable, is_live_active,
  finish_enabling, enable_at_rebecca, enable_row, enable_rows, reseller_enable, user_delete_confirm,
}

abbrev settled : List Setting → Database → Database
settled rows db = record db { settings = rows }

module _ {W : Type 0} (rows : List Setting) where
  -- The same run with other stored settings, the mode of operation among them.
  abbrev pub with_settings : Run W → Run W
  with_settings r = record r {
    session = record r.session {
      written = settled rows r.session.written;
      committed = settled rows r.session.committed;
    };
  }

  -- The action answers and does the same whatever settings are stored.
  abbrev pub Blind : {A : Type 0} → Action (Run W) A → Type 0
  Blind act = (r : Run W) → act (with_settings r) ≡ ((act r).0, with_settings (act r).1)

  Blind->>= :
      {A B : Type 0} (m : Action (Run W) A) (f : A → Action (Run W) B)
      → Blind m
      → ((a : A) → Blind (f a))
      → Blind (m >>= f)
  Blind->>= m f first rest r =
      let same : (m (with_settings r)).0 ≡ (m r).0 = ap (λ x. x.0) (first r) in
      elim (Result-cases (m r).0) [
        | inl (a, e) ↦
            rw (>>=-state m f (with_settings r) (same ∙ e), >>=-state m f r e)
              (ap (λ x. f a x.1) (first r) ∙ rest a (m r).1)
        | inr (x, e) ↦
            rw (>>=-raised m f (with_settings r) (same ∙ e), >>=-raised m f r e)
              (ap (λ y. (raised x, y.1)) (first r))
      ]

  Blind-in_transaction :
      {A : Type 0} (body : Action (Run W) A) → Blind body → Blind (in_transaction body)
  unfolding in_transaction finish_transaction begin
  Blind-in_transaction body blind r =
      rw (blind (begin r), in_transaction)
        (elim (Result-cases (body (begin r)).0) [
          | inl (_, e) ↦ rw (e, finish_transaction) refl
          | inr (_, e) ↦ rw (e, finish_transaction) refl
        ])

  Blind-if :
      {A : Type 0} (c : Bool) (m k : Action (Run W) A)
      → Blind m
      → Blind k
      → Blind (if c then m else k)
  Blind-if true m k f g = f
  Blind-if false m k f g = g

  module _ (console : Console W) where
    Blind-disable_at_rebecca :
        (client : Option (RebeccaClient W)) (username : Text)
        → Blind (disable_at_rebecca client username)
    unfolding disable_at_rebecca
    Blind-disable_at_rebecca none username = λ r. refl
    Blind-disable_at_rebecca (some client) username =
        Blind->>= (remote (client.disable_admin username))
          (λ _. remote (client.disable_admin_users username)) (λ r. refl) (λ _ r. refl)

    Blind-disable_or_note :
        (caller : ℕ) (username : Text) (now : Instant)
        → Blind (disable_or_note console caller username now)
    unfolding disable_or_note would_disable
    Blind-disable_or_note caller username now =
        Blind-if (console.dry_run || not console.allow_disable_actions)
          (change (would_disable caller username now)) (disable_at_rebecca console.rebecca username)
          (λ r. refl) (Blind-disable_at_rebecca console.rebecca username)

    Blind-suspend_row :
        (caller : ℕ) (now : Instant) (found : Option Reseller)
        → Blind (suspend_row console caller now found)
    unfolding suspend_row update_reseller
    Blind-suspend_row caller now none = λ r. refl
    Blind-suspend_row caller now (some row) =
        let username = or_else row.rebecca_admin_username [] in
        let note = disable_or_note console caller username now >> pure OwnerAnswer.done in
        Blind-if (is_empty username) (pure OwnerAnswer.not_found)
          (change (update_reseller row.id suspend) >> note) (λ r. refl)
          (Blind->>= (change (update_reseller row.id suspend)) (λ _. note) (λ r. refl)
            (λ _.
              Blind->>= (disable_or_note console caller username now) (λ _. pure OwnerAnswer.done)
                (Blind-disable_or_note caller username now) (λ _ r. refl)))

    Blind-finish_enabling : (id : ℕ) (live : Option Admin) → Blind (finish_enabling console id live)
    unfolding finish_enabling update_reseller
    Blind-finish_enabling id live =
        Blind-if (not (is_live_active live)) (pure OwnerAnswer.enabling_unverified)
          (change (update_reseller id unsuspend) >> pure OwnerAnswer.done) (λ r. refl) (λ r. refl)

    Blind-enable_at_rebecca :
        (client : Option (RebeccaClient W)) (row : Reseller)
        → Blind (enable_at_rebecca console client row)
    unfolding enable_at_rebecca
    Blind-enable_at_rebecca none row = λ r. refl
    Blind-enable_at_rebecca (some client) row =
        let username = or_else row.rebecca_admin_username [] in
        let read_back = remote (client.get_admin username) >>= finish_enabling console row.id in
        Blind->>= (remote (client.enable_admin username)) (λ _. read_back) (λ r. refl)
          (λ _.
            Blind->>= (remote (client.get_admin username)) (finish_enabling console row.id)
              (λ r. refl) (Blind-finish_enabling row.id))

    Blind-enable_row : (found : Option Reseller) → Blind (enable_row console found)
    unfolding enable_row
    Blind-enable_row none = λ r. refl
    Blind-enable_row (some row) =
        let asked = enable_at_rebecca console console.rebecca row in
        let gated =
          if console.dry_run || not console.allow_disable_actions
          then pure OwnerAnswer.dry_run_only
          else asked in
        Blind-if (not (same_reseller_status row.status ResellerStatus.suspended))
          (pure OwnerAnswer.not_suspended) gated (λ r. refl)
          (Blind-if (console.dry_run || not console.allow_disable_actions)
            (pure OwnerAnswer.dry_run_only) asked (λ r. refl)
            (Blind-enable_at_rebecca console.rebecca row))

    Blind-owned :
        (caller : ℕ) (body : Action (Run W) OwnerAnswer)
        → Blind body
        → Blind (owned console caller no_owner body)
    unfolding owned
    Blind-owned caller body blind =
        Blind-if (not (owner_access caller console.owner_ids)) (pure no_owner) body (λ r. refl)
          blind

    -- The commands that suspend and enable a reseller and the button that deletes a user answer the same, do the
    -- same at Rebecca and write the same rows whatever settings are stored, the mode of operation among
    -- them: of the switches they see those of the environment only.
    pub suspension_ignores_mode :
        (caller id : ℕ) (now : Instant) (owner username : Text)
        → Blind (reseller_disable console caller id now)
          × Blind (reseller_enable console caller id)
          × Blind (user_delete_confirm console caller owner username)
    unfolding reseller_disable suspend_rows reseller_enable enable_rows user_delete_confirm
        get_reseller
    suspension_ignores_mode caller id now owner username = (
      Blind-owned caller (in_transaction (suspend_rows console caller id now)) (
          Blind-in_transaction (suspend_rows console caller id now)
            (λ r. Blind-suspend_row caller now (get_reseller id r.session.written) r)),
      Blind-owned caller (in_transaction (enable_rows console id)) (
          Blind-in_transaction (enable_rows console id)
            (λ r. Blind-enable_row (get_reseller id r.session.written) r)),
      Blind-owned caller
          (if not (may_delete console)
            then pure OwnerAnswer.switched_off
            else remote (remove_user console.rebecca owner username))
          (Blind-if (not (may_delete console)) (pure OwnerAnswer.switched_off)
            (remote (remove_user console.rebecca owner username)) (λ r. refl) (λ r. refl)),
    )
