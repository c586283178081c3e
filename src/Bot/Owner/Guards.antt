-- ===== src/Bot/Owner/Guards.antt =====
-- Who may use the commands and buttons of the owners, and what they do at Rebecca.
use rebecca_reseller_bot.Prelude.{
  ℕ, ◌≡◌, refl, ap, ◌∙◌, true, ◌⊎◌, inl, inr, none, some, Bool-cases,
}
use rebecca_reseller_bot.Prelude.Text.{Text}
use rebecca_reseller_bot.Prelude.Effects.{ok, Result-cases, ◌>>=◌}
use rebecca_reseller_bot.Rebecca.Models.{User}
use rebecca_reseller_bot.Rebecca.Interface.{RebeccaClient}
use rebecca_reseller_bot.Scheduler.State.{Run}
use rebecca_reseller_bot.Bot.Transactions.{owner_access}
use rebecca_reseller_bot.Bot.Owner.{
  Console, is_owned_by, may_delete, owned, user_delete_confirm, remove_user, remove_live,
}

module _ {W : Type 0} (console : Console W) where
  -- What has to be known before the deletion of a user is sent.
  pub record MayRemove (client : RebeccaClient W) (caller : ℕ) (owner username : Text) (w : W)
      : Type 0 where
    pub is_owner : owner_access caller console.owner_ids ≡ true
    pub is_switched_on : may_delete console ≡ true
    pub live : User
    pub is_read : (client.get_user username w).0 ≡ ok (some live)
    pub is_owned : is_owned_by owner (some live) ≡ true

  remove_user_cases :
      (client : RebeccaClient W) (owner username : Text) (w : W)
      → ((remove_user (some client) owner username w).1 ≡ (client.get_user username w).1)
        ⊎ ((live : User) × ((client.get_user username w).0 ≡ ok (some live))
            × (is_owned_by owner (some live) ≡ true))
  unfolding remove_user remove_live is_owned_by
  remove_user_cases client owner username w = elim (Result-cases (client.get_user username w).0) [
    | inr (_, e) ↦ inl (rw (e, ◌>>=◌) refl)
    | inl (none, e) ↦ inl (rw (e, ◌>>=◌) refl)
    | inl (some live, e) ↦ elim (Bool-cases (is_owned_by owner (some live))) [
      | inl o ↦ inr (live, e, o)
      | inr o ↦ inl (rw (e, ◌>>=◌) (rw o refl))
    ]
  ]

  -- The button that deletes a user makes no call of Rebecca but a read of the user, unless an owner pressed
  -- it, all the switches for deletions are on, and the user was just read with the owner of the button.
  pub deletion_guarded :
      (client : RebeccaClient W) (caller : ℕ) (owner username : Text) (r : Run W)
      → console.rebecca ≡ some client
      → let after = (user_delete_confirm console caller owner username r).1.world in
        (after ≡ r.world)
        ⊎ (after ≡ (client.get_user username r.world).1)
        ⊎ MayRemove client caller owner username r.world
  unfolding user_delete_confirm owned
  deletion_guarded client caller owner username r h =
      elim (Bool-cases (owner_access caller console.owner_ids)) [
        | inr e ↦ inl (rw (e, user_delete_confirm, owned) refl)
        | inl e ↦ elim (Bool-cases (may_delete console)) [
          | inr f ↦ inl (rw (e, f, user_delete_confirm, owned) refl)
          | inl f ↦ elim (remove_user_cases client owner username r.world) [
            | inl g ↦ inr (
                inl (
                  rw (e, f, user_delete_confirm, owned)
                    (ap (λ x. (remove_user x owner username r.world).1) h ∙ g)))
            | inr (live, g, o) ↦ inr (
                inr (record {
                  is_owner = e;
                  is_switched_on = f;
                  live = live;
                  is_read = g;
                  is_owned = o;
                }))
          ]
        ]
      ]
