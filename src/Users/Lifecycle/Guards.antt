-- ===== src/Users/Lifecycle/Guards.antt =====
-- Under which conditions `safe_delete` deletes.
use rebecca_reseller_bot.Prelude.{
  ◌≤◌, ◌≡◌, ◌≢◌, refl, ap, ◌↔◌, ◌⊎◌, inl, inr, true, false, Option, none, some, [], ◌∷◌, arith,
  Option-cases,
}
use rebecca_reseller_bot.Prelude.Text.{Text, teq_iff}
use rebecca_reseller_bot.Prelude.Effects.{ok, Result-cases, >>=-eq-ok, ◌>>=◌}
use rebecca_reseller_bot.Rebecca.Models.{User}
use rebecca_reseller_bot.Rebecca.Interface.{RebeccaClient}
use rebecca_reseller_bot.Reseller.Quota.{exhausted}
use rebecca_reseller_bot.Users.Lifecycle.{
  Deletion, DeleteOutcome, deleted, owned_by, verified_owner, blocked, refused, confirm,
  delete_confirmed, delete_live, safe_delete,
}

owned_by_iff :
    (name : Option Text) (owner : Text)
    → (owned_by name owner ≡ true) ↔ ((name ≡ some owner) × (owner ≢ []))
unfolding owned_by
owned_by_iff none owner = ((λ h. absurd (cc h)), (λ h. absurd (cc (h.0))))
owned_by_iff (some []) owner = ((λ h. absurd (cc h)), (λ h. absurd (h.1 (cc (h.0)))))
owned_by_iff (some (c ∷ cs)) owner =
    let same = teq_iff (c ∷ cs) owner in
    ((λ h. (ap some (same.0 h), λ e. cc (same.0 h, e))), (λ h. same.1 (cc (h.0))))

-- A user is owned by an administrator exactly if Rebecca reports that name for it, and the name is not
-- empty.
pub verified_owner_iff :
    (u : User) (owner : Text)
    → (verified_owner u owner ≡ true) ↔ ((u.admin_username ≡ some owner) × (owner ≢ []))
unfolding verified_owner
verified_owner_iff u owner = owned_by_iff u.admin_username owner

-- All that has to hold before a user is deleted.
pub record Deletable (d : Deletion) (live : User) : Type 0 where
  pub not_held : d.hold ≡ false
  pub is_due : d.delete_after ≤ d.now
  pub not_dry : d.policy.dry_run ≡ false
  pub destructive : d.policy.destructive_actions ≡ true
  pub allowed : d.policy.allow_delete_actions ≡ true
  pub not_locked : d.is_locked ≡ false
  pub is_owned : verified_owner live d.owner ≡ true
  pub is_exhausted : exhausted live.expire live.data_limit live.used_traffic d.now ≡ true

refused-none :
    (d : Deletion) (found : Option User)
    → blocked d ≡ none
    → refused d found ≡ none
    → (live : User) × (found ≡ some live) × Deletable d live
unfolding blocked refused
refused-none d none b h = absurd (cc h)
refused-none d (some live) b h = (live, refl, ground arith)

module _ {W : Type 0} (client : RebeccaClient W) (d : Deletion) where
  -- Whatever the client answers, a call leaves the world as it was, or has made one read of the user, or
  -- that read returned a user that may be deleted: due, not held, not locked, with every switch on,
  -- owned by the given administrator and exhausted.
  pub safe_delete_guarded :
      (w : W)
      → ((safe_delete client d w).1 ≡ w)
        ⊎ ((safe_delete client d w).1 ≡ (client.get_user d.username w).1)
        ⊎ ((live : User) × ((client.get_user d.username w).0 ≡ ok (some live)) × Deletable d live)
  unfolding safe_delete delete_live
  safe_delete_guarded w = elim (Option-cases (blocked d)) [
    | inr (o, b) ↦ inl (rw (b, safe_delete) refl)
    | inl b ↦ elim (Result-cases (client.get_user d.username w).0) [
      | inr (_, e) ↦ inr (inl (rw (b, safe_delete) (rw (e, ◌>>=◌) refl)))
      | inl (found, e) ↦ elim (Option-cases (refused d found)) [
        | inr (o, r) ↦ inr (inl (rw (b, safe_delete) (rw (e, ◌>>=◌) (rw (r, delete_live) refl))))
        | inl r ↦ let (live, f, may) = refused-none d found b r in inr (inr (live, rw (← f) e, may))
      ]
    ]
  ]

  confirm-deleted :
      (found : Option User) (w : W) → (confirm client found w).0 ≡ ok deleted → found ≡ none
  unfolding confirm
  confirm-deleted none w h = refl
  confirm-deleted (some u) w h = absurd (cc h)

  not_blocked : (o : DeleteOutcome) → blocked d ≡ some o → o ≢ deleted
  unfolding blocked
  not_blocked o b e = ground arith

  not_refused : (found : Option User) (o : DeleteOutcome) → refused d found ≡ some o → o ≢ deleted
  unfolding refused
  not_refused none o r e = ground arith
  not_refused (some live) o r e = ground arith

  delete_live-deleted :
      (found : Option User) (w : W)
      → blocked d ≡ none
      → (delete_live client d found w).0 ≡ ok deleted
      → (live : User) × (found ≡ some live)
        × Deletable d live
        × ((client.delete_user d.username w).0 ≡ ok tt)
        × ((client.get_user d.username (client.delete_user d.username w).1).0 ≡ ok none)
  unfolding delete_live delete_confirmed
  delete_live-deleted found w b h = elim (Option-cases (refused d found)) [
    | inr (o, r) ↦
        let same : ok o ≡ ok deleted = rw (r, delete_live) at h in
        absurd (not_refused found o r (cc same))
    | inl r ↦
        let (live, f, may) = refused-none d found b r in
        let again = λ (_ : Unit {0}). client.get_user d.username >>= confirm client in
        let (_, done, h₁) =
          >>=-eq-ok (client.delete_user d.username) again w (rw (r, delete_live) at h) in
        let w₁ = (client.delete_user d.username w).1 in
        let (last, g, h₂) = >>=-eq-ok (client.get_user d.username) (confirm client) w₁ h₁ in
        (live, f, may, done, rw (confirm-deleted last (client.get_user d.username w₁).1 h₂) at g)
  ]

  -- If a call returns that the user is deleted, then the user that it first read may be deleted, the request
  -- to delete that user, sent right after this read, succeeded, and a read right after the request found
  -- no user.
  pub safe_delete-deleted :
      (w : W)
      → (safe_delete client d w).0 ≡ ok deleted
      → let w1 = (client.get_user d.username w).1 in
        (live : User) × ((client.get_user d.username w).0 ≡ ok (some live))
        × Deletable d live
        × ((client.delete_user d.username w1).0 ≡ ok tt)
        × ((client.get_user d.username (client.delete_user d.username w1).1).0 ≡ ok none)
  unfolding safe_delete
  safe_delete-deleted w h = elim (Option-cases (blocked d)) [
    | inr (o, b) ↦
        let same : ok o ≡ ok deleted = rw (b, safe_delete) at h in
        absurd (not_blocked o b (cc same))
    | inl b ↦
        let (found, e, h₁) =
          >>=-eq-ok (client.get_user d.username) (delete_live client d) w
            (rw (b, safe_delete) at h) in
        let (live, f, may, done, gone) =
          delete_live-deleted found (client.get_user d.username w).1 b h₁ in
        (live, rw (← f) e, may, done, gone)
  ]
