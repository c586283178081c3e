-- ===== src/Reseller/Provision/Safety.antt =====
-- What `provision` has established when it returns, and what it never does.
use rebecca_reseller_bot.Prelude.{
  ℕ, ◌≡◌, ◌≢◌, refl, ◌∙◌, inl, inr, true, Option, none, some, [], ◌∷◌, arith,
}
use rebecca_reseller_bot.Prelude.Int.{eqb_ℤ, eqb_ℤ_iff}
use rebecca_reseller_bot.Prelude.Text.{Text, lit, lower, teq_iff, one_of}
use rebecca_reseller_bot.Prelude.Sorting.{opt_eq_iff}
use rebecca_reseller_bot.Prelude.Effects.{Exception, ok, Result-cases, >>=-eq-ok, >>=-state, ◌>>=◌}
use rebecca_reseller_bot.Rebecca.Models.{Admin}
use rebecca_reseller_bot.Rebecca.Interface.{RebeccaClient, AdminPayload}
use rebecca_reseller_bot.Reseller.Provision.{
  Provision, same_second, same_services, is_unsafe_role, refuse, verify_entitlement,
  provision_payload, try_disable, create_or_recover, on_failure, check_live, read_back, provision,
}

-- The administrator has the name, the role and the entitlement that were asked for.
pub record Entitled (p : Provision) (a : Admin) : Type 0 where
  pub has_name : a.username ≡ p.username
  pub has_role : a.role ≡ lit "reseller"
  pub is_active : one_of (lower a.status) (lit "active" ∷ lit "enabled" ∷ []) ≡ true
  pub has_expire : same_second a.expire (some p.expire) ≡ true
  pub has_limit : a.data_limit ≡ some p.data_limit
  pub has_services : same_services a.services p.services ≡ true
  pub has_users_limit : a.users_limit ≡ p.users_limit

-- An administrator that passes the verification is the one that was read, and is entitled.
pub verify_entitlement-Entitled :
    (p : Provision) (found : Option Admin) (a : Admin)
    → verify_entitlement p found ≡ ok a
    → (found ≡ some a) × Entitled p a
unfolding verify_entitlement refuse
verify_entitlement-Entitled p none a h = absurd (cc h)
verify_entitlement-Entitled p (some live) a h = ground (
  arith,
  teq_iff live.username p.username,
  teq_iff live.role (lit "reseller"),
  opt_eq_iff eqb_ℤ eqb_ℤ_iff live.data_limit (some p.data_limit),
  opt_eq_iff eqb_ℤ eqb_ℤ_iff live.users_limit p.users_limit,
)

module _ {W : Type 0} (client : RebeccaClient W) (p : Provision) where
  on_failure-raises :
      (found : Option Admin) (e : Exception) (w : W) (a : Admin)
      → (on_failure client p found e w).0 ≢ ok a
  unfolding on_failure try_disable
  on_failure-raises none e w a h = cc h
  on_failure-raises (some live) e w a h = ground arith

  check_live-ok :
      (found : Option Admin) (w : W) (a : Admin)
      → (check_live client p found w).0 ≡ ok a
      → verify_entitlement p found ≡ ok a
  unfolding check_live
  check_live-ok found w a h = elim (Result-cases (verify_entitlement p found)) [
    | inl (b, e) ↦ let same : ok b ≡ ok a = rw (e, check_live) at h in e ∙ same
    | inr (x, e) ↦ absurd (on_failure-raises found x w a (rw (e, check_live) at h))
  ]

  read_back-Entitled :
      (w : W) (a : Admin)
      → (read_back client p w).0 ≡ ok a
      → Entitled p a × ((client.get_admin p.username w).0 ≡ ok (some a))
  unfolding read_back
  read_back-Entitled w a h =
      let (found, e, h₁) = >>=-eq-ok (client.get_admin p.username) (check_live client p) w h in
      let (same, entitled) =
        verify_entitlement-Entitled p found a
          (check_live-ok found (client.get_admin p.username w).1 a h₁) in
      (entitled, rw (← same) e)

  -- What `provision` has done when it returns an administrator: a first read, the creation or the recovery
  -- of what that read found, which succeeded, and a second read after it, which returned the administrator.
  pub record ReadBack (w : W) (a : Admin) : Type 0 where
    pub found : Option Admin
    pub first_read : (client.get_admin p.username w).0 ≡ ok found
    pub is_written : (create_or_recover client p found (client.get_admin p.username w).1).0 ≡ ok tt
    pub second_read :
        (client.get_admin p.username
          (create_or_recover client p found (client.get_admin p.username w).1).1).0
        ≡ ok (some a)

  -- If `provision` returns an administrator, then it is the one of the second read, made after the creation or
  -- the recovery succeeded, and it has the name, the role and the entitlement that were asked for.
  pub provision-Entitled :
      (w : W) (a : Admin) → (provision client p w).0 ≡ ok a → Entitled p a × ReadBack w a
  unfolding provision
  provision-Entitled w a h =
      let rest =
        λ (live : Option Admin). create_or_recover client p live >>= λ _. read_back client p in
      let (live, first, h₁) = >>=-eq-ok (client.get_admin p.username) rest w h in
      let w₁ = (client.get_admin p.username w).1 in
      let (_, written, h₂) =
        >>=-eq-ok (create_or_recover client p live) (λ _. read_back client p) w₁ h₁ in
      let w₂ = (create_or_recover client p live w₁).1 in
      let (entitled, is_read) = read_back-Entitled w₂ a h₂ in
      (
        entitled,
        record { found = live; first_read = first; is_written = written; second_read = is_read },
      )

  recover_unsafe :
      (live : Admin) (w : W) (r : Unit {0})
      → is_unsafe_role live.role ≡ true
      → (create_or_recover client p (some live) w).0 ≢ ok r
  unfolding create_or_recover try_disable
  recover_unsafe live w r unsafe h = ground arith

  unsafe_raises :
      (w : W) (live a : Admin)
      → (client.get_admin p.username w).0 ≡ ok (some live)
      → is_unsafe_role live.role ≡ true
      → (provision client p w).0 ≢ ok a
  unfolding provision
  unsafe_raises w live a r unsafe h =
      let rest =
        λ (live : Option Admin). create_or_recover client p live >>= λ _. read_back client p in
      let w₁ = (client.get_admin p.username w).1 in
      let h₁ : (rest (some live) w₁).0 ≡ ok a =
        rw (>>=-state (client.get_admin p.username) rest w r) at h in
      let (t, e, _) =
        >>=-eq-ok (create_or_recover client p (some live)) (λ _. read_back client p) w₁ h₁ in
      recover_unsafe live w₁ t unsafe e

  -- What the service keeps of its accounts but for their being enabled: passwords, roles, permissions and
  -- entitlements, say. A read and a disabling leave it; a creation and an update may change it.
  module _ {A : Type 0} (kept : W → A)
      (get_keeps : (u : Text) (w : W) → kept (client.get_admin u w).1 ≡ kept w)
      (disable_keeps : (u : Text) (w : W) → kept (client.disable_admin u w).1 ≡ kept w) where
    kept-recover_unsafe :
        (live : Admin) (w : W)
        → is_unsafe_role live.role ≡ true
        → kept (create_or_recover client p (some live) w).1 ≡ kept w
    unfolding create_or_recover try_disable
    kept-recover_unsafe live w unsafe = ground (arith, disable_keeps p.username w)

    -- If the first read of the name returns an administrator with an unsafe role, `provision` never returns an
    -- administrator, and, however its calls end, changes nothing of the accounts that a read and a disabling
    -- leave: it overwrites no password, role or entitlement.
    pub provision_unsafe :
        (w : W) (live : Admin)
        → (client.get_admin p.username w).0 ≡ ok (some live)
        → is_unsafe_role live.role ≡ true
        → ((a : Admin) → (provision client p w).0 ≢ ok a) × (kept (provision client p w).1 ≡ kept w)
    unfolding provision
    provision_unsafe w live r unsafe =
        let rest =
          λ (live : Option Admin). create_or_recover client p live >>= λ _. read_back client p in
        let w₁ = (client.get_admin p.username w).1 in
        let first = create_or_recover client p (some live) in
        let same = kept-recover_unsafe live w₁ unsafe ∙ get_keeps p.username w in
        (
          (λ a. unsafe_raises w live a r unsafe),
          rw (>>=-state (client.get_admin p.username) rest w r) (elim (Result-cases (first w₁).0) [
            | inl (t, e) ↦ absurd (recover_unsafe live w₁ t unsafe e)
            | inr (_, e) ↦ rw (e, ◌>>=◌) same
          ]),
        )

  -- Count the administrators that were created: an operation other than a creation keeps the count.
  module _ (created : W → ℕ)
      (get_keeps : (u : Text) (w : W) → created (client.get_admin u w).1 ≡ created w)
      (update_keeps : (u : Text) (q : AdminPayload) (w : W)
        → created (client.update_admin u q w).1 ≡ created w)
      (disable_keeps : (u : Text) (w : W) → created (client.disable_admin u w).1 ≡ created w) where
    created-recover :
        (live : Admin) (w : W) → created (create_or_recover client p (some live) w).1 ≡ created w
    unfolding create_or_recover try_disable
    created-recover live w =
        ground
          (arith, disable_keeps p.username w, update_keeps p.username (provision_payload p none) w)

    created-on_failure :
        (found : Option Admin) (e : Exception) (w : W)
        → created (on_failure client p found e w).1 ≡ created w
    unfolding on_failure try_disable
    created-on_failure none e w = refl
    created-on_failure (some live) e w = ground (arith, disable_keeps p.username w)

    created-check_live :
        (found : Option Admin) (w : W) → created (check_live client p found w).1 ≡ created w
    unfolding check_live
    created-check_live found w = elim (Result-cases (verify_entitlement p found)) [
      | inl (a, e) ↦ rw (e, check_live) refl
      | inr (x, e) ↦ rw (e, check_live) (created-on_failure found x w)
    ]

    created-read_back : (w : W) → created (read_back client p w).1 ≡ created w
    unfolding read_back
    created-read_back w =
        let w₁ = (client.get_admin p.username w).1 in
        elim (Result-cases (client.get_admin p.username w).0) [
          | inl (found, e) ↦
              rw (>>=-state (client.get_admin p.username) (check_live client p) w e)
                (created-check_live found w₁ ∙ get_keeps p.username w)
          | inr (_, e) ↦ rw (e, ◌>>=◌) (get_keeps p.username w)
        ]

    -- If the first read finds an administrator of that name, `provision` creates none, however it ends.
    pub provision_creates_none :
        (w : W) (live : Admin)
        → (client.get_admin p.username w).0 ≡ ok (some live)
        → created (provision client p w).1 ≡ created w
    unfolding provision
    provision_creates_none w live r =
        let rest =
          λ (found : Option Admin). create_or_recover client p found >>= λ _. read_back client p in
        let w₁ = (client.get_admin p.username w).1 in
        let first = create_or_recover client p (some live) in
        let kept = created-recover live w₁ ∙ get_keeps p.username w in
        rw (>>=-state (client.get_admin p.username) rest w r) (elim (Result-cases (first w₁).0) [
          | inl (t, e) ↦
              rw (>>=-state first (λ _. read_back client p) w₁ e)
                (created-read_back (first w₁).1 ∙ kept)
          | inr (_, e) ↦ rw (e, ◌>>=◌) kept
        ])
