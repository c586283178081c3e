-- ===== src/Tests/Registry.antt =====
-- A Rebecca service in memory with any number of administrators, found by their names, and a database that
-- counts its commits.
use rebecca_reseller_bot.Prelude.{
  ℕ, suc, ◌/◌, ◌*◌, ◌%◌, ◌≡◌, refl, ap, ◌∙◌, sym, Bool, true, Option, none, some, List, [], ◌∷◌,
  first, first_holds, update_where, arith, ◌⊎◌, inl, inr, if◌then◌else◌, Bool-cases,
}
use rebecca_reseller_bot.Prelude.Int.{ℤ, pos, eqb_ℤ}
use rebecca_reseller_bot.Prelude.Text.{Text, lit, teq, teq_iff}
use rebecca_reseller_bot.Prelude.Time.{second}
use rebecca_reseller_bot.Prelude.Effects.{Action, Result, ok, raised, ErrorKind}
use rebecca_reseller_bot.Rebecca.Models.{Admin}
use rebecca_reseller_bot.Rebecca.Interface.{RebeccaClient, Entitlement}
use rebecca_reseller_bot.Database.Models.{Order, Reseller, Target}
use rebecca_reseller_bot.Payments.Service.Snapshots.{entitlement}
use rebecca_reseller_bot.Payments.Service.Apply.{save}
use rebecca_reseller_bot.Payments.Service.Once.{KeepsLimit}
use rebecca_reseller_bot.Payments.Service.Renewed.{Obeys, renewed}

pub record Registry : Type 0 where
  pub admins : List Admin
  pub commits : ℕ

abbrev pub named : Text → Admin → Bool
named u a = teq a.username u

-- An expiry is kept as whole seconds.
unfoldable pub entitled : Entitlement → Admin → Admin
entitled e a = record a {
  data_limit = some e.data_limit;
  data_limit_unlimited = eqb_ℤ e.data_limit (pos 0);
  expire = some (e.expire / second * second);
  services = e.services;
  users_limit = e.users_limit;
}

unfoldable pub with_status : Text → Admin → Admin
with_status status a = record a { status = status }

abbrev change_named : Text → (Admin → Admin) → Registry → Registry
change_named u f w = record w { admins = update_where (named u) f w.admins }

abbrev refused : {A : Type 0} → Text → Result A
refused m = raised (record { kind = ErrorKind.not_found; message = m })

unfoldable pub update : Text → Entitlement → Option Admin → Action Registry Admin
update u e none w = (refused u, w)
update u e (some a) w = (ok (entitled e a), change_named u (entitled e) w)

unfoldable pub registry : RebeccaClient Registry
registry = record {
  get_admin = λ u w. (ok (first (named u) w.admins), w);
  create_reseller_admin = λ p w. (refused [], w);
  update_admin = λ u p w. update u p.entitlement (first (named u) w.admins) w;
  disable_admin = λ u w. (ok tt, change_named u (with_status (lit "disabled")) w);
  enable_admin = λ u w. (ok tt, change_named u (with_status (lit "active")) w);
  disable_admin_users = λ u w. (ok tt, w);
  detects_admin_users_disable = λ w. (ok true, w);
  list_admin_users = λ u w. (ok [], w);
  get_user = λ u w. (ok none, w);
  update_user = λ u s w. (refused u, w);
  delete_user = λ u w. (refused u, w);
}

-- `session.commit`
unfoldable pub committing : Option (Order → Reseller → Action Registry (Unit {0}))
committing = some (λ _ _ w. (ok tt, record w { commits = suc w.commits }))

abbrev changed : Text → (Admin → Admin) → Option Admin → Option Admin
changed u f none = none
changed u f (some a) = some (if named u a then f a else a)

module _ (f : Admin → Admin) (keeps : (a : Admin) → (f a).username ≡ a.username) where
  first-update_where :
      (u v : Text) (xs : List Admin)
      → first (named u) (update_where (named v) f xs) ≡ changed v f (first (named u) xs)
  first-update_where u v [] = refl
  first-update_where u v (a ∷ xs) = ground (arith, keeps a, first-update_where u v xs)

  first-updated :
      (u : Text) (xs : List Admin) (a : Admin)
      → first (named u) xs ≡ some a
      → first (named u) (update_where (named u) f xs) ≡ some (f a)
  first-updated u xs a h =
      first-update_where u u xs ∙ ap (changed u f) h ∙ rw (first_holds (named u) xs a h) refl

abbrev pub limit_in : Option Admin → Option ℤ
limit_in none = none
limit_in (some a) = a.data_limit

abbrev pub limit_of : Text → Registry → Option ℤ
limit_of who w = limit_in (first (named who) w.admins)

changed-limit :
    (u : Text) (f : Admin → Admin) (same : (a : Admin) → (f a).data_limit ≡ a.data_limit)
    (o : Option Admin)
    → limit_in (changed u f o) ≡ limit_in o
changed-limit u f same none = refl
changed-limit u f same (some a) = ground (arith, same a)

change-limit :
    (who u : Text) (f : Admin → Admin) (keeps : (a : Admin) → (f a).username ≡ a.username)
    (same : (a : Admin) → (f a).data_limit ≡ a.data_limit) (w : Registry)
    → limit_of who (change_named u f w) ≡ limit_of who w
change-limit who u f keeps same w =
    ap limit_in (first-update_where f keeps who u w.admins)
    ∙ changed-limit u f same (first (named who) w.admins)

changed-entitled :
    (who u : Text) (e : Entitlement) (o : Option Admin)
    → ((a : Admin) → o ≡ some a → a.username ≡ who)
    → (limit_in (changed u (entitled e) o) ≡ limit_in o)
      ⊎ ((u ≡ who) × (limit_in (changed u (entitled e) o) ≡ some e.data_limit))
unfolding entitled
changed-entitled who u e none mine = inl refl
changed-entitled who u e (some a) mine = elim (Bool-cases (named u a)) [
  | inl b ↦ inr (sym ((teq_iff a.username u).0 b) ∙ mine a refl, rw b refl)
  | inr b ↦ inl (rw b refl)
]

entitled-limit :
    (who u : Text) (e : Entitlement) (w : Registry)
    → (limit_of who (change_named u (entitled e) w) ≡ limit_of who w)
      ⊎ ((u ≡ who) × (limit_of who (change_named u (entitled e) w) ≡ some e.data_limit))
unfolding entitled
entitled-limit who u e w =
    let found = first (named who) w.admins in
    let moved = ap limit_in (first-update_where (entitled e) (λ a. refl) who u w.admins) in
    let mine = λ (a : Admin) (n : found ≡ some a).
      (teq_iff a.username who).0 (first_holds (named who) w.admins a n) in
    elim (changed-entitled who u e found mine) [
      | inl same ↦ inl (moved ∙ same)
      | inr (its, set) ↦ inr (its, moved ∙ set)
    ]

update-limit :
    (who u : Text) (e : Entitlement) (found : Option Admin) (w : Registry)
    → (limit_of who (update u e found w).1 ≡ limit_of who w)
      ⊎ ((u ≡ who) × (limit_of who (update u e found w).1 ≡ some e.data_limit))
unfolding update
update-limit who u e none w = inl refl
update-limit who u e (some a) w = entitled-limit who u e w

-- Every administrator of the service has a limit of its own.
pub registry_keeps : (who : Text) → KeepsLimit registry committing who (limit_of who)
unfolding registry committing save with_status
registry_keeps who = record {
  get_reads =
      λ w a h. let found : first (named who) w.admins ≡ some a = cc h in ap limit_in (sym found);
  get_keeps = λ u w. refl;
  update_sets = λ u p w. update-limit who u p.entitlement (first (named u) w.admins) w;
  enable_keeps = λ u w. change-limit who u (with_status (lit "active")) (λ a. refl) (λ a. refl) w;
  persist_keeps = λ s w. refl;
}

renewed-entitled :
    (e : Entitlement) (a : Admin) → e.expire % second ≡ 0 → entitled e a ≡ renewed e a
unfolding entitled renewed
renewed-entitled e a h =
    let same : e.expire / second * second ≡ e.expire = omega arith in rw same refl

update-renews :
    (u : Text) (live : Admin) (t : Target) (w : Registry)
    → first (named u) w.admins ≡ some live
    → (entitlement t).expire % second ≡ 0
    → let found = first (named live.username) w.admins in
      let w2 = (update live.username (entitlement t) found w).1 in
      (a : Admin) × ((update live.username (entitlement t) found w).0 ≡ ok a)
      × (ok (first (named live.username) w2.admins) ≡ ok (some (renewed (entitlement t) live)))
unfolding update entitled
update-renews u live t w h seconds =
    let e = entitlement t in
    let same : live.username ≡ u =
      (teq_iff live.username u).0 (first_holds (named u) w.admins live h) in
    let mine : first (named live.username) w.admins ≡ some live =
      ap (λ n. first (named n) w.admins) same ∙ h in
    rw mine (
      entitled e live,
      refl,
      rw (← renewed-entitled e live seconds)
          (ap ok (first-updated (entitled e) (λ a. refl) live.username w.admins live mine)),
    )

pub registry-Obeys : Obeys registry committing
unfolding registry committing save
registry-Obeys = record {
  persists = λ s w. refl;
  updates = λ u w live t s h positive seconds.
      update-renews u live t (record w { commits = suc w.commits }) (cc h) seconds;
}
