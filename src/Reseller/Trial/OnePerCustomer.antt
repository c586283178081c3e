-- ===== src/Reseller/Trial/OnePerCustomer.antt =====
-- A customer, and a username, has at most one trial.
use rebecca_reseller_bot.Prelude.{
  ℕ, ◌≡◌, refl, sym, ◌∙◌, Bool, true, false, ◌||◌, Option, none, List, [], ◌∷◌, ◌++◌, any, ◌==◌,
  arith, Bool-cases, inl, inr,
}
use rebecca_reseller_bot.Prelude.Text.{Text, teq, teq_iff}
use rebecca_reseller_bot.Prelude.Time.{Instant}
use rebecca_reseller_bot.Prelude.Sorting.{opt_eq, opt_eq_iff}
use rebecca_reseller_bot.Database.Models.{TrialRecord}
use rebecca_reseller_bot.Database.Session.{Session, rollback}
use rebecca_reseller_bot.Reseller.Trial.{conflicts, new_trial, reserve_trial}

-- Does the record hold the customer or the username of the other?
abbrev pub clash : TrialRecord → TrialRecord → Bool
clash r q = q.telegram_id == r.telegram_id || opt_eq teq q.admin_username r.admin_username

-- No two records hold the same customer, or the same username.
abbrev pub IsUnique : List TrialRecord → Type 0
IsUnique [] = Unit
IsUnique (r ∷ rs) = (any (clash r) rs ≡ false) × IsUnique rs

any-conflicts :
    (id telegram_id : ℕ) (username : Text) (hours : ℕ) (now : Instant) (rs : List TrialRecord)
    → any (conflicts telegram_id username) rs
      ≡ any (clash (new_trial id telegram_id username hours now)) rs
unfolding conflicts new_trial
any-conflicts id telegram_id username hours now [] = refl
any-conflicts id telegram_id username hours now (r ∷ rs) =
    ground (arith, any-conflicts id telegram_id username hours now rs)

opt_eq-sym : (a b : Option Text) → opt_eq teq a b ≡ opt_eq teq b a
opt_eq-sym a b =
    let f = opt_eq_iff teq teq_iff in
    elim (Bool-cases (opt_eq teq a b)) [
      | inl e ↦ e ∙ sym ((f b a).1 (sym ((f a b).0 e)))
      | inr e ↦ elim (Bool-cases (opt_eq teq b a)) [
        | inl d ↦ (f a b).1 (sym ((f b a).0 d)) ∙ sym d
        | inr d ↦ e ∙ sym d
      ]
    ]

clash-sym : (r q : TrialRecord) → clash r q ≡ clash q r
clash-sym r q = ground (arith, opt_eq-sym r.admin_username q.admin_username)

any-append_one :
    (p : TrialRecord → Bool) (rs : List TrialRecord) (r : TrialRecord)
    → any p (rs ++ (r ∷ [])) ≡ (any p rs || p r)
any-append_one p [] r = ground arith
any-append_one p (q ∷ rs) r = ground (arith, any-append_one p rs r)

IsUnique-append :
    (rs : List TrialRecord) (r : TrialRecord)
    → IsUnique rs
    → any (clash r) rs ≡ false
    → IsUnique (rs ++ (r ∷ []))
IsUnique-append [] r h fresh = (refl, tt)
IsUnique-append (q ∷ rs) r h fresh = (
  ground (arith, any-append_one (clash q) rs r, clash-sym q r),
  IsUnique-append rs r h.1 (ground arith),
)

-- From tables in which no two trials share a customer or a username, a reservation leads to such a
-- table, whether it succeeds or is rolled back.
pub reserve_trial-IsUnique :
    (id telegram_id : ℕ) (username : Text) (hours : ℕ) (now : Instant) (s : Session)
    → IsUnique s.written.trial_records
    → IsUnique s.committed.trial_records
    → IsUnique (reserve_trial id telegram_id username hours now s).1.written.trial_records
unfolding reserve_trial
reserve_trial-IsUnique id telegram_id username hours now s written committed =
    let rs = s.written.trial_records in
    let row = new_trial id telegram_id username hours now in
    let same = any-conflicts id telegram_id username hours now rs in
    elim (Bool-cases (any (conflicts telegram_id username) rs)) [
      | inl e ↦ rw (e, reserve_trial) committed
      | inr e ↦ rw (e, reserve_trial) (IsUnique-append rs row written (sym same ∙ e))
    ]

customer-conflicts :
    (telegram_id : ℕ) (username : Text) (rs : List TrialRecord)
    → any (λ (r : TrialRecord). r.telegram_id == telegram_id) rs ≡ true
    → any (conflicts telegram_id username) rs ≡ true
unfolding conflicts
customer-conflicts telegram_id username [] e = absurd (cc e)
customer-conflicts telegram_id username (r ∷ rs) e =
    ground (arith, customer-conflicts telegram_id username rs)

-- A customer who has a trial gets no other, whatever the username.
pub second_trial_fails :
    (id telegram_id : ℕ) (username : Text) (hours : ℕ) (now : Instant) (s : Session)
    → any (λ (r : TrialRecord). r.telegram_id == telegram_id) s.written.trial_records ≡ true
    → reserve_trial id telegram_id username hours now s ≡ (none, rollback s)
unfolding reserve_trial
second_trial_fails id telegram_id username hours now s h =
    rw (customer-conflicts telegram_id username s.written.trial_records h) refl
