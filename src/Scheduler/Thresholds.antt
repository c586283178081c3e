-- ===== src/Scheduler/Thresholds.antt =====
-- Which threshold a warning is about.
use rebecca_reseller_bot.Prelude.{
  ℕ, ◌-◌, ◌≡◌, Bool, true, ◌&&◌, Option, none, some, List, [], ◌∷◌, first, first_holds, subst, All,
  ltb, inl, inr, Bool-cases, arith,
}
use rebecca_reseller_bot.Prelude.Int.{ℤ, pos, negsuc, ◌≤ℤ◌, ◌<ℤ◌, ◌*ℤ◌, leb_ℤ}
use rebecca_reseller_bot.Prelude.Time.{Instant, day}
use rebecca_reseller_bot.Prelude.Effects.{ok}
use rebecca_reseller_bot.Database.Models.{Setting}
use rebecca_reseller_bot.Database.Settings.{Settings, time_thresholds}
use rebecca_reseller_bot.Database.Settings.Ranges.{IsDescending, time_thresholds-ok}
use rebecca_reseller_bot.Scheduler.Resellers.{time_due}

-- A smaller threshold times a day is at most a greater one's.
smaller_day :
    (n : ℕ) (t u : ℤ)
    → u <ℤ t
    → pos 0 <ℤ u
    → leb_ℤ (pos n) (u *ℤ day) ≡ true
    → leb_ℤ (pos n) (t *ℤ day) ≡ true
unfolding ◌*ℤ◌
smaller_day n (pos a) (pos b) h p e = ground arith
smaller_day n (negsuc a) (pos b) h p e = absurd (omega arith)
smaller_day n (negsuc a) (negsuc b) h p e = absurd (omega arith)
smaller_day n (pos a) (negsuc b) h p e = absurd (omega arith)

first-All :
    {A : Type 0} (P : A → Type 0) (p : A → Bool) (xs : List A) (a : A)
    → All P xs
    → first p xs ≡ some a
    → P a
first-All P p [] a h e = absurd (cc e)
first-All P p (x ∷ xs) a h e = elim (Bool-cases (p x)) [
  | inl t ↦ (let same : x ≡ a = ground arith in subst P same (h.0))
  | inr f ↦ first-All P p xs a (h.1) (ground arith)
]

at_most : (t : ℤ) (values : List ℤ) → All (λ v. v <ℤ t) values → All (λ v. v ≤ℤ t) values
at_most t [] h = tt
at_most t (v ∷ values) h = (omega arith, at_most t values h.1)

within : Instant → Instant → ℤ → Bool
within now expire threshold = ltb now expire && leb_ℤ (pos (expire - now)) (threshold *ℤ day)

first-greatest :
    (now expire : Instant) (values : List ℤ) (t : ℤ)
    → IsDescending values
    → All (λ v. pos 0 <ℤ v) values
    → first (within now expire) values ≡ some t
    → All (λ v. v ≤ℤ t) values
unfolding within
first-greatest now expire [] t d p e = tt
first-greatest now expire (v ∷ values) t d p e = elim (Bool-cases (within now expire v)) [
  | inl holds ↦
      let same : v ≡ t = ground arith in
      subst (λ x. All (λ w. w ≤ℤ x) (v ∷ values)) same (omega arith, at_most v values (d.0))
  | inr fails ↦
      let found : first (within now expire) values ≡ some t = ground arith in
      let below = first-All (λ u. u <ℤ v) (within now expire) values t (d.0) found in
      let above = first-All (λ u. pos 0 <ℤ u) (within now expire) values t (p.1) found in
      let late = first_holds (within now expire) values t found in
      absurd (ground (arith, smaller_day (expire - now) v t below above))
]

-- A reseller is only ever warned about the greatest time threshold: whichever threshold the loop picks, all
-- those that the settings give are at most that one.
pub time_due-greatest :
    (defaults : Settings) (settings : List Setting) (values : List ℤ) (now : Instant)
    (expire : Option Instant) (t : ℤ)
    → time_thresholds defaults settings ≡ ok values
    → time_due now expire values ≡ some t
    → All (λ v. v ≤ℤ t) values
unfolding time_due within
time_due-greatest defaults settings values now none t r e = absurd (cc e)
time_due-greatest defaults settings values now (some expire) t r e =
    let (d, p, _) = time_thresholds-ok defaults settings values r in
    first-greatest now expire values t d p e
