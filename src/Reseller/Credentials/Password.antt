-- ===== src/Reseller/Credentials/Password.antt =====
-- Passwords hold no forbidden value, and are found as soon as a draw is clear.
use rebecca_reseller_bot.Prelude.{
  ℕ, zero, suc, ◌+◌, ◌<◌, ◌≡◌, refl, sym, ap, ◌∙◌, true, false, some, List, [], ◌∷◌, arith, ◌⊎◌,
  inl, inr, any, All, Bool-cases,
}
use rebecca_reseller_bot.Prelude.Text.{Text, contains, starts_with, teq, teq_iff, one_of}
use rebecca_reseller_bot.Reseller.Credentials.{
  is_clear, blocked_values, draw_password, generate_password,
}

draw_password-is_clear :
    (fuel : ℕ) (token : ℕ → Text) (blocked : List Text) (i : ℕ) (p : Text)
    → draw_password fuel token blocked i ≡ some p
    → is_clear blocked p ≡ true
unfolding draw_password
draw_password-is_clear zero token blocked i p h = absurd (cc h)
draw_password-is_clear (suc fuel) token blocked i p h =
    ground (arith, draw_password-is_clear fuel token blocked (i + 1) p)

any-false :
    (p : Text) (values : List Text)
    → any (λ value. contains p value) values ≡ false
    → All (λ value. contains p value ≡ false) values
any-false p [] h = tt
any-false p (v ∷ vs) h = (ground arith, any-false p vs (ground arith))

All-select_nonempty :
    (p : Text) (values : List Text)
    → All (λ value. contains p value ≡ false) (blocked_values values)
    → All (λ value. (value ≡ []) ⊎ (contains p value ≡ false)) values
unfolding blocked_values
All-select_nonempty p [] h = tt
All-select_nonempty p ([] ∷ vs) h = (inl refl, All-select_nonempty p vs h)
All-select_nonempty p ((c ∷ v) ∷ vs) h = (inr h.0, All-select_nonempty p vs h.1)

-- No forbidden value that is not empty stands anywhere in a generated password.
pub generate_password-forbidden :
    (fuel : ℕ) (token : ℕ → Text) (forbidden : List Text) (p : Text)
    → generate_password fuel token forbidden ≡ some p
    → All (λ value. (value ≡ []) ⊎ (contains p value ≡ false)) forbidden
unfolding generate_password is_clear
generate_password-forbidden fuel token forbidden p h =
    let clear = draw_password-is_clear fuel token (blocked_values forbidden) 0 p h in
    All-select_nonempty p forbidden (any-false p (blocked_values forbidden) (ground arith))

draw_password_total :
    (fuel : ℕ) (token : ℕ → Text) (blocked : List Text) (i k : ℕ)
    → k < fuel
    → is_clear blocked (token (i + k)) ≡ true
    → (p : Text) × (draw_password fuel token blocked i ≡ some p)
unfolding draw_password
draw_password_total zero token blocked i k h clear = elim h [ ]
draw_password_total (suc fuel) token blocked i zero h clear =
    let at_i : i + 0 ≡ i = omega arith in
    let found : is_clear blocked (token i) ≡ true = rw at_i at clear in (token i, rw found refl)
draw_password_total (suc fuel) token blocked i (suc k) h clear =
    let shifted : i + suc k ≡ i + 1 + k = omega arith in
    let (p, r) =
      draw_password_total fuel token blocked (i + 1) k (omega arith) (rw shifted at clear) in
    elim (Bool-cases (is_clear blocked (token i))) [
      | inl e ↦ (token i, rw e refl)
      | inr e ↦ (p, rw e r)
    ]

starts_with_refl : (s : Text) → starts_with s s ≡ true
unfolding starts_with
starts_with_refl [] = refl
starts_with_refl (c ∷ s) = ground (arith, starts_with_refl s)

contains_refl : (s : Text) → contains s s ≡ true
unfolding contains
contains_refl [] = starts_with_refl []
contains_refl (c ∷ s) = rw (starts_with_refl (c ∷ s)) refl

not_equal : (p v : Text) → contains p v ≡ false → teq p v ≡ false
not_equal p v h = elim (Bool-cases (teq p v)) [
  | inl e ↦
      let same : p ≡ v = (teq_iff p v).0 e in
      let bad : true ≡ false = sym (contains_refl p) ∙ ap (contains p) same ∙ h in absurd (cc bad)
  | inr e ↦ e
]

-- A text that holds no forbidden value but the empty one passes the tests of the loop.
clear_of :
    (p : Text) (values : List Text)
    → All (λ value. (value ≡ []) ⊎ (contains p value ≡ false)) values
    → (one_of p (blocked_values values) ≡ false)
      × (any (λ value. contains p value) (blocked_values values) ≡ false)
unfolding blocked_values one_of
clear_of p [] h = (refl, refl)
clear_of p ([] ∷ vs) h = clear_of p vs h.1
clear_of p ((c ∷ v) ∷ vs) (inl e, h) = absurd (cc e)
clear_of p ((c ∷ v) ∷ vs) (inr e, h) =
    let (other, clear) = clear_of p vs h in (rw (not_equal p (c ∷ v) e) other, rw e clear)

clear-is_clear :
    (blocked : List Text) (p : Text)
    → one_of p blocked ≡ false
    → any (λ value. contains p value) blocked ≡ false
    → is_clear blocked p ≡ true
unfolding is_clear
clear-is_clear blocked p other none_in = rw (other, none_in) refl

-- If one of the draws, at a place below the fuel, holds no forbidden value that is not empty, the loop ends with a
-- password within the fuel, even where an empty value is among the forbidden ones.
pub generate_password_total :
    (fuel : ℕ) (token : ℕ → Text) (forbidden : List Text) (k : ℕ)
    → k < fuel
    → All (λ value. (value ≡ []) ⊎ (contains (token k) value ≡ false)) forbidden
    → (p : Text) × (generate_password fuel token forbidden ≡ some p)
unfolding generate_password
generate_password_total fuel token forbidden k h free =
    let blocked = blocked_values forbidden in
    let (other, none_in) = clear_of (token k) forbidden free in
    let clear = clear-is_clear blocked (token k) other none_in in
    draw_password_total fuel token blocked 0 k h
      (let start : 0 + k ≡ k = omega arith in rw start clear)
