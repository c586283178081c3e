-- ===== src/Prelude/Sorting.antt =====
-- Python's `sorted`, `str` of an integer, and equality of optional values and of lists of texts.
use rebecca_reseller_bot.Prelude.Tests.{ltb, Bool-cases, if◌then◌else◌}
use rebecca_reseller_bot.Prelude.Int.{ℤ, pos, negsuc}
use rebecca_reseller_bot.Prelude.Text.{Text, teq, teq_iff, is_digit}
use Prim.Native.Nat.{ℕ, zero, suc, ◌+◌, ◌*◌, ◌/◌, ◌%◌, ◌<◌, ◌≤◌}
use mathlib.Core.Path.{◌≡◌}
use mathlib.Core.Logic.{◌↔◌, inl, inr}
use rebecca_reseller_bot.Prelude.Lists.{length, All}
use mathlib.Core.Bool.{Bool, true, false, ◌&&◌}
use mathlib.Core.Option.{Option, none, some}
use mathlib.Core.List.{List, [], ◌∷◌}
use native.Mathlib.Omega.{arith}

module _ {ℓ} {A : Type ℓ} (le : A → A → Bool) where
  unfoldable pub insert : A → List A → List A
  insert x [] = x ∷ []
  insert x (y ∷ ys) = if le x y then x ∷ y ∷ ys else y ∷ insert x ys

  unfoldable pub sorted : List A → List A
  unfolding insert
  sorted [] = []
  sorted (x ∷ xs) = insert x (sorted xs)

-- The decimal digits of a number, in front of a text; the fuel bounds their count.
digits_before : ℕ → ℕ → Text → Text
digits_before zero n acc = acc
digits_before (suc fuel) n acc =
    let rest = digits_before fuel (n / 10) ((48 + n % 10) ∷ acc) in
    if ltb n 10 then (48 + n) ∷ acc else rest

-- Ten to the power of `k + 1`.
abbrev pub tens : ℕ → ℕ
tens zero = 10
tens (suc k) = 10 * tens k

length-digits_before :
    (k fuel n : ℕ) (acc : Text)
    → n < tens k
    → length (digits_before fuel n acc) ≤ suc k + length acc
unfolding digits_before
length-digits_before k zero n acc h = omega arith
length-digits_before zero (suc fuel) n acc h = ground arith
length-digits_before (suc k) (suc fuel) n acc h =
    ground (arith, length-digits_before k fuel (n / 10) ((48 + n % 10) ∷ acc))

digits_before-All :
    (fuel n : ℕ) (acc : Text)
    → All (λ c. is_digit c ≡ true) acc
    → All (λ c. is_digit c ≡ true) (digits_before fuel n acc)
unfolding digits_before is_digit
digits_before-All zero n acc h = h
digits_before-All (suc fuel) n acc h =
    let low : is_digit (48 + n % 10) ≡ true = ground arith in
    elim (Bool-cases (ltb n 10)) [
      | inl e ↦ rw e (ground arith, h)
      | inr e ↦ rw e (digits_before-All fuel (n / 10) ((48 + n % 10) ∷ acc) (low, h))
    ]

unfoldable pub show_ℕ : ℕ → Text
unfolding digits_before
show_ℕ n = digits_before (suc n) n []

pub length-show_ℕ : (k n : ℕ) → n < tens k → length (show_ℕ n) ≤ suc k
unfolding show_ℕ
length-show_ℕ k n h = omega (arith, length-digits_before k (suc n) n [] h)

pub show_ℕ-digits : (n : ℕ) → All (λ c. is_digit c ≡ true) (show_ℕ n)
unfolding show_ℕ
show_ℕ-digits n = digits_before-All (suc n) n [] tt

unfoldable pub show_ℤ : ℤ → Text
unfolding show_ℕ
show_ℤ (pos n) = show_ℕ n
show_ℤ (negsuc n) = b'-' ∷ show_ℕ (suc n)

module _ {ℓ} {A : Type ℓ} where
  unfoldable pub opt_eq : (A → A → Bool) → Option A → Option A → Bool
  opt_eq eq none none = true
  opt_eq eq none (some b) = false
  opt_eq eq (some a) none = false
  opt_eq eq (some a) (some b) = eq a b

  pub opt_eq_iff :
      (eq : A → A → Bool)
      → ((a b : A) → (eq a b ≡ true) ↔ (a ≡ b))
      → (a b : Option A) → (opt_eq eq a b ≡ true) ↔ (a ≡ b)
  unfolding opt_eq
  opt_eq_iff eq h none none = ground arith
  opt_eq_iff eq h none (some b) = ground arith
  opt_eq_iff eq h (some a) none = ground arith
  opt_eq_iff eq h (some a) (some b) = ground (arith, h a b)

unfoldable pub texts_eq : List Text → List Text → Bool
texts_eq [] [] = true
texts_eq [] (t ∷ ts) = false
texts_eq (s ∷ ss) [] = false
texts_eq (s ∷ ss) (t ∷ ts) = teq s t && texts_eq ss ts

pub texts_eq_iff : (ss ts : List Text) → (texts_eq ss ts ≡ true) ↔ (ss ≡ ts)
unfolding texts_eq
texts_eq_iff [] [] = ground arith
texts_eq_iff [] (t ∷ ts) = ground arith
texts_eq_iff (s ∷ ss) [] = ground arith
texts_eq_iff (s ∷ ss) (t ∷ ts) = ground (arith, teq_iff s t, texts_eq_iff ss ts)
