-- ===== src/Reseller/Credentials/Username.antt =====
-- The usernames that the bot proposes.
use rebecca_reseller_bot.Prelude.{
  ℕ, zero, suc, ◌+◌, ◌≤◌, ◌<◌, ◌≡◌, refl, Bool, true, false, not, Option, [], ◌∷◌, ◌++◌, arith, All,
  length, take, length-append, length-take, Bool-cases, inl, inr, or_else, ◌==◌, ltb, if◌then◌else◌,
}
use mathlib.Core.List.{reverse, reverse-cons}
use rebecca_reseller_bot.Prelude.Text.{
  Text, lit, strip_where, lstrip_where, is_digit, lower, strip, is_empty,
}
use rebecca_reseller_bot.Prelude.Sorting.{show_ℕ, show_ℕ-digits, length-show_ℕ}
use rebecca_reseller_bot.Reseller.Credentials.{
  is_safe, replace_unsafe, collapse, candidate_base, pad_four, username_candidate,
}

abbrev pub IsSafe : Text → Type 0
IsSafe = All (λ c. is_safe c ≡ true)

IsSafe-append : (s t : Text) → IsSafe s → IsSafe t → IsSafe (s ++ t)
IsSafe-append [] t hs ht = ht
IsSafe-append (c ∷ s) t hs ht = (hs.0, IsSafe-append s t hs.1 ht)

replace_unsafe-IsSafe : (b : Bool) (s : Text) → IsSafe (replace_unsafe b s)
unfolding replace_unsafe is_safe
replace_unsafe-IsSafe b [] = tt
replace_unsafe-IsSafe b (c ∷ s) =
    let rest = replace_unsafe-IsSafe (not (is_safe c)) s in
    elim (Bool-cases (is_safe c)) [
      | inl e ↦ rw (e, replace_unsafe) (ground arith, rw e at rest)
      | inr e ↦ rw (e, replace_unsafe) (after_unsafe b (replace_unsafe true s) (rw e at rest))
    ]
  where
    after_unsafe : (b : Bool) (t : Text) → IsSafe t → IsSafe (if b then t else b'_' ∷ t)
    after_unsafe true t h = h
    after_unsafe false t h = (refl, h)

collapse-IsSafe : (b : Bool) (s : Text) → IsSafe s → IsSafe (collapse b s)
unfolding collapse
collapse-IsSafe b [] h = tt
collapse-IsSafe b (c ∷ s) h = ground (arith, collapse-IsSafe (c == b'_') s h.1)

lstrip_where-IsSafe : (p : ℕ → Bool) (s : Text) → IsSafe s → IsSafe (lstrip_where p s)
unfolding lstrip_where
lstrip_where-IsSafe p [] h = tt
lstrip_where-IsSafe p (c ∷ s) h = ground (arith, lstrip_where-IsSafe p s h.1)

take-IsSafe : (n : ℕ) (s : Text) → IsSafe s → IsSafe (take n s)
take-IsSafe zero s h = tt
take-IsSafe (suc n) [] h = tt
take-IsSafe (suc n) (c ∷ s) h = (h.0, take-IsSafe n s h.1)

reverse-IsSafe : (s : Text) → IsSafe s → IsSafe (reverse s)
reverse-IsSafe [] h = tt
reverse-IsSafe (c ∷ s) h =
    rw reverse-cons (IsSafe-append (reverse s) (c ∷ []) (reverse-IsSafe s h.1) (h.0, tt))

strip_where-IsSafe : (p : ℕ → Bool) (s : Text) → IsSafe s → IsSafe (strip_where p s)
unfolding strip_where
strip_where-IsSafe p s h = reverse-IsSafe (lstrip_where p (reverse (lstrip_where p s))) (
    lstrip_where-IsSafe p (reverse (lstrip_where p s))
      (reverse-IsSafe (lstrip_where p s) (lstrip_where-IsSafe p s h)))

digits-IsSafe : (s : Text) → All (λ c. is_digit c ≡ true) s → IsSafe s
unfolding is_safe
digits-IsSafe [] h = tt
digits-IsSafe (c ∷ s) h = (ground arith, digits-IsSafe s h.1)

pad_four-IsSafe : (n : ℕ) → IsSafe (pad_four n)
unfolding pad_four is_safe
pad_four-IsSafe n =
    let digits = digits-IsSafe (show_ℕ n) (show_ℕ-digits n) in
    elim (Bool-cases (ltb n 10)) [
      | inl a ↦ rw (a, pad_four) (refl, (refl, (refl, digits)))
      | inr a ↦ elim (Bool-cases (ltb n 100)) [
        | inl b ↦ rw (a, b, pad_four) (refl, (refl, digits))
        | inr b ↦ elim (Bool-cases (ltb n 1000)) [
          | inl c ↦ rw (a, b, c, pad_four) (refl, digits)
          | inr c ↦ rw (a, b, c, pad_four) digits
        ]
      ]
    ]

length-pad_four : (n : ℕ) → n < 10000 → length (pad_four n) ≤ 4
unfolding pad_four
length-pad_four n h =
    ground (arith, length-show_ℕ 0 n, length-show_ℕ 1 n, length-show_ℕ 2 n, length-show_ℕ 3 n)

candidate_base-IsSafe : (name : Option Text) → IsSafe (candidate_base name)
unfolding candidate_base lit is_safe
candidate_base-IsSafe name =
    let raw = lower (lstrip_where (λ c. c == b'@') (strip (or_else name []))) in
    let s = strip_where (λ c. c == b'_') (collapse false (replace_unsafe false raw)) in
    let safe = take-IsSafe 48 s (
      strip_where-IsSafe (λ c. c == b'_') _
        (collapse-IsSafe false _ (replace_unsafe-IsSafe false raw))) in
    or_default (take 48 s) safe
  where
    or_default : (t : Text) → IsSafe t → IsSafe (if is_empty t then lit "reseller" else t)
    or_default [] h = (refl, (refl, (refl, (refl, (refl, (refl, (refl, (refl, tt))))))))
    or_default (c ∷ t) h = h

length-candidate_base : (name : Option Text) → length (candidate_base name) ≤ 48
unfolding candidate_base lit
length-candidate_base name = bound (take 48 _) (length-take 48 _)
  where
    bound : (t : Text) → length t ≤ 48 → length (if is_empty t then lit "reseller" else t) ≤ 48
    bound [] h = omega arith
    bound (c ∷ t) h = h

-- A candidate consists of lower-case letters, digits and underscores, whatever the Telegram name.
pub username_candidate-IsSafe :
    (name : Option Text) (suffix : Option ℕ) (drawn : ℕ)
    → IsSafe (username_candidate name suffix drawn)
unfolding username_candidate
username_candidate-IsSafe name suffix drawn =
    IsSafe-append (candidate_base name) (b'_' ∷ pad_four (or_else suffix (drawn + 1000)))
      (candidate_base-IsSafe name)
      (unfold is_safe in (refl, pad_four-IsSafe (or_else suffix (drawn + 1000))))

-- A candidate with a suffix below 10000, as a drawn one has, is at most 53 characters long; the
-- columns for such names hold 64.
pub length-username_candidate :
    (name : Option Text) (suffix : Option ℕ) (drawn : ℕ)
    → or_else suffix (drawn + 1000) < 10000
    → length (username_candidate name suffix drawn) ≤ 53
unfolding username_candidate
length-username_candidate name suffix drawn h = omega (
  arith,
  length-append (candidate_base name) (b'_' ∷ pad_four (or_else suffix (drawn + 1000))),
  length-candidate_base name,
  length-pad_four (or_else suffix (drawn + 1000)) h,
)
