-- ===== src/Bot/Cards.antt =====
-- Card numbers in app/bot/settings.py. Digits are those of ASCII.
use rebecca_reseller_bot.Prelude.{
  ◌≡◌, refl, Bool, true, ◌&&◌, not, Option, none, some, [], ◌∷◌, ◌++◌, length, take, select, all,
  ltb, ◌==◌, Bool-cases, inl, inr, arith, if◌then◌else◌,
}
use rebecca_reseller_bot.Prelude.Text.{Text, lit, is_digit, is_empty}
use rebecca_reseller_bot.Prelude.Effects.{Result, ok, raised, ErrorKind}
use mathlib.Core.List.{reverse}

-- `value.replace(" ", "").replace("-", "")`
unfoldable pub without_separators : Text → Text
without_separators = select (λ c. not (c == b' ') && not (c == b'-'))

-- `normalized.isdigit() and len(normalized) == 16`; a text of 16 characters is not empty.
unfoldable pub is_card : Text → Bool
is_card t = all is_digit t && length t == 16

unfoldable pub normalize_card_number : Text → Result Text
normalize_card_number value =
    if is_card (without_separators value)
    then ok (without_separators value)
    else raised (record { kind = ErrorKind.value_error; message = lit "card number" })

unfoldable pub mask_digits : Text → Text
mask_digits digits =
    if ltb (length digits) 8
    then lit "****"
    else take 4 digits ++ lit "-****-****-" ++ reverse (take 4 (reverse digits))

-- `not_set` is the text for a missing number.
unfoldable pub mask_card_number : Text → Option Text → Text
mask_card_number not_set none = not_set
mask_card_number not_set (some value) =
    if is_empty value then not_set else mask_digits (without_separators value)

digits_stay : (t : Text) → all is_digit t ≡ true → without_separators t ≡ t
unfolding without_separators is_digit
digits_stay [] h = refl
digits_stay (c ∷ t) h = ground (arith, digits_stay t)

-- A card number that is accepted has 16 characters, all of them digits, and is accepted again as it is.
pub normalize_card_number-ok :
    (value card : Text)
    → normalize_card_number value ≡ ok card
    → (length card ≡ 16) × (all is_digit card ≡ true) × (normalize_card_number card ≡ ok card)
unfolding normalize_card_number is_card
normalize_card_number-ok value card h = elim (Bool-cases (is_card (without_separators value))) [
  | inr e ↦ absurd (ground arith)
  | inl e ↦
      let same : without_separators value ≡ card = ground arith in
      let fits : is_card card ≡ true = rw same at e in
      let digits : all is_digit card ≡ true = ground arith in
      (ground arith, digits, rw (digits_stay card digits, fits, normalize_card_number) refl)
]
