-- ===== src/Payments/Plisio/Amount.antt =====
-- Python's `Decimal`, of the texts that `str` gives for JSON numbers and of plain decimal texts: a
-- sign, digits with a point, and an exponent. NaN and the infinities equal no finite number.
use rebecca_reseller_bot.Prelude.{
  ℕ, ◌+◌, ◌-◌, ◌*◌, ◌^◌, Bool, true, false, ◌||◌, Option, none, some, [], ◌∷◌, ◌==◌, if◌then◌else◌,
}
use rebecca_reseller_bot.Prelude.Int.{ℤ, pos, sub_ℕ, ◌*ℤ◌, eqb_ℤ, pos_part, neg_part}
use rebecca_reseller_bot.Prelude.Text.{Text, lit, one_of, lower, strip, is_digit}

-- The number `mantissa * 10 ^ up / 10 ^ down`, or a value that is not finite.
pub data Decimal : Type 0 where
  finite : ℤ → ℕ → ℕ → Decimal
  special : Decimal

-- The digits at the front of a text: their value after `acc`, their count after `n`, and the rest.
unfoldable pub digits_front : ℕ → ℕ → Text → ℕ × ℕ × Text
digits_front acc n [] = (acc, n, [])
digits_front acc n (c ∷ s) =
    let more = digits_front (acc * 10 + (c - 48)) (n + 1) s in
    if is_digit c then more else (acc, n, c ∷ s)

-- A sign at the front: is it a minus, and the rest.
unfoldable pub sign_front : Text → Bool × Text
sign_front [] = (false, [])
sign_front (c ∷ s) =
    if c == b'-' then (true, s) else if c == b'+' then (false, s) else (false, c ∷ s)

abbrev pub negated : Bool → ℕ → ℤ
negated true n = sub_ℕ 0 n
negated false n = pos n

-- The exponent: nothing, or an `e`, a sign and digits.
unfoldable pub exponent : Text → Option ℤ
exponent [] = some (pos 0)
exponent (c ∷ s) =
    let (minus, t) = sign_front s in
    let (value, count, rest) = digits_front 0 0 t in
    if c == b'e' || c == b'E'
    then (elim rest [ [] ↦ if count == 0 then none else some (negated minus value) | _ ∷ _ ↦ none ])
    else none

-- The part behind the digits before the point: the digits after it, if there is one.
unfoldable pub fraction : ℕ → ℕ → Text → ℕ × ℕ × Text
fraction acc n [] = (acc, n, [])
fraction acc n (c ∷ s) = if c == b'.' then digits_front acc n s else (acc, n, c ∷ s)

unfoldable pub parse_decimal : Text → Option Decimal
parse_decimal text =
    let (minus, t) = sign_front (strip text) in
    let (whole, m, r) = digits_front 0 0 t in
    let (value, places, rest) = fraction whole 0 r in
    if one_of (lower t) (lit "nan" ∷ lit "inf" ∷ lit "infinity" ∷ [])
    then some special
    else if m + places == 0
    then none
    else elim (exponent rest) [
      | none ↦ none
      | some e ↦ some (finite (negated minus value) (pos_part e) (places + neg_part e))
    ]

-- `a == b`, by cross-multiplication.
unfoldable pub decimal_eq : Decimal → Decimal → Bool
decimal_eq special b = false
decimal_eq (finite m u d) special = false
decimal_eq (finite m u d) (finite n v e) = eqb_ℤ (m *ℤ 10 ^ (u + e)) (n *ℤ 10 ^ (v + d))

-- A column of hundredths as a `Decimal`.
abbrev pub hundredths : ℕ → Decimal
hundredths n = finite (pos n) 0 2
