-- ===== src/Database/Settings/Parse.antt =====
-- Python's `int(...)` on JSON values, and `str.split(",")`.
use rebecca_reseller_bot.Prelude.{
  ℕ, ◌+◌, ◌-◌, ◌*◌, Bool, true, false, ◌&&◌, Option, none, some, List, [], ◌∷◌, ◌==◌, if◌then◌else◌,
}
use rebecca_reseller_bot.Prelude.Int.{ℤ, pos, sub_ℕ}
use rebecca_reseller_bot.Prelude.Text.{Text, lit, strip, is_digit}
use rebecca_reseller_bot.Prelude.Json.{Json, null, bool, int, float, str, arr, obj}
use rebecca_reseller_bot.Prelude.Effects.{Result, ok, raised, ErrorKind}

-- The digits of an integer, with single underscores between them; the flag says that the character
-- before was a digit.
unfoldable pub digits_value : Bool → ℕ → Text → Option ℕ
digits_value after_digit acc [] = if after_digit then some acc else none
digits_value after_digit acc (c ∷ s) =
    let digit = digits_value true (acc * 10 + (c - 48)) s in
    let underscore = digits_value false acc s in
    if is_digit c then digit else if after_digit && (c == b'_') then underscore else none

unfoldable pub signed : Text → Option ℤ
signed [] = none
signed (c ∷ s) =
    let plain = digits_value false 0 (c ∷ s) in
    let rest = digits_value false 0 s in
    if c == b'-'
    then elim rest [ none ↦ none | some n ↦ some (sub_ℕ 0 n) ]
    else if c == b'+'
    then elim rest [ none ↦ none | some n ↦ some (pos n) ]
    else elim plain [ none ↦ none | some n ↦ some (pos n) ]

unfoldable pub int_of : Json → Result ℤ
int_of null = raised (record { kind = ErrorKind.type_error; message = lit "int() argument" })
int_of (bool true) = ok (pos 1)
int_of (bool false) = ok (pos 0)
int_of (int n) = ok n
int_of (float n _) = ok n
int_of (str t) = elim (signed (strip t)) [
  | none ↦
      raised (record { kind = ErrorKind.value_error; message = lit "invalid literal for int()" })
  | some n ↦ ok n
]
int_of (arr _) = raised (record { kind = ErrorKind.type_error; message = lit "int() argument" })
int_of (obj _) = raised (record { kind = ErrorKind.type_error; message = lit "int() argument" })

-- `value.split(",")`: the part before the next comma is put in front of the first of the rest.
unfoldable pub split_commas : Text → List Text
split_commas [] = [] ∷ []
split_commas (c ∷ s) =
    let rest = split_commas s in
    if c == b',' then [] ∷ rest else elim rest [ [] ↦ (c ∷ []) ∷ [] | t ∷ ts ↦ (c ∷ t) ∷ ts ]
