-- ===== src/Prelude/Text.antt =====
-- Python's `str` as a list of code points. Case and character classes follow ASCII.
use Prim.Native.Char.{code}
use Prim.Native.String.{String}
use Prim.Native.Nat.{ℕ, ◌+◌, ◌-◌}
use mathlib.Core.Path.{◌≡◌, refl}
use mathlib.Core.Logic.{◌↔◌}
use mathlib.Core.Bool.{Bool, true, false, ◌&&◌, ◌||◌}
use mathlib.Core.List.{List, [], ◌∷◌, map, reverse}
use native.Mathlib.Omega.{arith}
use rebecca_reseller_bot.Prelude.Tests.{ltb, leb, ◌==◌, if◌then◌else◌}

abbrev pub Text : Type 0
Text = List ℕ

-- A literal of the source.
unfoldable pub lit : String → Text
lit String.[] = []
lit (String.◌∷◌ c s) = code c ∷ lit s

unfoldable pub teq : Text → Text → Bool
teq [] [] = true
teq [] (d ∷ t) = false
teq (c ∷ s) [] = false
teq (c ∷ s) (d ∷ t) = c == d && teq s t

pub teq_iff : (s t : Text) → (teq s t ≡ true) ↔ (s ≡ t)
unfolding teq
teq_iff [] [] = ground arith
teq_iff [] (d ∷ t) = ground arith
teq_iff (c ∷ s) [] = ground arith
teq_iff (c ∷ s) (d ∷ t) = ground (arith, teq_iff s t)

pub teq_refl : (s : Text) → teq s s ≡ true
teq_refl s = (teq_iff s s).1 refl

-- `value in {...}`
unfoldable pub one_of : Text → List Text → Bool
one_of s [] = false
one_of s (t ∷ ts) = teq s t || one_of s ts

abbrev pub is_empty : Text → Bool
is_empty [] = true
is_empty (_ ∷ _) = false

unfoldable pub is_digit : ℕ → Bool
is_digit c = leb b'0' c && leb c b'9'

unfoldable pub is_upper : ℕ → Bool
is_upper c = leb b'A' c && leb c b'Z'

unfoldable pub is_lower : ℕ → Bool
is_lower c = leb b'a' c && leb c b'z'

-- The whitespace that `str.strip` removes: 9 to 13, 28 to 31 and the blank.
unfoldable pub is_space : ℕ → Bool
is_space c = c == 32 || (leb 9 c && leb c 13) || (leb 28 c && leb c 31)

unfoldable pub lower_char : ℕ → ℕ
unfolding is_upper
lower_char c = if is_upper c then c + 32 else c

unfoldable pub upper_char : ℕ → ℕ
unfolding is_lower
upper_char c = if is_lower c then c - 32 else c

unfoldable pub lower : Text → Text
unfolding lower_char
lower = map lower_char

unfoldable pub upper : Text → Text
unfolding upper_char
upper = map upper_char

-- `str.lstrip` of the characters that pass the test.
unfoldable pub lstrip_where : (ℕ → Bool) → Text → Text
lstrip_where p [] = []
lstrip_where p (c ∷ s) = if p c then lstrip_where p s else c ∷ s

unfoldable pub strip_where : (ℕ → Bool) → Text → Text
unfolding lstrip_where
strip_where p s = reverse (lstrip_where p (reverse (lstrip_where p s)))

unfoldable pub strip : Text → Text
unfolding strip_where is_space
strip = strip_where is_space

-- `t in s` on texts, by prefixes.
unfoldable pub starts_with : Text → Text → Bool
starts_with s [] = true
starts_with [] (d ∷ t) = false
starts_with (c ∷ s) (d ∷ t) = c == d && starts_with s t

unfoldable pub contains : Text → Text → Bool
unfolding starts_with
contains [] t = starts_with [] t
contains (c ∷ s) t = starts_with (c ∷ s) t || contains s t

-- The order of texts by code points.
unfoldable pub tle : Text → Text → Bool
tle [] t = true
tle (c ∷ s) [] = false
tle (c ∷ s) (d ∷ t) = ltb c d || (c == d && tle s t)
