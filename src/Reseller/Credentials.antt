-- ===== src/Reseller/Credentials.antt =====
-- `generate_password` and `username_candidate` of app/reseller/service.py. The draws of the module
-- `secrets` come in as arguments.
pub mod Password
pub mod Username
use rebecca_reseller_bot.Prelude.{
  ℕ, zero, suc, ◌+◌, ◌-◌, Bool, true, false, ◌&&◌, ◌||◌, not, Option, none, some, List, [], ◌∷◌,
  ◌++◌, or_else, take, any, select, ltb, ◌==◌, if◌then◌else◌,
}
use rebecca_reseller_bot.Prelude.Text.{
  Text, lit, lower, strip, strip_where, lstrip_where, one_of, contains, is_digit, is_lower,
  is_empty,
}
use rebecca_reseller_bot.Prelude.Sorting.{show_ℕ}

-- `password not in blocked and not any(value in password for value in blocked)`
unfoldable pub is_clear : List Text → Text → Bool
is_clear blocked password =
    not (one_of password blocked) && not (any (λ value. contains password value) blocked)

-- The non-empty values of `forbidden`.
unfoldable pub blocked_values : List Text → List Text
blocked_values forbidden = select (λ value. not (is_empty value)) forbidden

-- The loop over the draws of `secrets.token_urlsafe(24)`, from draw `i`; `none` when the fuel ends.
unfoldable pub draw_password : ℕ → (ℕ → Text) → List Text → ℕ → Option Text
draw_password zero token blocked i = none
draw_password (suc fuel) token blocked i =
    let rest = draw_password fuel token blocked (i + 1) in
    if is_clear blocked (token i) then some (token i) else rest

unfoldable pub generate_password : ℕ → (ℕ → Text) → List Text → Option Text
generate_password fuel token forbidden = draw_password fuel token (blocked_values forbidden) 0

-- The characters `[a-z0-9_]`.
unfoldable pub is_safe : ℕ → Bool
unfolding is_lower is_digit
is_safe c = is_lower c || is_digit c || c == b'_'

-- `re.sub(r"[^a-z0-9_]+", "_", raw)`; the flag says that the run has been replaced already.
unfoldable pub replace_unsafe : Bool → Text → Text
replace_unsafe in_run [] = []
replace_unsafe in_run (c ∷ s) =
    let rest = replace_unsafe (not (is_safe c)) s in
    if is_safe c then c ∷ rest else if in_run then rest else b'_' ∷ rest

-- `re.sub(r"_+", "_", base)`
unfoldable pub collapse : Bool → Text → Text
collapse in_run [] = []
collapse in_run (c ∷ s) =
    let rest = collapse (c == b'_') s in if in_run && (c == b'_') then rest else c ∷ rest

unfoldable pub candidate_base : Option Text → Text
candidate_base telegram_username =
    let raw = lower (lstrip_where (λ c. c == b'@') (strip (or_else telegram_username []))) in
    let base = take 48 (strip_where (λ c. c == b'_') (collapse false (replace_unsafe false raw))) in
    if is_empty base then lit "reseller" else base

-- `f"{number:04d}"`
unfoldable pub pad_four : ℕ → Text
pad_four n =
    if ltb n 10
    then b'0' ∷ b'0' ∷ b'0' ∷ show_ℕ n
    else if ltb n 100
    then b'0' ∷ b'0' ∷ show_ℕ n
    else if ltb n 1000
    then b'0' ∷ show_ℕ n
    else show_ℕ n

-- `drawn` is what `secrets.randbelow(9000)` returns, where it is called.
unfoldable pub username_candidate : Option Text → Option ℕ → ℕ → Text
username_candidate telegram_username suffix drawn =
    candidate_base telegram_username ++ (b'_' ∷ pad_four (or_else suffix (drawn + 1000)))
