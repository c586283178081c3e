-- ===== src/Database/Settings/Ranges.antt =====
-- The values that the settings can have.
use rebecca_reseller_bot.Prelude.{
  ◌≡◌, refl, ◌≢◌, false, List, [], ◌∷◌, All, arith, any, some, Bool-cases, inl, inr, ap, subst,
  ◌||◌,
}
use rebecca_reseller_bot.Prelude.Int.{ℤ, pos, ◌≤ℤ◌, ◌<ℤ◌, leb_ℤ, ltb_ℤ, eqb_ℤ}
use rebecca_reseller_bot.Prelude.Text.{Text, lit, teq, teq_refl}
use rebecca_reseller_bot.Prelude.Json.{str}
use rebecca_reseller_bot.Prelude.Effects.{Result, ok, raised, Result-cases}
use rebecca_reseller_bot.Database.Models.{Setting}
use rebecca_reseller_bot.Database.Settings.{
  Settings, bad_value, stored, operations_mode, put_setting, set_operations_mode, int_value,
  checked, grace_hours, insert_descending, descending, positive, thresholds, capped,
  threshold_values, traffic_thresholds, time_thresholds,
}

-- A grace period that is read lies between 1 and 720 hours, whatever is stored.
pub grace_hours_range :
    (defaults : Settings) (settings : List Setting) (hours : ℤ)
    → grace_hours defaults settings ≡ ok hours
    → (pos 1 ≤ℤ hours) × (hours ≤ℤ pos 720)
unfolding grace_hours checked bad_value
grace_hours_range defaults settings hours h =
    elim (Result-cases
      (int_value (lit "user_delete_grace_hours") defaults.user_delete_grace_hours settings)) [
        | inl (v, e) ↦ ground arith
        | inr (x, e) ↦ ground arith
      ]

lt_of_tests : (x y : ℤ) → eqb_ℤ x y ≡ false → ltb_ℤ y x ≡ false → x <ℤ y
lt_of_tests x y e f = ground arith

-- Strictly descending.
abbrev pub IsDescending : List ℤ → Type 0
IsDescending [] = Unit
IsDescending (x ∷ xs) = All (λ y. y <ℤ x) xs × IsDescending xs

All-lt_trans : (x y : ℤ) (zs : List ℤ) → y <ℤ x → All (λ z. z <ℤ y) zs → All (λ z. z <ℤ x) zs
All-lt_trans x y [] h hs = tt
All-lt_trans x y (z ∷ zs) h hs = (omega arith, All-lt_trans x y zs h hs.1)

insert_descending-All :
    (bound x : ℤ) (ys : List ℤ)
    → x <ℤ bound
    → All (λ y. y <ℤ bound) ys
    → All (λ y. y <ℤ bound) (insert_descending x ys)
unfolding insert_descending
insert_descending-All bound x [] h hs = (h, tt)
insert_descending-All bound x (y ∷ ys) h hs =
    let rest = insert_descending-All bound x ys h hs.1 in
    elim (Bool-cases (eqb_ℤ x y)) [
      | inl e ↦ rw (e, insert_descending) hs
      | inr e ↦ elim (Bool-cases (ltb_ℤ y x)) [
        | inl f ↦ rw (e, f, insert_descending) (h, hs)
        | inr f ↦ rw (e, f, insert_descending) (hs.0, rest)
      ]
    ]

insert_descending-IsDescending :
    (x : ℤ) (ys : List ℤ) → IsDescending ys → IsDescending (insert_descending x ys)
unfolding insert_descending
insert_descending-IsDescending x [] h = (tt, tt)
insert_descending-IsDescending x (y ∷ ys) h =
    let rest = insert_descending-IsDescending x ys h.1 in
    elim (Bool-cases (eqb_ℤ x y)) [
      | inl e ↦ rw (e, insert_descending) h
      | inr e ↦ elim (Bool-cases (ltb_ℤ y x)) [
        | inl f ↦
            let above : y <ℤ x = ground arith in
            rw (e, f, insert_descending) ((above, All-lt_trans x y ys above h.0), h)
        | inr f ↦
            let below : x <ℤ y = lt_of_tests x y e f in
            rw (e, f, insert_descending) (insert_descending-All y x ys below h.0, rest)
      ]
    ]

descending-IsDescending : (xs : List ℤ) → IsDescending (descending xs)
unfolding descending
descending-IsDescending [] = tt
descending-IsDescending (x ∷ xs) =
    insert_descending-IsDescending x (descending xs) (descending-IsDescending xs)

All-positive :
    (xs : List ℤ) → any (λ item. leb_ℤ item (pos 0)) xs ≡ false → All (λ v. pos 0 <ℤ v) xs
All-positive [] h = tt
All-positive (x ∷ xs) h = (ground arith, All-positive xs (ground arith))

All-capped :
    (xs : List ℤ) → any (λ item. ltb_ℤ (pos 100) item) xs ≡ false → All (λ v. v ≤ℤ pos 100) xs
All-capped [] h = tt
All-capped (x ∷ xs) h = (ground arith, All-capped xs (ground arith))

-- What every list of thresholds satisfies.
abbrev pub IsThresholds : List ℤ → Type 0
IsThresholds values = IsDescending values × All (λ v. pos 0 <ℤ v) values × (values ≢ [])

nonempty-IsThresholds :
    (values sorted_values : List ℤ)
    → IsDescending sorted_values
    → positive sorted_values ≡ ok values
    → IsThresholds values
unfolding positive bad_value
nonempty-IsThresholds values [] d h = absurd (cc h)
nonempty-IsThresholds values (x ∷ xs) d h =
    elim (Bool-cases (any (λ item. leb_ℤ item (pos 0)) (x ∷ xs))) [
      | inl e ↦ absurd (ground arith)
      | inr e ↦
          let same : x ∷ xs ≡ values = ground arith in
          subst IsThresholds same (d, All-positive (x ∷ xs) e, λ n. cc n)
    ]

thresholds-ok :
    (r : Result (List ℤ)) (values : List ℤ) → thresholds r ≡ ok values → IsThresholds values
unfolding thresholds
thresholds-ok (raised e) values h = absurd (cc h)
thresholds-ok (ok xs) values h =
    nonempty-IsThresholds values (descending xs) (descending-IsDescending xs) h

-- Time thresholds that are read are not empty, positive and strictly descending, whatever is stored.
pub time_thresholds-ok :
    (defaults : Settings) (settings : List Setting) (values : List ℤ)
    → time_thresholds defaults settings ≡ ok values
    → IsThresholds values
unfolding time_thresholds
time_thresholds-ok defaults settings values h = thresholds-ok _ values h

capped-ok :
    (r : Result (List ℤ)) (values : List ℤ)
    → capped r ≡ ok values
    → (r ≡ ok values) × All (λ v. v ≤ℤ pos 100) values
unfolding capped bad_value
capped-ok (raised e) values h = absurd (cc h)
capped-ok (ok xs) values h = elim (Bool-cases (any (λ item. ltb_ℤ (pos 100) item) xs)) [
  | inl e ↦ absurd (ground arith)
  | inr e ↦
      let same : xs ≡ values = ground arith in
      (ap ok same, subst (All (λ v. v ≤ℤ pos 100)) same (All-capped xs e))
]

-- Traffic thresholds that are read are moreover at most 100.
pub traffic_thresholds-ok :
    (defaults : Settings) (settings : List Setting) (values : List ℤ)
    → traffic_thresholds defaults settings ≡ ok values
    → IsThresholds values × All (λ v. v ≤ℤ pos 100) values
unfolding traffic_thresholds
traffic_thresholds-ok defaults settings values h =
    let read =
      threshold_values defaults.traffic_warning_thresholds
        (stored (lit "traffic_warning_thresholds") settings) in
    let (r, cap) = capped-ok (thresholds read) values h in (thresholds-ok read values r, cap)

-- The value that is read back after it was stored.
pub stored-put_setting :
    (key : Text) (t : Text) (rows : List Setting)
    → stored key (put_setting key (str t) rows) ≡ some (str t)
unfolding stored put_setting
stored-put_setting key t [] = rw (teq_refl, stored) refl
stored-put_setting key t (row ∷ rows) = elim (Bool-cases (teq row.key key)) [
  | inl e ↦ rw (e, put_setting) (rw (e, stored) refl)
  | inr e ↦ rw (e, put_setting) (rw (e, stored) (stored-put_setting key t rows))
]

-- A mode that `set_operations_mode` accepts is the one that `operations_mode` then reads.
pub operations_mode-set :
    (defaults : Settings) (mode : Text) (settings settings' : List Setting)
    → set_operations_mode mode settings ≡ ok settings'
    → operations_mode defaults settings' ≡ ok mode
unfolding set_operations_mode operations_mode bad_value
operations_mode-set defaults mode settings settings' h =
    elim (Bool-cases (teq mode (lit "dry_run") || teq mode (lit "live"))) [
      | inr e ↦ absurd (ground arith)
      | inl e ↦
          let same : put_setting (lit "operations_mode") (str mode) settings ≡ settings' =
            ground arith in
          rw (← same) (rw (stored-put_setting, operations_mode) (rw e refl))
    ]
