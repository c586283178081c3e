-- ===== src/Rebecca/Http/Exact.antt =====
-- What `get_admin` of `HTTPRebeccaClient` answers.
use rebecca_reseller_bot.Prelude.{
  ◌≡◌, refl, true, inl, inr, Option, none, some, [], ◌∷◌, Bool-cases,
}
use rebecca_reseller_bot.Prelude.Text.{Text, lit}
use rebecca_reseller_bot.Prelude.Json.{Json, null, arr, obj, Items, nil, cons, Fields}
use rebecca_reseller_bot.Prelude.Effects.{Action, Result, ok, raised, Result-cases, >>=-eq-ok}
use rebecca_reseller_bot.Rebecca.Models.{Admin, User}
use rebecca_reseller_bot.Rebecca.Http.{
  Response, Body, params, ClientState, has_capability, request, on_world, require,
}
use rebecca_reseller_bot.Rebecca.Http.Admins.{
  names_user, exact_row, no_attribute, row_in, find_row, rows_of, give,
}
use rebecca_reseller_bot.Rebecca.Http.Client.{
  from_rebecca, admin_of_row, on_admins, read_admin, get_admin,
}

-- The row that is found has the username asked for.
exact_row-username :
    (username : Text) (rows : Items) (row : Fields)
    → exact_row username rows ≡ ok (some row)
    → names_user username row ≡ true
unfolding exact_row no_attribute
exact_row-username username nil row h = absurd (cc h)
exact_row-username username (cons (obj x) rows) row h = elim (Bool-cases (names_user username x)) [
  | inl e ↦
      let found : ok (some x) ≡ ok (some row) = rw e at h in
      let same : x ≡ row = cc found in rw⁻¹ same e
  | inr e ↦ exact_row-username username rows row (rw e at h)
]
exact_row-username username (cons _ rows) row h = absurd (cc h)

row_in-username :
    (username : Text) (rows : Json) (row : Fields)
    → row_in username rows ≡ ok (some row)
    → names_user username row ≡ true
unfolding row_in
row_in-username username (arr rows) row h = exact_row-username username rows row h
row_in-username username _ row h = absurd (cc h)

find_row-username :
    (username : Text) (answer : Option Json) (row : Fields)
    → find_row username answer ≡ ok (some row)
    → names_user username row ≡ true
unfolding find_row
find_row-username username none row h = row_in-username username null row h
find_row-username username (some answer) row h =
    row_in-username username (rows_of (lit "admins") answer) row h

module _ {W : Type 0} (http : Text → Text → Body → Action W Response)
    (validate_user : Fields → Result User) (validate_admin : Fields → Result Admin)
    (format : Text → Text → Text) where
  admin_of_row-ok :
      (row : Fields) (a : Admin)
      → admin_of_row http validate_user validate_admin format (some row) ≡ ok (some a)
      → from_rebecca http validate_user validate_admin format row ≡ ok a
  unfolding admin_of_row
  admin_of_row-ok row a h =
      elim (Result-cases (from_rebecca http validate_user validate_admin format row)) [
        | inr (x, e) ↦
            (let bad : raised x ≡ ok (some a) = rw (e, admin_of_row) at h in absurd (cc bad))
        | inl (b, e) ↦
            (let same : ok (some b) ≡ ok (some a) = rw (e, admin_of_row) at h in cc (e, same))
      ]

  no_admin_of_row :
      (a : Admin) → admin_of_row http validate_user validate_admin format none ≡ ok (some a) → ⊥
  unfolding admin_of_row
  no_admin_of_row a h = cc h

  on_admins-row :
      (username : Text) (answer : Option Json) (a : Admin)
      → on_admins http validate_user validate_admin format username answer ≡ ok (some a)
      → (row : Fields) × (find_row username answer ≡ ok (some row))
        × (from_rebecca http validate_user validate_admin format row ≡ ok a)
  unfolding on_admins
  on_admins-row username answer a h = elim (Result-cases (find_row username answer)) [
    | inr (x, e) ↦ (let bad : raised x ≡ ok (some a) = rw (e, on_admins) at h in absurd (cc bad))
    | inl (none, e) ↦ absurd (no_admin_of_row a (rw (e, on_admins) at h))
    | inl (some row, e) ↦ (row, e, admin_of_row-ok row a (rw (e, on_admins) at h))
  ]

  require_same : (name : Text) (s : ClientState W) → (require http validate_user name s).1 ≡ s
  unfolding require
  require_same name s = elim (Bool-cases (has_capability name s.capabilities)) [
    | inl e ↦ rw (e, require) refl
    | inr e ↦ rw (e, require) refl
  ]

  -- An administrator that is read by username was parsed from a row of the answer to the request for that
  -- username, and the username of this row is exactly the one asked for.
  pub get_admin-exact :
      (username : Text) (s : ClientState W) (a : Admin)
      → (get_admin http validate_user validate_admin format username s).0 ≡ ok (some a)
      → (answer : Option Json) × (row : Fields) × ((request http validate_user
            (lit "GET")
            (lit "/api/admins")
            (params ((lit "username", username) ∷ []))
            s.world).0
          ≡ ok answer)
        × (find_row username answer ≡ ok (some row))
        × (names_user username row ≡ true)
        × (from_rebecca http validate_user validate_admin format row ≡ ok a)
  unfolding get_admin read_admin give
  get_admin-exact username s a h =
      let fetch = on_world http validate_user (
        request http validate_user (lit "GET") (lit "/api/admins")
          (params ((lit "username", username) ∷ []))) in
      let (u, _, h') =
        >>=-eq-ok (require http validate_user (lit "admin_get"))
          (λ _. read_admin http validate_user validate_admin format username) s h in
      let t = (require http validate_user (lit "admin_get") s).1 in
      let (answer, asked, h'') =
        >>=-eq-ok fetch
          (λ answer. give (on_admins http validate_user validate_admin format username answer)) t
          h' in
      let (row, found, parsed) = on_admins-row username answer a h'' in
      (
        answer,
        row,
        rw (require_same (lit "admin_get") s) at asked,
        found,
        find_row-username username answer row found,
        parsed,
      )
