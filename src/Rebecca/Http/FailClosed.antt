-- ===== src/Rebecca/Http/FailClosed.antt =====
-- What the client does where the schema cannot be fetched.
use rebecca_reseller_bot.Prelude.{
  ◌≡◌, refl, Bool, true, false, ◌&&◌, leb, Bool-cases, inl, inr, ◌==◌, ◌++◌,
}
use rebecca_reseller_bot.Prelude.Sorting.{show_ℕ}
use rebecca_reseller_bot.Prelude.Text.{Text, lit}
use rebecca_reseller_bot.Prelude.Json.{Fields}
use rebecca_reseller_bot.Prelude.Effects.{
  Action, Result, Exception, ErrorKind, ok, raised, is_rebecca,
}
use rebecca_reseller_bot.Rebecca.Models.{User}
use rebecca_reseller_bot.Rebecca.Http.{
  Response, Body, bare, ClientState, has_capability, response_of, on_answer, request, require,
  set_detected, on_detection, detect_capabilities, existing, delete_user, update_user,
}

abbrev pub is_http_error : ErrorKind → Bool
is_http_error ErrorKind.http_error = true
is_http_error _ = false

-- httpx raised an error of its own, or the server answered with a status from 400 to 599.
abbrev pub is_failure : Result Response → Bool
is_failure (ok r) = leb 400 r.status && leb r.status 599
is_failure (raised e) = is_http_error e.kind

is_http_error-eq : (k : ErrorKind) → is_http_error k ≡ true → k ≡ ErrorKind.http_error
is_http_error-eq ErrorKind.http_error h = refl
is_http_error-eq _ h = absurd (cc h)

abbrev pub capability_missing : Text → Exception
capability_missing name = record { kind = ErrorKind.capability_missing; message = name }

module _ {W : Type 0} (http : Text → Text → Body → Action W Response)
    (model_validate : Fields → Result User) where
  response_of-failure :
      (path : Text) (r : Response) (w : W)
      → is_failure (ok r) ≡ true
      → (e : Exception) × ((response_of http model_validate path r w).0 ≡ raised e)
        × (is_rebecca e.kind ≡ true)
  unfolding response_of
  response_of-failure path r w h = elim (Bool-cases (r.status == 404)) [
    | inl f ↦
        (record { kind = ErrorKind.not_found; message = path }, rw (f, response_of) refl, refl)
    | inr f ↦ (
      record { kind = ErrorKind.rebecca_error; message = lit "Rebecca HTTP " ++ show_ℕ r.status },
      rw (f, response_of) (rw h refl),
      refl,
    )
  ]

  http_error-unavailable :
      (path : Text) (e : Exception) (w : W)
      → is_http_error e.kind ≡ true
      → (x : Exception) × ((on_answer http model_validate path (raised e) w).0 ≡ raised x)
        × (is_rebecca x.kind ≡ true)
  unfolding on_answer
  http_error-unavailable path e w h = (
    record { kind = ErrorKind.rebecca_unavailable; message = e.message },
    rw (is_http_error-eq e.kind h, on_answer) refl,
    refl,
  )

  -- A failure is raised as a `RebeccaError` or an exception of one of its subclasses.
  failure-raised :
      (path : Text) (answer : Result Response) (w : W)
      → is_failure answer ≡ true
      → (e : Exception) × ((on_answer http model_validate path answer w).0 ≡ raised e)
        × (is_rebecca e.kind ≡ true)
  unfolding on_answer
  failure-raised path (ok r) w h = response_of-failure path r w h
  failure-raised path (raised e) w h = http_error-unavailable path e w h

  -- Where the request for the schema ends in an HTTP error or an error status, whatever was detected before,
  -- the detection does not raise, and no capability is there afterwards. A deletion or an update of a user then
  -- raises `CapabilityMissing` and sends no request.
  pub detection_fails_closed :
      (s : ClientState W)
      → is_failure (http (lit "GET") (lit "/openapi.json") bare s.world).0 ≡ true
      → let t = (detect_capabilities http model_validate s).1 in
        ((detect_capabilities http model_validate s).0 ≡ ok tt)
        × ((name : Text) → has_capability name t.capabilities ≡ false)
        × ((username : Text)
            → delete_user http model_validate username t
              ≡ (raised (capability_missing (lit "user_delete")), t))
        × ((username : Text) (payload : Fields)
            → update_user http model_validate username payload t
              ≡ (raised (capability_missing (lit "user_update")), t))
  unfolding detect_capabilities on_detection set_detected has_capability delete_user update_user
      existing require request
  detection_fails_closed s h =
      let answer = http (lit "GET") (lit "/openapi.json") bare s.world in
      let (e, raises, known) = failure-raised (lit "/openapi.json") answer.0 answer.1 h in
      rw (raises, detect_capabilities)
        (rw (known, on_detection) (refl, (λ name. refl), (λ u. refl), (λ u p. refl)))
