-- ===== src/Tests/Bots.antt =====
-- Card numbers, memberships and the HTTP client at concrete inputs.
use rebecca_reseller_bot.Prelude.{ℕ, ◌≡◌, refl, Bool, true, false, List, [], ◌∷◌, All, length, all}
use rebecca_reseller_bot.Prelude.Text.{Text, lit, is_digit}
use rebecca_reseller_bot.Prelude.Effects.{Action, Result, ErrorKind, ok, raised}
use rebecca_reseller_bot.Prelude.{none}
use rebecca_reseller_bot.Prelude.Json.{Fields}
use rebecca_reseller_bot.Rebecca.Models.{User}
use rebecca_reseller_bot.Rebecca.Http.{
  Response, Body, ClientState, has_capability, detect_capabilities, delete_user, update_user,
}
use rebecca_reseller_bot.Rebecca.Http.FailClosed.{capability_missing, detection_fails_closed}
use rebecca_reseller_bot.Bot.Membership.{is_member, IsIn, is_member-IsIn}

unfoldable everyone : Text → ℕ → Action ℕ Text
everyone channel user_id w = (ok (lit "member"), w)

is_member-IsIn_example : All (IsIn everyone 77) (lit "@news" ∷ lit "@help" ∷ [])
unfolding is_member everyone lit rebecca_reseller_bot.Bot.Membership.is_out
    rebecca_reseller_bot.Prelude.Text.one_of rebecca_reseller_bot.Prelude.Text.teq
is_member-IsIn_example = is_member-IsIn everyone 77 (lit "@news" ∷ lit "@help" ∷ []) 0 refl

abbrev offline : Text → Text → Body → Action ℕ Response
offline method path b w = (ok (record { status = 503; content = none }), w)

abbrev no_model : Fields → Result User
no_model entries = raised (record { kind = ErrorKind.value_error; message = [] })

-- A client that has detected a capability before.
unfoldable stale : ClientState ℕ
unfolding lit
stale = record { capabilities = (lit "user_delete", true) ∷ []; operation_paths = []; world = 0 }

detection_fails_closed_example :
    let t = (detect_capabilities offline no_model stale).1 in
    ((detect_capabilities offline no_model stale).0 ≡ ok tt)
    × ((name : Text) → has_capability name t.capabilities ≡ false)
    × ((username : Text)
        → delete_user offline no_model username t
          ≡ (raised (capability_missing (lit "user_delete")), t))
    × ((username : Text) (payload : Fields)
        → update_user offline no_model username payload t
          ≡ (raised (capability_missing (lit "user_update")), t))
unfolding stale
detection_fails_closed_example = detection_fails_closed offline no_model stale refl
