-- ===== src/Rebecca/Http/Guarded.antt =====
-- When the methods of `HTTPRebeccaClient` send no request.
use rebecca_reseller_bot.Prelude.{◌≡◌, refl, true}
use rebecca_reseller_bot.Prelude.Text.{Text}
use rebecca_reseller_bot.Prelude.Json.{Fields}
use rebecca_reseller_bot.Prelude.Effects.{Action, Result, ok}
use rebecca_reseller_bot.Rebecca.Models.{Admin, User}
use rebecca_reseller_bot.Rebecca.Http.{Response, Body, ClientState, has_capability, require}

module _ {W : Type 0} (http : Text → Text → Body → Action W Response)
    (validate_user : Fields → Result User) (validate_admin : Fields → Result Admin)
    (format : Text → Text → Text) where
  require_passes :
      (name : Text) (s : ClientState W)
      → has_capability name s.capabilities ≡ true
      → require http validate_user name s ≡ (ok tt, s)
  unfolding require
  require_passes name s h = rw (h, require) refl
