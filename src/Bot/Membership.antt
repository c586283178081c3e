-- ===== src/Bot/Membership.antt =====
-- app/bot/middlewares/membership.py: is a customer in every required channel?
use rebecca_reseller_bot.Prelude.{
  ℕ, ◌≡◌, inl, inr, Bool, true, false, List, [], ◌∷◌, All, Bool-cases, if◌then◌else◌,
}
use rebecca_reseller_bot.Prelude.Text.{Text, lit, one_of}
use rebecca_reseller_bot.Prelude.Effects.{Action, ok, raised, Result-cases}

-- `status in {"left", "kicked"}`
unfoldable pub is_out : Text → Bool
is_out status = one_of status (lit "left" ∷ lit "kicked" ∷ [])

-- `get_chat_member` of Telegram's bot is a parameter, with the status of the member.
module _ {W : Type 0} (get_chat_member : Text → ℕ → Action W Text) where
  unfoldable pub is_member : ℕ → List Text → Action W Bool
  is_member user_id [] w = (ok true, w)
  is_member user_id (channel ∷ channels) w =
      let (status, w') = get_chat_member channel user_id w in
      let rest = is_member user_id channels w' in
      elim status [ raised _ ↦ (ok false, w') | ok s ↦ if is_out s then (ok false, w') else rest ]

  -- A channel whose answer at some time was a status other than those.
  abbrev pub IsIn : ℕ → Text → Type 0
  IsIn user_id channel =
      (w : W) × (status : Text) × ((get_chat_member channel user_id w).0 ≡ ok status)
      × (is_out status ≡ false)

  -- A customer who counts as a member was reported in every channel, with a status that is neither left
  -- nor kicked.
  pub is_member-IsIn :
      (user_id : ℕ) (channels : List Text) (w : W)
      → (is_member user_id channels w).0 ≡ ok true
      → All (IsIn user_id) channels
  unfolding is_member
  is_member-IsIn user_id [] w h = tt
  is_member-IsIn user_id (channel ∷ channels) w h =
      elim (Result-cases (get_chat_member channel user_id w).0) [
        | inr (x, e) ↦ (let lost : ok false ≡ ok true = rw (e, is_member) at h in absurd (cc lost))
        | inl (s, e) ↦ elim (Bool-cases (is_out s)) [
          | inl o ↦ (let lost : ok false ≡ ok true = rw (e, o, is_member) at h in absurd (cc lost))
          | inr o ↦ (
            (w, s, e, o),
            is_member-IsIn user_id channels (get_chat_member channel user_id w).1
                (rw (e, o, is_member) at h),
          )
        ]
      ]
