-- ===== src/Scheduler/Notifications.antt =====
-- app/notifications/service.py: a warning that goes out once for each key.
use rebecca_reseller_bot.Prelude.{
  ℕ, ◌≡◌, refl, Bool, true, false, ◌&&◌, List, [], ◌∷◌, ◌++◌, any, if◌then◌else◌, arith, Bool-cases,
  inl, inr,
}
use rebecca_reseller_bot.Prelude.Text.{Text, teq, teq_refl}
use rebecca_reseller_bot.Prelude.Time.{Instant}
use rebecca_reseller_bot.Prelude.Effects.{Action, ok, pure, ◌>>=◌, ◌>>◌, >>=-eq-ok, >>=-state}
use rebecca_reseller_bot.Database.Models.{WarningEvent}
use rebecca_reseller_bot.Scheduler.State.{Run, Runner, Notice, change, database, send}

-- The key of a warning: what it is about and for which entitlement.
pub record WarningKey : Type 0 where
  pub target_type : Text
  pub target : Text
  pub kind : Text
  pub entitlement_key : Text

unfoldable pub is_event : WarningKey → WarningEvent → Bool
is_event key e =
    teq e.target_type key.target_type
    && teq e.target_identifier key.target
    && teq e.kind key.kind
    && teq e.entitlement_key key.entitlement_key

unfoldable pub new_event : Instant → WarningKey → WarningEvent
new_event now key = record {
  target_type = key.target_type;
  target_identifier = key.target;
  kind = key.kind;
  entitlement_key = key.entitlement_key;
  created_at = now;
}

unfoldable pub is_recorded : WarningKey → List WarningEvent → Bool
is_recorded key = any (is_event key)

module _ {W : Type 0} (runner : Runner W) (now : Instant) where
  unfoldable pub record_sent : WarningKey → Bool → Action (Run W) Bool
  record_sent key false = pure false
  record_sent key true = do
    change (λ db. record db { warning_events = db.warning_events ++ (new_event now key ∷ []) })
    pure true

  unfoldable pub once : ℕ → WarningKey → Notice → Action (Run W) Bool
  once chat_id key notice r =
      if is_recorded key (database r).warning_events
      then (ok false, r)
      else (send runner chat_id notice >>= record_sent key) r

recorded_last :
    (now : Instant) (key : WarningKey) (events : List WarningEvent)
    → is_recorded key (events ++ (new_event now key ∷ [])) ≡ true
unfolding is_recorded is_event new_event
recorded_last now key [] = ground (
  arith,
  teq_refl key.target_type,
  teq_refl key.target,
  teq_refl key.kind,
  teq_refl key.entitlement_key,
)
recorded_last now key (e ∷ events) = ground (arith, recorded_last now key events)

module _ {W : Type 0} (runner : Runner W) where
  record_sent-recorded :
      (now : Instant) (key : WarningKey) (sent : Bool) (r : Run W)
      → (record_sent runner now key sent r).0 ≡ ok true
      → is_recorded key (database (record_sent runner now key sent r).1).warning_events ≡ true
  unfolding record_sent
  record_sent-recorded now key false r h = absurd (cc h)
  record_sent-recorded now key true r h = recorded_last now key (database r).warning_events

  once-recorded :
      (now : Instant) (chat_id : ℕ) (key : WarningKey) (notice : Notice) (r : Run W)
      → (once runner now chat_id key notice r).0 ≡ ok true
      → is_recorded key (database (once runner now chat_id key notice r).1).warning_events ≡ true
  unfolding once
  once-recorded now chat_id key notice r h =
      elim (Bool-cases (is_recorded key (database r).warning_events)) [
        | inl e ↦ (let x : ok false ≡ ok true = rw (e, once) at h in absurd (cc x))
        | inr e ↦
            let out = send runner chat_id notice in
            let (sent, f, g) = >>=-eq-ok out (record_sent runner now key) r (rw (e, once) at h) in
            rw (e, once)
              (rw (>>=-state out (record_sent runner now key) r f)
                (record_sent-recorded now key sent (out r).1 g))
      ]

  -- After a warning went out, a call with the same key sends nothing and changes nothing, at any later
  -- time, to any chat and with any message.
  pub once_only :
      (now later : Instant) (chat_id chat_id' : ℕ) (key : WarningKey) (notice notice' : Notice)
      (r : Run W)
      → (once runner now chat_id key notice r).0 ≡ ok true
      → let s = (once runner now chat_id key notice r).1 in
        once runner later chat_id' key notice' s ≡ (ok false, s)
  unfolding once
  once_only now later chat_id chat_id' key notice notice' r h =
      rw (once-recorded now chat_id key notice r h) refl
