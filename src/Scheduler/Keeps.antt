-- ===== src/Scheduler/Keeps.antt =====
-- Actions of the jobs that leave a measure of the outside world as it was.
use rebecca_reseller_bot.Prelude.{
  ℕ, ◌≡◌, refl, ◌∙◌, Bool, true, false, Option, some, List, [], ◌∷◌, inl, inr, Bool-cases,
  Option-cases,
}
use rebecca_reseller_bot.Prelude.Text.{Text}
use rebecca_reseller_bot.Prelude.Time.{Instant}
use rebecca_reseller_bot.Prelude.Effects.{Action, Exception, Result-cases, pure, catch, ◌>>=◌, ◌>>◌}
use rebecca_reseller_bot.Scheduler.State.{
  Run, Runner, Notice, remote, database, for_each, audit, send,
}
use rebecca_reseller_bot.Scheduler.Notifications.{WarningKey, is_recorded, record_sent, once}

module _ {W M : Type 0} (measure : W → M) where
  -- However the action ends, the measure is the one before it.
  abbrev pub Keeps : {A : Type 0} → Action (Run W) A → Type 0
  Keeps act = (r : Run W) → measure (act r).1.world ≡ measure r.world

  pub >>=-Keeps :
      {A B : Type 0} (act : Action (Run W) A) (f : A → Action (Run W) B)
      → Keeps act
      → ((a : A) → Keeps (f a))
      → Keeps (act >>= f)
  >>=-Keeps act f h k r = elim (Result-cases (act r).0) [
    | inl (a, e) ↦ rw (e, ◌>>=◌) (k a (act r).1 ∙ h r)
    | inr (_, e) ↦ rw (e, ◌>>=◌) (h r)
  ]

  pub >>-Keeps :
      {A B : Type 0} (act : Action (Run W) A) (rest : Action (Run W) B)
      → Keeps act
      → Keeps rest
      → Keeps (act >> rest)
  >>-Keeps act rest h k = >>=-Keeps act (λ _. rest) h (λ _. k)

  pub catch-Keeps :
      {A : Type 0} (act : Action (Run W) A) (handler : Exception → Action (Run W) A)
      → Keeps act
      → ((e : Exception) → Keeps (handler e))
      → Keeps (catch act handler)
  catch-Keeps act handler h k r = elim (Result-cases (act r).0) [
    | inl (a, e) ↦ rw (e, catch) (h r)
    | inr (x, e) ↦ rw (e, catch) (k x (act r).1 ∙ h r)
  ]

  pub for_each-Keeps :
      {A : Type 0} (body : A → Action (Run W) (Unit {0})) (rows : List A)
      → ((a : A) → Keeps (body a))
      → Keeps (for_each body rows)
  unfolding for_each
  for_each-Keeps body [] h r = refl
  for_each-Keeps body (row ∷ rows) h r =
      >>=-Keeps (body row) (λ _. for_each body rows) (h row) (λ _. for_each-Keeps body rows h) r

  -- What a run without mutations may do: read at Rebecca, and send messages.
  pub record ReadsKeep (runner : Runner W) : Type 0 where
    pub get_admin : (u : Text) (w : W) → measure (runner.rebecca.get_admin u w).1 ≡ measure w
    pub get_user : (u : Text) (w : W) → measure (runner.rebecca.get_user u w).1 ≡ measure w
    pub list_users :
        (u : Text) (w : W) → measure (runner.rebecca.list_admin_users u w).1 ≡ measure w
    pub deliver :
        (bot : ℕ → Notice → Action W (Unit {0})) (chat_id : ℕ) (notice : Notice) (w : W)
        → runner.bot ≡ some bot
        → measure (bot chat_id notice w).1 ≡ measure w

  module _ (runner : Runner W) (laws : ReadsKeep runner) where
    pub send-Keeps : (chat_id : ℕ) (notice : Notice) → Keeps (send runner chat_id notice)
    unfolding send
    send-Keeps chat_id notice r = elim (Option-cases runner.bot) [
      | inl e ↦ rw (e, send) refl
      | inr (bot, e) ↦
          let out = remote (bot chat_id notice) >> pure true in
          rw (e, send)
            (catch-Keeps out (λ _. pure false)
              (>>=-Keeps (remote (bot chat_id notice)) (λ _. pure true)
                (λ q. laws.deliver bot chat_id notice q.world e) (λ _ _. refl))
              (λ _ _. refl) r)
    ]

    pub audit-Keeps :
        (now : Instant) (action target_type target result : Text) (order_id : Option ℕ)
        (error : Option Text)
        → Keeps (audit runner now action target_type target result order_id error)
    unfolding audit
    audit-Keeps now action target_type target result order_id error r = refl

    record_sent-Keeps :
        (now : Instant) (key : WarningKey) (sent : Bool) → Keeps (record_sent runner now key sent)
    unfolding record_sent
    record_sent-Keeps now key true r = refl
    record_sent-Keeps now key false r = refl

    pub once-Keeps :
        (now : Instant) (chat_id : ℕ) (key : WarningKey) (notice : Notice)
        → Keeps (once runner now chat_id key notice)
    unfolding once
    once-Keeps now chat_id key notice r =
        elim (Bool-cases (is_recorded key (database r).warning_events)) [
          | inl e ↦ rw (e, once) refl
          | inr e ↦
              rw (e, once)
                (>>=-Keeps (send runner chat_id notice) (record_sent runner now key)
                  (send-Keeps chat_id notice) (record_sent-Keeps now key) r)
        ]
