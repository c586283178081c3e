-- ===== src/Bot/Trials/DryRun.antt =====
-- A trial that is asked for while the bot runs dry.
use rebecca_reseller_bot.Prelude.{
  ℕ, ◌≡◌, refl, ap, ◌∙◌, Bool, true, false, some, List, [], ◌∷◌, inl, inr, Bool-cases,
}
use rebecca_reseller_bot.Prelude.Text.{Text, lit, teq, teq_iff}
use rebecca_reseller_bot.Prelude.Effects.{ok, Result-cases, pure, ◌>>=◌, ◌>>◌}
use rebecca_reseller_bot.Rebecca.Interface.{RebeccaClient}
use rebecca_reseller_bot.Database.Models.{Database}
use rebecca_reseller_bot.Database.Session.{commit}
use rebecca_reseller_bot.Database.Settings.{stored, operations_mode}
use rebecca_reseller_bot.Reseller.Trial.{record_dry_run_request}
use rebecca_reseller_bot.Scheduler.State.{Run, database}
use rebecca_reseller_bot.Bot.Membership.{is_member, is_out}
use rebecca_reseller_bot.Bot.Transactions.{
  Telegram, Message, would_provision_trial, begin, notify, notify_all,
}
use rebecca_reseller_bot.Bot.Trials.{
  TrialDesk, Request, dry_run_noted, is_switched_off, note_dry_run, in_mode, in_channels,
  with_client, run_trial,
}

module _ {W M : Type 0} (measure : W → M) where
  -- What Telegram's calls do not change.
  pub record Speaks (bot : Telegram W) : Type 0 where
    pub member :
        (channel : Text) (user_id : ℕ) (w : W)
        → measure (bot.get_chat_member channel user_id w).1 ≡ measure w
    pub message :
        (chat_id : ℕ) (m : Message) (w : W) → measure (bot.send_message chat_id m w).1 ≡ measure w

  is_member-keeps :
      (bot : Telegram W) (user_id : ℕ) (channels : List Text) (w : W)
      → Speaks bot
      → measure (is_member bot.get_chat_member user_id channels w).1 ≡ measure w
  unfolding is_member
  is_member-keeps bot user_id [] w laws = refl
  is_member-keeps bot user_id (channel ∷ channels) w laws =
      let asked = bot.get_chat_member channel user_id w in
      elim (Result-cases asked.0) [
        | inr (_, e) ↦ rw (e, is_member) (laws.member channel user_id w)
        | inl (status, e) ↦ elim (Bool-cases (is_out status)) [
          | inl o ↦ rw (e, o, is_member) (laws.member channel user_id w)
          | inr o ↦
              rw (e, o, is_member)
                (is_member-keeps bot user_id channels asked.1 laws ∙ laws.member channel user_id w)
        ]
      ]

  -- A run that keeps the measure and these committed tables.
  unfoldable pub Unchanged : Run W → Run W → Type 0
  Unchanged r s =
      (measure s.world ≡ measure r.world)
      × (s.session.committed.trial_records ≡ r.session.committed.trial_records)
      × (s.session.committed.resellers ≡ r.session.committed.resellers)

  notify_all-Unchanged :
      (bot : Telegram W) (chats : List ℕ) (message : Message) (r : Run W)
      → Speaks bot
      → Unchanged r (notify_all bot chats message r).1
  unfolding Unchanged notify_all notify
  notify_all-Unchanged bot [] message r laws = (refl, refl, refl)
  notify_all-Unchanged bot (chat ∷ chats) message r laws =
      let sent = bot.send_message chat message r.world in
      let s = record r { world = sent.1 } in
      elim (Result-cases sent.0) [
        | inr (_, e) ↦ rw (e, notify_all, ◌>>=◌) (laws.message chat message r.world, refl, refl)
        | inl (_, e) ↦
            let (kept, trials, resellers) = notify_all-Unchanged bot chats message s laws in
            rw (e, notify_all, ◌>>=◌) (kept ∙ laws.message chat message r.world, trials, resellers)
      ]

  module _ (env : TrialDesk W) (request : Request) (client : RebeccaClient W)
      (laws : Speaks env.desk.bot) where
    notified-Unchanged :
        (r : Run W)
        → Unchanged r
            ((notify_all env.desk.bot env.desk.owner_ids (would_provision_trial request.user_id)
                >> pure dry_run_noted)
              r).1
    notified-Unchanged r =
        let tell =
          notify_all env.desk.bot env.desk.owner_ids (would_provision_trial request.user_id) in
        let kept =
          notify_all-Unchanged env.desk.bot env.desk.owner_ids
            (would_provision_trial request.user_id) r laws in
        elim (Result-cases (tell r).0) [
          | inl (_, e) ↦ rw (e, ◌>>=◌) kept
          | inr (_, e) ↦ rw (e, ◌>>=◌) kept
        ]

    note_dry_run-Unchanged :
        (r : Run W)
        → r.session.written ≡ r.session.committed
        → Unchanged r (note_dry_run env request r).1
    unfolding note_dry_run Unchanged record_dry_run_request
    note_dry_run-Unchanged r same =
        let noted = record r {
          session = commit (record_dry_run_request request.user_id request.now r.session);
        } in
        let (kept, trials, resellers) = notified-Unchanged noted in
        (
          kept,
          trials ∙ ap (λ (db : Database). db.trial_records) same,
          resellers ∙ ap (λ (db : Database). db.resellers) same,
        )

    in_channels-Unchanged :
        (joined : Bool) (r : Run W)
        → operations_mode env.desk.settings (database r).settings ≡ ok (lit "dry_run")
        → r.session.written ≡ r.session.committed
        → Unchanged r (in_channels env request client joined r).1
    unfolding in_channels in_mode Unchanged
    in_channels-Unchanged false r dry same = (refl, refl, refl)
    in_channels-Unchanged true r dry same =
        let is_dry : teq (lit "dry_run") (lit "dry_run") ≡ true =
          (teq_iff (lit "dry_run") (lit "dry_run")).1 refl in
        elim (Bool-cases (is_switched_off (stored (lit "trial_enabled") (database r).settings))) [
          | inl e ↦ rw (e, in_channels) (refl, refl, refl)
          | inr e ↦
              rw (e, in_channels)
                (rw (dry, ◌>>=◌) (rw (is_dry, in_mode) (note_dry_run-Unchanged r same)))
        ]

    -- A trial that is asked for in the dry run makes no call of Rebecca: whatever the calls of Telegram leave
    -- as it was stays as it was, and no trial is used up and no reseller is changed. The committed
    -- settings say that the mode is the dry run.
    pub dry_run_trial_idle :
        (r : Run W)
        → operations_mode env.desk.settings r.session.committed.settings ≡ ok (lit "dry_run")
        → Unchanged r (run_trial env request (some client) r).1
    unfolding run_trial with_client begin Unchanged
    dry_run_trial_idle r dry =
        let asked = is_member env.desk.bot.get_chat_member request.user_id env.channels r.world in
        let start = record (begin r) { world = asked.1 } in
        let kept = is_member-keeps env.desk.bot request.user_id env.channels r.world laws in
        elim (Result-cases asked.0) [
          | inr (_, e) ↦ rw (e, ◌>>=◌) (kept, refl, refl)
          | inl (joined, e) ↦
              let (kept', trials, resellers) = in_channels-Unchanged joined start dry refl in
              rw (e, ◌>>=◌) (kept' ∙ kept, trials, resellers)
        ]
