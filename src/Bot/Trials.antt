-- ===== src/Bot/Trials.antt =====
-- `run_trial` of app/bot/handlers/common.py: the free trial of a customer.
pub mod DryRun
use rebecca_reseller_bot.Prelude.{
  ℕ, zero, suc, ◌*◌, ◌^◌, Bool, true, false, ◌||◌, not, Option, none, some, List, [], ◌∷◌, any,
  first, update_where, ◌==◌, or_else, if◌then◌else◌,
}
use rebecca_reseller_bot.Prelude.Int.{ℤ, pos, ◌*ℤ◌}
use rebecca_reseller_bot.Prelude.Text.{Text, lit, teq, one_of}
use rebecca_reseller_bot.Prelude.Sorting.{opt_eq}
use rebecca_reseller_bot.Prelude.Time.{Instant}
use rebecca_reseller_bot.Prelude.Json.{Json, bool, int, str, arr, Items, nil, cons}
use rebecca_reseller_bot.Prelude.Effects.{
  Action, ErrorKind, Exception, Result, ok, raised, is_verification, pure, raise, gets, catch,
  ◌>>=◌, ◌>>◌,
}
use rebecca_reseller_bot.Rebecca.Models.{Admin, ServiceId, number, name}
use rebecca_reseller_bot.Rebecca.Interface.{RebeccaClient}
use rebecca_reseller_bot.Database.Models.{Reseller, ResellerStatus, TrialRecord, Database}
use rebecca_reseller_bot.Database.Session.{Session, commit, rollback}
use rebecca_reseller_bot.Database.Settings.{
  Settings, stored, operations_mode, trial_duration_hours, trial_traffic_gb,
}
use rebecca_reseller_bot.Reseller.Credentials.{username_candidate, generate_password}
use rebecca_reseller_bot.Reseller.Provision.{Provision, provision}
use rebecca_reseller_bot.Reseller.Trial.{reserve_trial, failure_status, record_dry_run_request}
use rebecca_reseller_bot.Scheduler.State.{Run, change, database, read, remote}
use rebecca_reseller_bot.Bot.Membership.{is_member}
use rebecca_reseller_bot.Bot.Transactions.{
  Telegram, would_provision_trial, trial_failed, begin, in_transaction, notify_all,
  reseller_of_customer,
}
use rebecca_reseller_bot.Bot.Receipts.{Desk, needed}

-- What the customer is told.
pub data TrialAnswer : Type 0 where
  no_panel not_joined trial_off dry_run_noted already_used : TrialAnswer
  not_verified try_again not_delivered delivered : TrialAnswer

-- What the handler uses besides: the chats of the enabled channels, the random draws of `secrets`, the
-- secrets that no password may contain, and the message with the credentials, which may raise.
pub record TrialDesk (W : Type 0) : Type 0 where
  pub desk : Desk W
  pub channels : List Text
  pub drawn_suffix : Action W ℕ
  pub drawn_passwords : Action W (ℕ → Text)
  pub password_fuel : ℕ
  pub forbidden : List Text
  pub send_credentials : Text → Text → Action W (Unit {0})

-- The caller: the customer's number, the username of the message's sender, the key of a new row, and
-- the clock.
pub record Request : Type 0 where
  pub user_id : ℕ
  pub telegram_username : Option Text
  pub trial_id : ℕ
  pub now : Instant

unfoldable pub trial_of : ℕ → Database → Option TrialRecord
trial_of user_id db = first (λ (t : TrialRecord). t.telegram_id == user_id) db.trial_records

-- The candidate stands in no local row.
unfoldable pub is_known : Text → Database → Bool
is_known candidate db =
    any (λ (t : TrialRecord). opt_eq teq t.admin_username (some candidate)) db.trial_records
    || any (λ (x : Reseller). opt_eq teq x.rebecca_admin_username (some candidate)) db.resellers

-- `status not in {"PROVISIONING", "PROVISIONED_PENDING_DELIVERY"}`, negated.
unfoldable pub is_resumable : TrialRecord → Bool
is_resumable t = one_of t.status (lit "PROVISIONING" ∷ lit "PROVISIONED_PENDING_DELIVERY" ∷ [])

-- `trial_service_ids`: the handlers that write it store a list of integers.
unfoldable pub services_of_items : Items → List ServiceId
services_of_items nil = []
services_of_items (cons (int n) items) = number n ∷ services_of_items items
services_of_items (cons (str t) items) = name t ∷ services_of_items items
services_of_items (cons _ items) = services_of_items items

unfoldable pub trial_services : Option Json → List ServiceId
trial_services (some (arr items)) = services_of_items items
trial_services _ = []

unfoldable pub is_switched_off : Option Json → Bool
is_switched_off (some (bool false)) = true
is_switched_off _ = false

unfoldable pub set_trial_status : ℕ → Text → Database → Database
set_trial_status user_id status db = record db {
  trial_records =
      update_where (λ (t : TrialRecord). t.telegram_id == user_id)
        (λ t. record t { status = status }) db.trial_records;
}

-- The reseller's row after a trial was provisioned.
unfoldable pub on_trial : Text → Instant → ℤ → Reseller → Reseller
on_trial username expire data_limit x = record x {
  rebecca_admin_username = some username;
  status = ResellerStatus.trial;
  trial = true;
  trial_used = true;
  expires_at = some expire;
  purchased_traffic_bytes = data_limit;
}

unfoldable pub adopt_trial : ℕ → Provision → Database → Database
adopt_trial user_id p db = record db {
  resellers =
      update_where (λ (x : Reseller). x.telegram_id == user_id)
        (on_trial p.username p.expire p.data_limit) db.resellers;
}

module _ {W : Type 0} where
  unfoldable pub commit_session : Action (Run W) (Unit {0})
  commit_session r = (ok tt, record r { session = commit r.session })

  module _ (env : TrialDesk W) (request : Request) where
    -- The rows are changed and committed at once.
    unfoldable pub save_status : Text → Action (Run W) (Unit {0})
    save_status status = change (set_trial_status request.user_id status) >> commit_session

    unfoldable pub note_dry_run : Action (Run W) TrialAnswer
    note_dry_run r =
        let noted = record r {
          session = commit (record_dry_run_request request.user_id request.now r.session);
        } in
        (notify_all env.desk.bot env.desk.owner_ids (would_provision_trial request.user_id)
            >> pure dry_run_noted)
          noted

    module _ (client : RebeccaClient W) where
      unfoldable pub free_at_rebecca :
          Action (Run W) Text → Text → Option Admin → Action (Run W) Text
      free_at_rebecca next candidate none = pure candidate
      free_at_rebecca next candidate (some _) = next

      unfoldable pub try_candidate : Action (Run W) Text → Text → Action (Run W) Text
      try_candidate next candidate r =
          if is_known candidate (database r)
          then next r
          else (remote (client.get_admin candidate) >>= free_at_rebecca next candidate) r

      -- `for _ in range(100)`, with the number of tries left.
      unfoldable pub choose_username : ℕ → Action (Run W) Text
      choose_username zero =
          raise ErrorKind.runtime_error (lit "unable to reserve unique trial username")
      choose_username (suc tries) = remote env.drawn_suffix >>= λ drawn.
          try_candidate (choose_username tries)
            (username_candidate request.telegram_username none drawn)

      unfoldable pub reserve_trial_as : Text → ℕ → Action (Run W) (Option TrialRecord)
      reserve_trial_as username hours r =
          let (row, s) =
            reserve_trial request.trial_id request.user_id username hours request.now r.session in
          (ok row, record r { session = commit s })

      -- The duration passed its test of being positive.
      unfoldable pub as_count : ℤ → ℕ
      as_count (pos n) = n
      as_count _ = 0

      unfoldable pub reserve_row : Action (Run W) (Option TrialRecord)
      reserve_row = do
        username ← choose_username 100
        hours ← read (λ (db : Database). trial_duration_hours env.desk.settings db.settings)
        reserve_trial_as username (as_count hours)

      unfoldable pub trial_password : Action (Run W) Text
      trial_password = remote env.drawn_passwords >>= λ tokens.
          needed (generate_password env.password_fuel tokens env.forbidden)

      -- What is handed to `provision`; `reserve_trial` set the two columns of the row.
      unfoldable pub planned_trial : TrialRecord → Action (Run W) Provision
      planned_trial row = do
        services ←
            gets (λ r. trial_services (stored (lit "trial_service_ids") (database r).settings))
        traffic ← read (λ (db : Database). trial_traffic_gb env.desk.settings db.settings)
        password ← trial_password
        expire ← needed row.expires_at
        pure (record {
          username = or_else row.admin_username [];
          password = password;
          expire = expire;
          data_limit = traffic *ℤ 1024 ^ 3;
          services = services;
          telegram_id = some request.user_id;
          users_limit = none;
        })

      unfoldable pub provisioned : Provision → Action (Run W) (Option TrialAnswer)
      provisioned p = do
        remote (provision client p)
        change (adopt_trial request.user_id p)
        save_status (lit "PROVISIONED_PENDING_DELIVERY")
        pure none

      -- The two handlers of the exceptions.
      unfoldable pub provision_failed : Exception → Action (Run W) (Option TrialAnswer)
      provision_failed e =
          save_status (failure_status e)
          >> (if is_verification e.kind
              then notify_all env.desk.bot env.desk.owner_ids (trial_failed request.user_id)
                >> pure (some not_verified)
              else pure (some try_again))

      unfoldable pub mark_active : Action (Run W) TrialAnswer
      mark_active =
          in_transaction (change (set_trial_status request.user_id (lit "ACTIVE")))
          >> pure delivered

      -- The message with the credentials goes out after the first block is closed.
      unfoldable pub hand_over : Provision → Option TrialAnswer → Action (Run W) TrialAnswer
      hand_over p (some answer) r = (ok answer, r)
      hand_over p none r =
          let (sent, w) = env.send_credentials p.username p.password r.world in
          elim sent [
            | raised _ ↦ (ok not_delivered, record r { world = w })
            | ok _ ↦ mark_active (record r { world = w })
          ]

      unfoldable pub deliver_trial : Provision → Action (Run W) TrialAnswer
      deliver_trial p = catch (provisioned p) provision_failed >>= hand_over p

      unfoldable pub on_row : Option TrialRecord → Action (Run W) TrialAnswer
      on_row found = needed found >>= planned_trial >>= deliver_trial

      -- A new row, or the one that is there.
      unfoldable pub on_record : Option TrialRecord → Action (Run W) TrialAnswer
      on_record none = reserve_row >>= on_row
      on_record (some row) = if not (is_resumable row) then pure already_used else on_row (some row)

      unfoldable pub in_mode : Text → Action (Run W) TrialAnswer
      in_mode mode =
          if teq mode (lit "dry_run")
          then note_dry_run
          else gets (λ r. trial_of request.user_id (database r)) >>= on_record

      unfoldable pub in_channels : Bool → Action (Run W) TrialAnswer
      in_channels false r = (ok not_joined, r)
      in_channels true r =
          if is_switched_off (stored (lit "trial_enabled") (database r).settings)
          then (ok trial_off, r)
          else (read (λ (db : Database). operations_mode env.desk.settings db.settings) >>= in_mode)
              r

      unfoldable pub with_client : Action (Run W) TrialAnswer
      with_client r =
          (remote (is_member env.desk.bot.get_chat_member request.user_id env.channels)
              >>= in_channels)
            (begin r)

    unfoldable pub run_trial : Option (RebeccaClient W) → Action (Run W) TrialAnswer
    run_trial none = pure no_panel
    run_trial (some client) = with_client client
