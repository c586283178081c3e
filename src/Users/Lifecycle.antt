-- ===== src/Users/Lifecycle.antt =====
-- app/users/lifecycle.py and app/users/ownership.py: the guarded deletion of a user.
pub mod Guards
use rebecca_reseller_bot.Prelude.{
  ℕ, ◌+◌, ◌*◌, Bool, true, false, ◌&&◌, ◌||◌, not, Option, none, some, ltb, if◌then◌else◌,
}
use rebecca_reseller_bot.Prelude.Text.{Text, lit, teq, is_empty}
use rebecca_reseller_bot.Prelude.Time.{Instant, hour}
use rebecca_reseller_bot.Prelude.Effects.{Action, ErrorKind, pure, raise, ◌>>=◌, ◌>>◌}
use rebecca_reseller_bot.Rebecca.Models.{User}
use rebecca_reseller_bot.Rebecca.Interface.{RebeccaClient}
use rebecca_reseller_bot.Reseller.Quota.{exhausted}

unfoldable pub owned_by : Option Text → Text → Bool
owned_by none admin_username = false
owned_by (some owner) admin_username = not (is_empty owner) && teq owner admin_username

unfoldable pub verified_owner : User → Text → Bool
unfolding owned_by
verified_owner user admin_username = owned_by user.admin_username admin_username

pub record DeletePolicy : Type 0 where
  pub dry_run : Bool
  pub destructive_actions : Bool
  pub allow_delete_actions : Bool

unfoldable pub deletion_time : Instant → ℕ → Instant
deletion_time detected hours = detected + hours * hour

-- The texts that `safe_delete` returns.
pub data DeleteOutcome : Type 0 where
  held not_due would_delete_user delete_disabled locked already_missing : DeleteOutcome
  ownership_mismatch renewed deleted : DeleteOutcome

unfoldable pub outcome_text : DeleteOutcome → Text
unfolding lit
outcome_text held = lit "HELD"
outcome_text not_due = lit "NOT_DUE"
outcome_text would_delete_user = lit "WOULD_DELETE_USER"
outcome_text delete_disabled = lit "DELETE_DISABLED"
outcome_text locked = lit "LOCKED"
outcome_text already_missing = lit "ALREADY_MISSING"
outcome_text ownership_mismatch = lit "OWNERSHIP_MISMATCH"
outcome_text renewed = lit "RENEWED"
outcome_text deleted = lit "DELETED"

-- The arguments of one call, but for the client.
pub record Deletion : Type 0 where
  pub username : Text
  pub owner : Text
  pub delete_after : Instant
  pub now : Instant
  pub policy : DeletePolicy
  pub hold : Bool
  pub is_locked : Bool

-- The tests that need no read: the outcome of the first that stops the call.
unfoldable pub blocked : Deletion → Option DeleteOutcome
blocked d =
    if d.hold
    then some held
    else if ltb d.now d.delete_after
    then some not_due
    else if d.policy.dry_run
    then some would_delete_user
    else if not d.policy.destructive_actions || not d.policy.allow_delete_actions
    then some delete_disabled
    else if d.is_locked
    then some locked
    else none

-- The tests on the live user.
unfoldable pub refused : Deletion → Option User → Option DeleteOutcome
refused d none = some already_missing
refused d (some live) =
    if not (verified_owner live d.owner)
    then some ownership_mismatch
    else if not (exhausted live.expire live.data_limit live.used_traffic d.now)
    then some renewed
    else none

module _ {W : Type 0} (client : RebeccaClient W) where
  unfoldable pub confirm : Option User → Action W DeleteOutcome
  confirm none = pure deleted
  confirm (some _) = raise ErrorKind.verification_error (lit "delete not confirmed by not-found")

  unfoldable pub delete_confirmed : Deletion → Action W DeleteOutcome
  delete_confirmed d = do client.delete_user d.username; confirm (← client.get_user d.username)

  unfoldable pub delete_live : Deletion → Option User → Action W DeleteOutcome
  delete_live d live = elim (refused d live) [
    | some outcome ↦ pure outcome
    | none ↦ delete_confirmed d
  ]

  unfoldable pub safe_delete : Deletion → Action W DeleteOutcome
  safe_delete d = elim (blocked d) [
    | some outcome ↦ pure outcome
    | none ↦ do delete_live d (← client.get_user d.username)
  ]
