-- ===== src/Scheduler/Sequence.antt =====
-- `run` of app/scheduler/jobs.py: the jobs, one after another, under the lock `scheduler:global`. One
-- time stands for the readings of the clock in a run.
use rebecca_reseller_bot.Prelude.{Bool, true, false}
use rebecca_reseller_bot.Prelude.Text.{Text, lit}
use rebecca_reseller_bot.Prelude.Json.{Fields}
use rebecca_reseller_bot.Prelude.Time.{Instant}
use rebecca_reseller_bot.Prelude.Effects.{Action, pure, ◌>>◌}
use rebecca_reseller_bot.Payments.Plisio.{Signing}
use rebecca_reseller_bot.Scheduler.State.{Run, Runner}
use rebecca_reseller_bot.Scheduler.Resellers.{sync_resellers}
use rebecca_reseller_bot.Scheduler.Users.{sync_users}
use rebecca_reseller_bot.Scheduler.Deletions.{due_deletions}
use rebecca_reseller_bot.Scheduler.Locked.{locked, save_session}
use rebecca_reseller_bot.Scheduler.Orders.{reconcile_orders}
use rebecca_reseller_bot.Scheduler.Provisioning.{OrderRunner}
use rebecca_reseller_bot.Scheduler.Plisio.{reconcile_plisio}

-- The three jobs before the orders.
unfoldable pub sync_jobs :
    {W : Type 0} → Runner W → Instant → Instant → Instant → Action (Run W) (Unit {0})
sync_jobs runner first second third = do
  sync_resellers runner first
  sync_users runner second
  due_deletions runner third

module _ {W : Type 0} (env : OrderRunner W) (signing : Signing)
    (transaction : Text → Action W Fields) (now : Instant) where
  unfoldable pub run_won : Bool → Action (Run W) (Unit {0})
  run_won false = pure tt
  run_won true = do
    sync_jobs env.runner now now now
    reconcile_orders env now
    reconcile_plisio env.runner signing transaction now
    save_session

  unfoldable pub run : Action (Run W) (Unit {0})
  run = locked (lit "scheduler:global") 240 now run_won
