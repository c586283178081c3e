-- ===== src/Scheduler/Locked.antt =====
-- `locked` of app/database/locks.py, around an action of a job.
use rebecca_reseller_bot.Prelude.{ℕ, Bool, true, false}
use rebecca_reseller_bot.Prelude.Text.{Text}
use rebecca_reseller_bot.Prelude.Time.{Instant}
use rebecca_reseller_bot.Prelude.Effects.{Action, ok, modify, ◌>>=◌}
use rebecca_reseller_bot.Database.Session.{commit}
use rebecca_reseller_bot.Database.Locks.{acquire, release}
use rebecca_reseller_bot.Scheduler.State.{Run}

module _ {W : Type 0} where
  abbrev pub save_session : Action (Run W) (Unit {0})
  save_session = modify λ r. record r { session = commit r.session }

  unfoldable pub release_lock : Text → Action (Run W) (Unit {0})
  release_lock key = modify λ r. record r { session = release key r.session }

  unfoldable pub acquire_lock : Text → ℕ → Instant → Action (Run W) Bool
  acquire_lock key ttl now r =
      let (won, session) = acquire key ttl now r.session in (ok won, record r { session = session })

  -- `finally`: the body's result, and the lock is released where it was won.
  unfoldable pub finally_release :
      Text → Bool → Action (Run W) (Unit {0}) → Action (Run W) (Unit {0})
  finally_release key false body r = body r
  finally_release key true body r = let (result, s) = body r in (result, (release_lock key s).1)

  -- `async with locked(session, key, ttl_seconds=…) as won: body(won)`
  unfoldable pub locked :
      Text → ℕ → Instant → (Bool → Action (Run W) (Unit {0})) → Action (Run W) (Unit {0})
  locked key ttl now body = acquire_lock key ttl now >>= λ won. finally_release key won (body won)
