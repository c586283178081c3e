-- ===== src/Scheduler.antt =====
-- app/scheduler/jobs.py, `LifecycleRunner`, and app/notifications/service.py. The jobs run one after
-- another in one session under the lock `scheduler:global`.
pub mod State
pub mod Notifications
pub mod Resellers
pub mod Users
pub mod Deletions
pub mod Plisio
pub mod Locked
pub mod Provisioning
pub mod Orders
pub mod Sequence
pub mod Keeps
pub mod DryRun
pub mod Thresholds
pub mod Reservation
pub mod Reconciled
