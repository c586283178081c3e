-- ===== src/Database/Locks.antt =====
-- app/database/locks.py: locks as rows with a unique key and an expiry.
pub mod Exclusion
use rebecca_reseller_bot.Prelude.{
  ℕ, ◌+◌, ◌*◌, Bool, true, false, ◌&&◌, not, List, [], ◌∷◌, ◌++◌, any, select, leb, if◌then◌else◌,
}
use rebecca_reseller_bot.Prelude.Text.{Text, teq}
use rebecca_reseller_bot.Prelude.Time.{Instant, second}
use rebecca_reseller_bot.Database.Models.{LifecycleLock, Database}
use rebecca_reseller_bot.Database.Session.{Session, write, rollback}

-- `DELETE … WHERE key = :key AND expires_at <= :now`
unfoldable pub purge : Text → Instant → List LifecycleLock → List LifecycleLock
purge key now = select (λ lock. not (teq lock.key key && leb lock.expires_at now))

-- The unique key of the table.
unfoldable pub holds : Text → List LifecycleLock → Bool
holds key = any (λ lock. teq lock.key key)

unfoldable pub with_locks : List LifecycleLock → Database → Database
with_locks locks db = record db { lifecycle_locks = locks }

unfoldable pub new_lock : Text → Instant → ℕ → LifecycleLock
new_lock key now ttl_seconds = record {
  key = key;
  acquired_at = now;
  expires_at = now + ttl_seconds * second;
}

-- `acquire`: where the insertion breaks the unique key, the whole session is rolled back.
unfoldable pub acquire : Text → ℕ → Instant → Session → Bool × Session
acquire key ttl_seconds now s =
    let rest = purge key now s.written.lifecycle_locks in
    if holds key rest
    then (false, rollback s)
    else (true, write (with_locks (rest ++ (new_lock key now ttl_seconds ∷ []))) s)

unfoldable pub release : Text → Session → Session
release key s =
    write (with_locks (select (λ lock. not (teq lock.key key)) s.written.lifecycle_locks)) s
