-- ===== src/Database/Locks/Exclusion.antt =====
-- Who can take a lock, and for how long it keeps others out.
use rebecca_reseller_bot.Prelude.{
  ℕ, ◌+◌, ◌*◌, ◌<◌, ◌≡◌, refl, ap, Bool, true, false, ◌&&◌, not, List, [], ◌∷◌, ◌++◌, any, select,
  ltb, arith, Bool-cases, inl, inr, if◌then◌else◌,
}
use rebecca_reseller_bot.Prelude.Text.{Text, teq, teq_refl}
use rebecca_reseller_bot.Prelude.Time.{Instant, second}
use rebecca_reseller_bot.Database.Models.{LifecycleLock}
use rebecca_reseller_bot.Database.Session.{Session, commit, rollback, write}
use rebecca_reseller_bot.Database.Locks.{purge, holds, with_locks, new_lock, acquire, release}

-- A lock of that key that has not expired.
abbrev pub is_live : Text → Instant → LifecycleLock → Bool
is_live key now lock = teq lock.key key && ltb now lock.expires_at

holds-purge :
    (key : Text) (now : Instant) (locks : List LifecycleLock)
    → holds key (purge key now locks) ≡ any (is_live key now) locks
unfolding holds purge
holds-purge key now [] = refl
holds-purge key now (lock ∷ locks) = ground (arith, holds-purge key now locks)

-- `acquire` succeeds exactly if the session sees no lock of that key that is still valid. If it
-- fails, every write of the session since its last commit is lost; if it succeeds, the locks are those
-- before, less the expired ones of that key, and the new one.
pub acquire_lem :
    (key : Text) (ttl : ℕ) (now : Instant) (s : Session)
    → let locks = s.written.lifecycle_locks in
      acquire key ttl now s ≡ (
        if any (is_live key now) locks
        then (false, rollback s)
        else (true, write (with_locks (purge key now locks ++ (new_lock key now ttl ∷ []))) s))
unfolding acquire
acquire_lem key ttl now s = rw holds-purge refl

any-append_last :
    (p : LifecycleLock → Bool) (locks : List LifecycleLock) (lock : LifecycleLock)
    → p lock ≡ true
    → any p (locks ++ (lock ∷ [])) ≡ true
any-append_last p [] lock h = rw h refl
any-append_last p (l ∷ locks) lock h = ground (arith, any-append_last p locks lock h)

-- Each of these calls of `acquire` for the key, one after another in the session, with its time to live and
-- its time, returns false.
pub Refused : Text → List (ℕ × Instant) → Session → Type 0
Refused key [] s = Unit
Refused key ((ttl, later) ∷ calls) s =
    ((acquire key ttl later s).0 ≡ false) × Refused key calls (acquire key ttl later s).1

-- All the calls are before the time.
abbrev pub Before : Instant → List (ℕ × Instant) → Type 0
Before expiry [] = Unit
Before expiry ((ttl, later) ∷ calls) = (later < expiry) × Before expiry calls

-- A committed lock of the key that is there until the time.
abbrev Committed : Text → Instant → Session → Type 0
Committed key expiry s =
    (later : Instant)
    → later < expiry
    → (any (is_live key later) s.written.lifecycle_locks ≡ true)
      × (any (is_live key later) s.committed.lifecycle_locks ≡ true)

refused_while_live :
    (key : Text) (ttl : ℕ) (now : Instant) (s : Session)
    → any (is_live key now) s.written.lifecycle_locks ≡ true
    → acquire key ttl now s ≡ (false, rollback s)
refused_while_live key ttl now s h = rw (acquire_lem key ttl now s, h) refl

Refused-all :
    (key : Text) (expiry : Instant) (calls : List (ℕ × Instant)) (s : Session)
    → Committed key expiry s
    → Before expiry calls
    → Refused key calls s
unfolding Refused
Refused-all key expiry [] s live before = tt
Refused-all key expiry ((ttl, later) ∷ calls) s live (early, before) =
    let refused = refused_while_live key ttl later s (live later early).0 in
    (
      ap (λ x. x.0) refused,
      rw refused
          (Refused-all key expiry calls (rollback s) (λ t h. ((live t h).1, (live t h).1)) before),
    )

new_lock-live :
    (key : Text) (ttl : ℕ) (now later : Instant) (s : Session)
    → (acquire key ttl now s).0 ≡ true
    → later < now + ttl * second
    → any (is_live key later) (acquire key ttl now s).1.written.lifecycle_locks ≡ true
unfolding with_locks new_lock
new_lock-live key ttl now later s won valid =
    let locks = s.written.lifecycle_locks in
    let mine = new_lock key now ttl in
    let is_mine_live : is_live key later mine ≡ true = ground (arith, teq_refl key) in
    let present = any-append_last (is_live key later) (purge key now locks) mine is_mine_live in
    elim (Bool-cases (any (is_live key now) locks)) [
      | inl e ↦
          let lost : false ≡ true = rw e at (rw (acquire_lem key ttl now s) at won) in
          absurd (cc lost)
      | inr e ↦ rw (acquire_lem key ttl now s, e) present
    ]

-- While a lock that `acquire` has given is valid, the next `acquire` of its key fails; and once the lock is
-- committed, every one of any number of calls of `acquire` for its key fails, although each failure rolls the
-- session back.
pub acquire_excludes :
    (key : Text) (ttl ttl' : ℕ) (now later : Instant) (calls : List (ℕ × Instant)) (s : Session)
    → (acquire key ttl now s).0 ≡ true
    → later < now + ttl * second
    → Before (now + ttl * second) calls
    → let held = (acquire key ttl now s).1 in
      ((acquire key ttl' later held).0 ≡ false) × Refused key calls (commit held)
acquire_excludes key ttl ttl' now later calls s won valid before =
    let live = λ (t : Instant) (h : t < now + ttl * second). new_lock-live key ttl now t s won h in
    let held = (acquire key ttl now s).1 in
    (
      ap (λ x. x.0) (refused_while_live key ttl' later held (live later valid)),
      Refused-all key (now + ttl * second) calls (commit held) (λ t h. (live t h, live t h)) before,
    )

release-free :
    (key : Text) (now : Instant) (locks : List LifecycleLock)
    → any (is_live key now) (select (λ lock. not (teq lock.key key)) locks) ≡ false
release-free key now [] = refl
release-free key now (lock ∷ locks) = ground (arith, release-free key now locks)

-- Whoever calls `release`, the key is free afterwards: a holder whose lock has expired frees the lock
-- that another has taken since.
pub acquire-release :
    (key : Text) (ttl : ℕ) (now : Instant) (s : Session)
    → (acquire key ttl now (release key s)).0 ≡ true
unfolding release with_locks
acquire-release key ttl now s =
    rw (acquire_lem key ttl now (release key s))
      (rw (release-free key now s.written.lifecycle_locks) refl)
