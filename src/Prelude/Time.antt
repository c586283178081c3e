-- ===== src/Prelude/Time.antt =====
-- Instants and durations. An instant is the number of microseconds since the Unix epoch.
use Prim.Native.Nat.{ℕ, ◌*◌}

abbrev pub Instant : Type 0
Instant = ℕ

abbrev pub second : ℕ
second = 1000000

abbrev pub hour : ℕ
hour = 3600 * second

abbrev pub day : ℕ
day = 24 * hour
