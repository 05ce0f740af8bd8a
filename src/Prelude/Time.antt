-- ===== src/Prelude/Time.antt =====
-- An instant is the number of nanoseconds since the start of year 1 (UTC), Go's zero time, so
-- that `IsZero` is `t == 0`. A duration is a number of nanoseconds. Whole seconds, the form that
-- the database stores, count from the same start: they are Unix seconds plus 62135596800.
use Prim.Native.Nat.{ℕ, ◌/◌}

abbrev pub nanos : ℕ
nanos = 1_000_000_000

abbrev pub millisecond : ℕ
millisecond = 1_000_000

abbrev pub second : ℕ
second = nanos

abbrev pub minute : ℕ
minute = 60_000_000_000

abbrev pub hour : ℕ
hour = 3_600_000_000_000

-- `t.Unix()`, which rounds down.
abbrev pub unix : ℕ → ℕ
unix t = t / nanos
