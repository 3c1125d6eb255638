-- ===== src/Prelude/Clock.antt =====
-- Instants and durations of Go's package time. An instant is the number of nanoseconds since
-- the zero `time.Time`, which is January 1 of year 1, 00:00 UTC; so the zero instant is 0.
-- Durations that the program compares with are never negative.
use Prim.Native.Nat.{ℕ, ◌+◌, ◌-◌, ◌*◌, ◌/◌}
use mathlib.Core.Bool.{Bool}
use vibemonitor.Prelude.Tests.{ltb, leb, ◌==◌}

abbrev pub millisecond : ℕ
millisecond = 1000000

abbrev pub second : ℕ
second = 1000000000

abbrev pub minute : ℕ
minute = 60 * second

abbrev pub hour : ℕ
hour = 60 * minute

abbrev pub day : ℕ
day = 24 * hour

-- `t.IsZero()`
abbrev pub is_zero : ℕ → Bool
is_zero t = t == 0

-- `a.Before(b)`, and `a.After(b)` with its arguments in that order
abbrev pub before : ℕ → ℕ → Bool
before a b = ltb a b

abbrev pub after : ℕ → ℕ → Bool
after a b = ltb b a

-- `now.Sub(then) < d` and `now.Sub(then) >= d`, for d ≥ 0: the difference may be negative
abbrev pub sub_lt : ℕ → ℕ → ℕ → Bool
sub_lt now then_at d = ltb now (then_at + d)

abbrev pub sub_ge : ℕ → ℕ → ℕ → Bool
sub_ge now then_at d = leb (then_at + d) now

-- The seconds from the zero `time.Time` to the Unix epoch, and `t.Unix()` from then on.
abbrev pub epoch_seconds : ℕ
epoch_seconds = 62135596800

abbrev pub unix : ℕ → ℕ
unix t = t / second - epoch_seconds

-- `time.Unix(s, 0)`
abbrev pub of_unix : ℕ → ℕ
of_unix s = (s + epoch_seconds) * second
