-- ===== src/Instant.antt =====
-- time.Time of Go's standard library as the packages use it: an instant is the number of
-- nanoseconds since the second whose Unix number is -2^63, so every int64 Unix second is covered.
-- A time is kept in UTC with no monotonic part, so `Round(0).UTC()` leaves it alone.
use guard_daemon.Prelude.{ℕ, ◌+◌, ◌-◌, ◌*◌, ◌/◌, ◌%◌, ◌^◌, ◌<◌, ◌≢◌, Bool, ◌==◌}

abbrev pub second : ℕ
second = 1_000_000_000

-- The zero `time.Time`, 1 January of year 1.
abbrev pub zero_time : ℕ
zero_time = (2 ^ 63 - 62135596800) * second

abbrev pub is_zero : ℕ → Bool
is_zero t = t == zero_time

-- `Unix() + 2^63`.
abbrev pub biased_unix : ℕ → ℕ
biased_unix t = t / second

-- `uint64(value.Unix())`.
abbrev pub unix_word : ℕ → ℕ
unix_word t = (t / second + 2 ^ 63) % 2 ^ 64

abbrev pub nanosecond : ℕ → ℕ
nanosecond t = t % second

-- `time.Unix(int64(seconds), nanoseconds)`.
abbrev pub unix : ℕ → ℕ → ℕ
unix seconds nanoseconds = (seconds + 2 ^ 63) % 2 ^ 64 * second + nanoseconds

abbrev pub IsInstant : ℕ → Type 0
IsInstant t = t < 2 ^ 64 * second

-- An instant whose record form is not that of the zero time: any but the Unix epoch itself.
abbrev pub IsStamp : ℕ → Type 0
IsStamp t = IsInstant t × (t ≢ 2 ^ 63 * second)
