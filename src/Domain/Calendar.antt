-- ===== src/Domain/Calendar.antt =====
-- What the program asks of package `time`. An instant is the number of nanoseconds since the
-- zero time of Go, in UTC.
use Prim.Native.Nat.{ℕ, ◌+◌, ◌-◌, ◌*◌}
use rune_mcp.Prelude.{Option}
use rune_mcp.Prelude.Int.{ℤ, pos, negsuc}
use rune_mcp.Prelude.Text.{Text}

abbrev pub Time : Type 0
Time = ℕ

pub record Calendar : Type 0 where
  pub date : Time → Text  -- Format("2006-01-02")
  pub rfc3339 : Time → Text  -- Format(time.RFC3339)
  pub parse_rfc3339 : Text → Option Time  -- time.Parse(time.RFC3339, s)

abbrev pub hour : ℕ
hour = 3600 * 1000000000

abbrev pub day : ℕ
day = 24 * hour

abbrev pub second : ℕ
second = 1000000000

-- `time.Unix(sec, 0)`: 62135596800 seconds lie between the zero time and 1970. A time before the
-- zero time is taken to be the zero time.
abbrev pub unix_time : ℤ → Time
unix_time (pos n) = (62135596800 + n) * second
unix_time (negsuc n) = (62135596799 - n) * second
