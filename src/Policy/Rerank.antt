-- ===== src/Policy/Rerank.antt =====
-- internal/policy/rerank.go: the weight of a hit's age and status, and the filter by age.
use rune_mcp.Prelude.{
  ℕ, ◌-◌, ◌*◌, ◌/◌, min, Bool, false, not, Option, none, some, List, map, keep, ltb, if◌then◌else◌,
}
use rune_mcp.Prelude.Float.{Float, fgt, fone}
use rune_mcp.Prelude.Json.{as_float, as_string, get}
use rune_mcp.Prelude.Sort.{sort_stable}
use rune_mcp.Prelude.Text.{Text, codes, teq}
use rune_mcp.Domain.Calendar.{Calendar, Time, day, unix_time}
use rune_mcp.Domain.Query.{SearchHit, TimeScope}

-- TimeRanges
abbrev pub time_range : TimeScope → Option ℕ
time_range TimeScope.last_week = some (7 * day)
time_range TimeScope.last_month = some (30 * day)
time_range TimeScope.last_quarter = some (90 * day)
time_range TimeScope.last_year = some (365 * day)
time_range TimeScope.all_time = none

-- A `time.Duration` is at most 2^63 - 1 nanoseconds: so many whole days.
abbrev max_days : ℕ
max_days = 106751

module _ ⦃fl : Float⦄ where
  -- StatusMultiplier
  unfoldable pub status_multiplier : Text → fl.F
  status_multiplier s =
      if teq s (codes "accepted")
      then fone
      else if teq s (codes "proposed")
      then fl.lit 9 1
      else if teq s (codes "superseded")
      then fl.lit 5 1
      else if teq s (codes "reverted")
      then fl.lit 3 1
      else fone

  module _ ⦃cal : Calendar⦄ where
    abbrev unix_of : Option fl.F → Option Time
    unix_of none = none
    unix_of (some x) = some (unix_time (fl.trunc x))

    abbrev parsed_or_unix : Option Text → Option fl.F → Option Time
    parsed_or_unix (some s) n = cal.parse_rfc3339 s
    parsed_or_unix none n = unix_of n

    -- The hit's time, if its timestamp is a valid string or a number.
    unfoldable pub timestamp : SearchHit fl.F → Option Time
    timestamp h =
        let v = get h.metadata (codes "timestamp") in parsed_or_unix (as_string v) (as_float v)

    -- The whole days up to `now`, 0 for a time to come.
    abbrev pub age_days : Option Time → Time → ℕ
    age_days none now = 0
    age_days (some ts) now = min ((now - ts) / day) max_days

    unfoldable pub weighted_score : Time → SearchHit fl.F → fl.F
    unfolding status_multiplier timestamp
    weighted_score now h =
        let decay =
          fl.pow (fl.lit 5 1) (fl.div (fl.lit (age_days (timestamp h) now) 0) (fl.lit 90 0)) in
        fl.mul (fl.add (fl.mul (fl.lit 7 1) h.score) (fl.mul (fl.lit 3 1) decay))
          (status_multiplier h.status)

    abbrev pub weigh : Time → SearchHit fl.F → SearchHit fl.F
    weigh now h = record h { adjusted_score = weighted_score now h }

    abbrev pub by_adjusted : SearchHit fl.F → SearchHit fl.F → Bool
    by_adjusted h k = fgt h.adjusted_score k.adjusted_score

    -- ApplyRecencyWeighting
    unfoldable pub apply_recency_weighting : List (SearchHit fl.F) → Time → List (SearchHit fl.F)
    unfolding weighted_score
    apply_recency_weighting hits now = sort_stable by_adjusted (map (weigh now) hits)

    abbrev before : Option Time → Time → Bool
    before none cutoff = false
    before (some ts) cutoff = ltb ts cutoff

    abbrev pub is_recent : ℕ → Time → SearchHit fl.F → Bool
    is_recent range now h = not (before (timestamp h) (now - range))

    abbrev pub keep_recent : Option ℕ → List (SearchHit fl.F) → Time → List (SearchHit fl.F)
    keep_recent none hits now = hits
    keep_recent (some range) hits now = keep (is_recent range now) hits

    -- FilterByTime
    unfoldable pub filter_by_time : List (SearchHit fl.F) → TimeScope → Time → List (SearchHit fl.F)
    unfolding timestamp
    filter_by_time hits scope now = keep_recent (time_range scope) hits now
