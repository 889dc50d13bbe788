-- ===== src/Recurring/Weeks.antt =====
-- `nextOccurrences`: the weeks that a turno fijo takes a band of. Days are numbers since 1970-01-01.
pub mod Calendar
use padel_bot_api.Prelude.{
  ℕ, zero, suc, ◌+◌, ◌-◌, ◌%◌, Bool, false, Option, none, some, List, [], ◌∷◌, map, ltb,
  if◌then◌else◌,
}
use padel_bot_api.Schedule.{ScheduleBand, band_date_times, weekday_of_key}

abbrev pub weeks_ahead : ℕ
weeks_ahead = 8

abbrev pub max_weeks_ahead : ℕ
max_weeks_ahead = 104

pub record Occurrence : Type 0 where
  pub starts_at : ℕ
  pub ends_at : ℕ

-- `untilKey && cursorKey > untilKey`
abbrev pub is_past : Option ℕ → ℕ → Bool
is_past none cursor = false
is_past (some until) cursor = ltb until cursor

unfoldable pub occurrence_on : (ℕ → ℕ) → ScheduleBand → ℕ → Occurrence
occurrence_on to_utc band date_key =
    let (starts_at, ends_at) = band_date_times to_utc date_key band in
    record { starts_at = starts_at; ends_at = ends_at }

-- The days that the loop visits.
unfoldable pub days_from : ℕ → Option ℕ → ℕ → List ℕ
days_from zero until cursor = []
days_from (suc n) until cursor =
    let rest = days_from n until (cursor + 7) in if is_past until cursor then [] else cursor ∷ rest

-- `(targetDay - todayDay + 7) % 7`
abbrev pub days_until : ℕ → ℕ → ℕ
days_until target today = (target + 7 - weekday_of_key today) % 7

abbrev pub max_iterations : Option ℕ → ℕ
max_iterations none = weeks_ahead
max_iterations (some until) = max_weeks_ahead

unfoldable pub next_days : ℕ → ℕ → Option ℕ → List ℕ
next_days target today until =
    days_from (max_iterations until) until (today + days_until target today)

-- `nextOccurrences`
unfoldable pub next_occurrences : (ℕ → ℕ) → ℕ → ScheduleBand → Option ℕ → ℕ → List Occurrence
next_occurrences to_utc target band until today =
    map (occurrence_on to_utc band) (next_days target today until)
