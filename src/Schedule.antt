-- ===== src/Schedule.antt =====
-- src/availability/lib/schedule.ts and the calendar half of src/availability/lib/datetime.ts: the
-- bands of a court on a day. A date key is the number of days since 1970-01-01, as `Date.UTC` counts
-- them; a time is its "HH:MM" text. The club's time zone (`Intl`) is the argument `to_utc`, which
-- takes a wall-clock time written as if it were UTC to its instant.
pub mod Format
pub mod Tiling
pub mod Tests
use padel_bot_api.Prelude.{
  ℕ, zero, suc, ◌+◌, ◌-◌, ◌*◌, ◌/◌, ◌%◌, Bool, false, ◌&&◌, ◌||◌, Option, none, some, List, [], ◌∷◌,
  ◌++◌, leb, ◌==◌, if◌then◌else◌, find_first,
}
use padel_bot_api.Prelude.Text.{Text, text_eq}

pub record ScheduleBand : Type 0 where
  pub start : Text
  pub end : Text
  pub start_offset : ℕ
  pub end_offset : ℕ

pub record DayHours : Type 0 where
  pub opens : Text
  pub closes : Text

-- The weekly hours are an association list; a day that is mapped to `none` is closed.
pub record CourtSchedule : Type 0 where
  pub open_time : Text
  pub close_time : Text
  pub slot_duration_minutes : ℕ
  pub weekly_hours : Option (List (ℕ × Option DayHours))

abbrev colon : ℕ
colon = 58

abbrev is_digit : ℕ → Bool
is_digit c = leb 48 c && leb c 57

-- `Number` of a text of digits, after `n`.
abbrev pub number_from : ℕ → Text → ℕ
number_from n [] = n
number_from n (c ∷ cs) = number_from (n * 10 + (c - 48)) cs

-- The part before the first colon and the part after it.
abbrev pub split_colon : Text → Text × Text
split_colon [] = ([], [])
split_colon (c ∷ cs) = if c == colon then ([], cs) else (let (h, m) = split_colon cs in (c ∷ h, m))

unfoldable pub minutes_of : Text → ℕ
minutes_of hhmm = let (h, m) = split_colon hhmm in number_from 0 h * 60 + number_from 0 m

-- `HHMM_RE`: hours 00 to 23, minutes 00 to 59.
unfoldable pub is_valid_hhmm : Text → Bool
is_valid_hhmm (a ∷ b ∷ c ∷ d ∷ e ∷ []) =
    (((a == 48) || (a == 49)) && is_digit b || (a == 50) && leb 48 b && leb b 51)
    && (c == colon)
    && leb 48 d
    && leb d 53
    && is_digit e
is_valid_hhmm _ = false

abbrev pub pad2 : ℕ → Text
pad2 n = (48 + n / 10) ∷ (48 + n % 10) ∷ []

unfoldable pub format_minutes : ℕ → Text
format_minutes total_minutes =
    let in_day = total_minutes % 1440 in pad2 (in_day / 60) ++ colon ∷ pad2 (in_day % 60)

abbrev pub band_at : ℕ → ℕ → ScheduleBand
band_at cursor next = record {
  start = format_minutes cursor;
  end = format_minutes next;
  start_offset = cursor / 1440;
  end_offset = next / 1440;
}

-- The loop of `generateBands`. Each round moves the cursor, so `close` rounds are enough.
unfoldable pub bands_from : ℕ → ℕ → ℕ → ℕ → List ScheduleBand
bands_from zero cursor close duration = []
bands_from (suc fuel) cursor close duration =
    let rest = bands_from fuel (cursor + duration) close duration in
    if leb (cursor + duration) close then band_at cursor (cursor + duration) ∷ rest else []

-- A close that is not after the open is on the next day.
unfoldable pub close_minutes : Text → Text → ℕ
close_minutes open_time close_time =
    if leb (minutes_of close_time) (minutes_of open_time)
    then minutes_of close_time + 1440
    else minutes_of close_time

unfoldable pub generate_bands : Text → Text → ℕ → List ScheduleBand
generate_bands open_time close_time duration =
    let close = close_minutes open_time close_time in
    bands_from (suc close) (minutes_of open_time) close duration

abbrev pub find_day : ℕ → List (ℕ × Option DayHours) → Option (Option DayHours)
find_day weekday [] = none
find_day weekday ((d, hours) ∷ rest) = if d == weekday then some hours else find_day weekday rest

abbrev weekly_day : ℕ → Option (List (ℕ × Option DayHours)) → Option (Option DayHours)
weekly_day weekday none = none
weekly_day weekday (some w) = find_day weekday w

unfoldable pub hours_for_weekday : CourtSchedule → ℕ → Option DayHours
hours_for_weekday court weekday = elim (weekly_day weekday court.weekly_hours) [
  | some hours ↦ hours
  | none ↦ some (record { opens = court.open_time; closes = court.close_time })
]

unfoldable pub bands_for_weekday : CourtSchedule → ℕ → List ScheduleBand
bands_for_weekday court weekday = elim (hours_for_weekday court weekday) [
  | none ↦ []
  | some h ↦ generate_bands h.opens h.closes court.slot_duration_minutes
]

-- `weekdayOfKey`: 1970-01-01 was a Thursday.
abbrev pub weekday_of_key : ℕ → ℕ
weekday_of_key date_key = (date_key + 4) % 7

unfoldable pub bands_for_date : CourtSchedule → ℕ → List ScheduleBand
bands_for_date court date_key = bands_for_weekday court (weekday_of_key date_key)

unfoldable pub find_band_in_schedule : List ScheduleBand → Text → Option ScheduleBand
find_band_in_schedule bands start = find_first (λ b. text_eq b.start start) bands

unfoldable pub band_sort_minutes : ScheduleBand → ℕ
band_sort_minutes band = band.start_offset * 1440 + minutes_of band.start

abbrev pub minute_ms : ℕ
minute_ms = 60000

-- `wallTimeToUtc`
abbrev pub wall_time_to_utc : (ℕ → ℕ) → ℕ → Text → ℕ
wall_time_to_utc to_utc date_key hhmm = to_utc ((date_key * 1440 + minutes_of hhmm) * minute_ms)

-- `bandDateTimes`: the instants where a band starts and ends.
unfoldable pub band_date_times : (ℕ → ℕ) → ℕ → ScheduleBand → ℕ × ℕ
band_date_times to_utc date_key band = (
  wall_time_to_utc to_utc (date_key + band.start_offset) band.start,
  wall_time_to_utc to_utc (date_key + band.end_offset) band.end,
)
