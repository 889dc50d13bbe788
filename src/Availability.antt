-- ===== src/Availability.antt =====
-- src/availability/availability.service.ts, slotsForDate: the bands of a court that a player can book
-- on a day. Every band of the schedule is open unless a slot that is not available overlaps it.
pub mod Offers
pub mod Tests
use padel_bot_api.Prelude.{
  ℕ, ◌*◌, max, Bool, not, ◌&&◌, ◌||◌, Option, none, some, List, [], ◌∷◌, map, ltb, leb, ◌==◌,
  if◌then◌else◌, keep, any_of,
}
use padel_bot_api.Prelude.Text.{Text}
use padel_bot_api.Schedule.{
  ScheduleBand, bands_for_date, band_date_times, band_sort_minutes, weekday_of_key, minute_ms,
}
use padel_bot_api.Pricing.{resolve_band_price_cents}
use padel_bot_api.Bookings.Model.{Slot, Court, is_available}

pub record BandTime : Type 0 where
  pub band : ScheduleBand
  pub starts_at : ℕ
  pub ends_at : ℕ

-- `SlotOption`, without the label that is shown.
pub record SlotOption : Type 0 where
  pub band_start : Text
  pub slot_id : Option ℕ
  pub price_cents : ℕ
  pub sort_minutes : ℕ

abbrev pub time_of : (ℕ → ℕ) → ℕ → ScheduleBand → BandTime
time_of to_utc date_key band = record {
  band = band;
  starts_at = (band_date_times to_utc date_key band).0;
  ends_at = (band_date_times to_utc date_key band).1;
}

-- `Math.max(...ends)`
unfoldable pub last_end : List BandTime → ℕ
last_end [] = 0
last_end (t ∷ ts) = max t.ends_at (last_end ts)

-- The slots of the court that reach into the day, from its first midnight to the last band's end.
abbrev pub is_in_day : Court → ℕ → ℕ → Slot → Bool
is_in_day court day_start day_end s =
    (s.club_id == court.club_id)
    && (s.court_id == court.id)
    && ltb s.starts_at day_end
    && ltb day_start s.ends_at

-- Half-open: a slot that touches the edge does not block.
abbrev pub overlaps : BandTime → Slot → Bool
overlaps t s = ltb s.starts_at t.ends_at && ltb t.starts_at s.ends_at

abbrev pub is_blocking : BandTime → Slot → Bool
is_blocking t s = not (is_available s.status) && overlaps t s

-- `availableByStart.get`: a later row of the same start replaces an earlier one in the map.
abbrev pub available_at : ℕ → Option Slot → List Slot → Option Slot
available_at starts_at found [] = found
available_at starts_at found (s ∷ ss) =
    available_at starts_at
      (if is_available s.status && (s.starts_at == starts_at) then some s else found) ss

-- A row that is there keeps its price; a band without one has that of the price list.
unfoldable pub option_for : Court → ℕ → BandTime → Option Slot → SlotOption
option_for court date_key t (some s) = record {
  band_start = t.band.start;
  slot_id = some s.id;
  price_cents = s.price_cents;
  sort_minutes = band_sort_minutes t.band;
}
option_for court date_key t none = record {
  band_start = t.band.start;
  slot_id = none;
  price_cents =
      resolve_band_price_cents court.price_cents court.price_rules (weekday_of_key date_key)
        t.band.start;
  sort_minutes = band_sort_minutes t.band;
}

-- The loop over the bands: one that has begun or is blocked is left out.
unfoldable pub options_from : Court → ℕ → ℕ → List Slot → List BandTime → List SlotOption
options_from court now date_key existing [] = []
options_from court now date_key existing (t ∷ ts) =
    let rest = options_from court now date_key existing ts in
    if leb t.starts_at now || any_of (is_blocking t) existing
    then rest
    else option_for court date_key t (available_at t.starts_at none existing) ∷ rest

unfoldable pub slots_for_date : (ℕ → ℕ) → ℕ → ℕ → Court → List Slot → List SlotOption
slots_for_date to_utc now date_key court slots =
    let times = map (time_of to_utc date_key) (bands_for_date court.schedule date_key) in
    options_from court now date_key
      (keep (is_in_day court (to_utc (date_key * 1440 * minute_ms)) (last_end times)) slots) times
