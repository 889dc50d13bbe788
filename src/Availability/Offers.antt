-- ===== src/Availability/Offers.antt =====
-- What is offered is what is open.
use padel_bot_api.Prelude.{ℕ, ◌≤◌, ◌<◌, ◌≡◌, ◌⊎◌, true, none, some, List, [], ◌∷◌, All}
use padel_bot_api.Schedule.{band_sort_minutes, weekday_of_key}
use padel_bot_api.Pricing.{resolve_band_price_cents}
use padel_bot_api.Bookings.Model.{Slot, Court, is_available}
use padel_bot_api.Availability.{BandTime, SlotOption, overlaps}

-- The band of an offer: it begins after now, and every slot of the court that overlaps it is on sale.
abbrev pub IsOpen : Court → ℕ → List Slot → BandTime → Type 0
IsOpen court now slots t =
    (now < t.starts_at)
    × All
        (λ s.
          s.club_id ≡ court.club_id
          → s.court_id ≡ court.id
          → overlaps t s ≡ true
          → is_available s.status ≡ true)
        slots

-- What `Math.max` gives is not before any of the ends, and every band is after the day's midnight.
abbrev IsWithin : ℕ → ℕ → BandTime → Type 0
IsWithin day_start day_end t = (day_start ≤ t.starts_at) × (t.ends_at ≤ day_end)

abbrev pub Includes : Slot → List Slot → Type 0
Includes s [] = ⊥
Includes s (r ∷ rs) = (r ≡ s) ⊎ Includes s rs

-- The offer has the time of the band, and the price of a slot of the court that is on sale at its
-- start, or that of the price list.
abbrev pub IsFor : Court → ℕ → List Slot → BandTime → SlotOption → Type 0
IsFor court date_key slots t o =
    (o.band_start ≡ t.band.start)
    × (o.sort_minutes ≡ band_sort_minutes t.band)
    × (((s : Slot) × Includes s slots
          × (is_available s.status ≡ true)
          × (s.court_id ≡ court.id)
          × (s.starts_at ≡ t.starts_at)
          × (o.slot_id ≡ some s.id)
          × (o.price_cents ≡ s.price_cents))
        ⊎ ((o.slot_id ≡ none)
            × (o.price_cents
                ≡ resolve_band_price_cents court.price_cents court.price_rules
                    (weekday_of_key date_key) t.band.start)))

-- The offers are those of the bands that are open, in their order.
pub data Offers (court : Court) (now date_key : ℕ) (slots : List Slot)
    : List BandTime → List SlotOption → Type 0 where
  no_bands : Offers court now date_key slots [] []
  offered :
      {t : BandTime} {o : SlotOption} {ts : List BandTime} {os : List SlotOption}
      → IsOpen court now slots t
      → IsFor court date_key slots t o
      → Offers court now date_key slots ts os
      → Offers court now date_key slots (t ∷ ts) (o ∷ os)
  left_out :
      {t : BandTime} {ts : List BandTime} {os : List SlotOption}
      → (IsOpen court now slots t → ⊥)
      → Offers court now date_key slots ts os
      → Offers court now date_key slots (t ∷ ts) os
