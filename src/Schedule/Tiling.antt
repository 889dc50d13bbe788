-- ===== src/Schedule/Tiling.antt =====
-- The bands of a day lie end to end.
use padel_bot_api.Prelude.{
  ℕ, zero, suc, ◌+◌, ◌*◌, ◌/◌, ◌≤◌, ◌<◌, ◌≡◌, inl, inr, List, [], ◌∷◌, arith, leb, Bool-cases,
}
use padel_bot_api.Prelude.Text.{Text}
use padel_bot_api.Schedule.{
  ScheduleBand, generate_bands, bands_from, close_minutes, minutes_of, band_sort_minutes,
  format_minutes,
}
use padel_bot_api.Schedule.Format.{minutes_of-format_minutes}

-- The end of a band, in minutes since the midnight that the day's grid begins with.
abbrev pub band_end_minutes : ScheduleBand → ℕ
band_end_minutes band = band.end_offset * 1440 + minutes_of band.end

-- The bands fill the hours from `cursor` end to end, each `duration` long, none after `close`, and
-- no further one fits.
abbrev pub Tiles : ℕ → ℕ → ℕ → List ScheduleBand → Type 0
Tiles cursor duration close [] = close < cursor + duration
Tiles cursor duration close (b ∷ bs) =
    (band_sort_minutes b ≡ cursor)
    × (band_end_minutes b ≡ cursor + duration)
    × (cursor + duration ≤ close)
    × Tiles (cursor + duration) duration close bs

offset_minutes : (n : ℕ) → n / 1440 * 1440 + minutes_of (format_minutes n) ≡ n
offset_minutes n = omega (arith, (minutes_of-format_minutes n).0)

bands_from-Tiles :
    (fuel cursor close duration : ℕ)
    → 1 ≤ duration
    → close < fuel + cursor + duration
    → Tiles cursor duration close (bands_from fuel cursor close duration)
unfolding bands_from band_sort_minutes
bands_from-Tiles zero cursor close duration h enough = omega arith
bands_from-Tiles (suc fuel) cursor close duration h enough =
    elim (Bool-cases (leb (cursor + duration) close)) [
      | inl e ↦ rw e (
        offset_minutes cursor,
        offset_minutes (cursor + duration),
        ground arith,
        bands_from-Tiles fuel (cursor + duration) close duration h (omega arith),
      )
      | inr e ↦ rw e (ground arith)
    ]

-- For a duration of at least a minute, the bands of `generateBands` fill the opening hours from the
-- opening end to end, also past midnight, none ends after the close, and no further one fits.
pub generate_bands-Tiles :
    (open_time close_time : Text) (duration : ℕ)
    → 1 ≤ duration
    → Tiles
        (minutes_of open_time)
        duration
        (close_minutes open_time close_time)
        (generate_bands open_time close_time duration)
unfolding generate_bands
generate_bands-Tiles open_time close_time duration h =
    bands_from-Tiles (suc (close_minutes open_time close_time)) (minutes_of open_time)
      (close_minutes open_time close_time) duration h (omega arith)
