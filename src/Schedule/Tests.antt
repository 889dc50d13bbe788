-- ===== src/Schedule/Tests.antt =====
-- Runs of the schedule, and instances of its theorems.
use padel_bot_api.Prelude.{◌≡◌, refl, true, arith, length}
use padel_bot_api.Prelude.Text.{codes}
use padel_bot_api.Schedule.{
  minutes_of, format_minutes, is_valid_hhmm, generate_bands, bands_from, close_minutes,
}
use padel_bot_api.Schedule.Format.{minutes_of-format_minutes}
use padel_bot_api.Schedule.Tiling.{Tiles, generate_bands-Tiles}

minutes_of-format_minutes_example :
    (minutes_of (format_minutes 1470) ≡ 30) × (is_valid_hhmm (format_minutes 1470) ≡ true)
minutes_of-format_minutes_example = minutes_of-format_minutes 1470

-- From 22:00 to one in the morning, two bands of 90 minutes.
generate_bands-Tiles_example :
    Tiles
      (minutes_of (codes "22:00"))
      90
      (close_minutes (codes "22:00") (codes "01:00"))
      (generate_bands (codes "22:00") (codes "01:00") 90)
generate_bands-Tiles_example = generate_bands-Tiles (codes "22:00") (codes "01:00") 90 (omega arith)

late_bands : length (generate_bands (codes "22:00") (codes "01:00") 90) ≡ 2
unfolding generate_bands close_minutes minutes_of bands_from
late_bands = refl
