-- ===== src/Schedule/Format.antt =====
-- Wall-clock times as text and as minutes.
use padel_bot_api.Prelude.{ℕ, ◌%◌, ◌≡◌, true, arith}
use padel_bot_api.Schedule.{minutes_of, format_minutes, is_valid_hhmm}

-- The minutes of a time that was formatted are those of the day that it falls on, and the text is a
-- valid "HH:MM".
pub minutes_of-format_minutes :
    (n : ℕ) → (minutes_of (format_minutes n) ≡ n % 1440) × (is_valid_hhmm (format_minutes n) ≡ true)
unfolding minutes_of format_minutes is_valid_hhmm
minutes_of-format_minutes n = (ground arith, ground arith)
