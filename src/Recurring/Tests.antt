-- ===== src/Recurring/Tests.antt =====
-- A turno fijo of a small club.
use padel_bot_api.Prelude.{◌+◌, ◌/◌, ◌≡◌, refl, ◌↔◌, true, none, some, [], ◌∷◌, arith}
use padel_bot_api.Prelude.Table.{find}
use padel_bot_api.Prelude.Text.{codes}
use padel_bot_api.Schedule.{ScheduleBand}
use padel_bot_api.Bookings.Model.{Db, SlotStatus, slot_keyed, booking_keyed}
use padel_bot_api.Bookings.Courts.{view, IsSafe}
use padel_bot_api.Recurring.Apply.Takes.{TakesTo}
use padel_bot_api.Bookings.Samples.{env, slot, db_of}
use padel_bot_api.Recurring.Weeks.{next_days, days_from}
use padel_bot_api.Recurring.Weeks.Calendar.{has, IsTurnoDay, next_days_iff}
use padel_bot_api.Recurring.Apply.{FijoEnv, FijoDto, apply_for_weeks_ahead}
use padel_bot_api.Recurring.Apply.Safety.{IsFreshEnv, apply_for_weeks_ahead-TakesTo}

-- Day 20000 is a Friday; the Tuesdays from it on, up to day 20017.
tuesdays : next_days 2 20000 (some 20017) ≡ 20004 ∷ 20011 ∷ []
unfolding next_days days_from
tuesdays = refl

next_days_iff_example :
    (has 20011 (next_days 2 20000 (some 20017)) ≡ true) ↔ IsTurnoDay 2 20000 (some 20017) 20011
next_days_iff_example = next_days_iff 2 20000 (some 20017) 20011 (omega arith)

abbrev fijo_env : FijoEnv
fijo_env = record {
  env = env;
  today = 20000;
  date_key_of = λ t. t / 86400000;
  fresh_slot = λ t. t + 1000;
  fresh_booking = λ s. s + 1000;
}

abbrev fijo : FijoDto
fijo = record {
  court_id = 5;
  day_of_week = 2;
  player_name = codes "Ana";
  player_phone = codes "351555";
  price_cents = 700000;
}

abbrev band : ScheduleBand
band = record { start = codes "18:00"; end = codes "19:30"; start_offset = 0; end_offset = 0 }

abbrev two_slots : Db
two_slots = db_of (slot 1 SlotStatus.available ∷ slot 2 SlotStatus.available ∷ []) []

fijo_env-IsFreshEnv : IsFreshEnv fijo_env two_slots
unfolding find
fijo_env-IsFreshEnv = record {
  slots = λ t. ground arith;
  bookings = λ s. refl;
  slot_inj = λ a b h. omega arith;
  booking_inj = λ a b h. omega arith;
  zone = λ x y h. h;
}

apply_for_weeks_ahead-TakesTo_example :
    TakesTo (view (apply_for_weeks_ahead fijo_env 1 8 fijo band none two_slots).1) (view two_slots)
    × (IsSafe (view two_slots)
        → IsSafe (view (apply_for_weeks_ahead fijo_env 1 8 fijo band none two_slots).1))
apply_for_weeks_ahead-TakesTo_example =
    apply_for_weeks_ahead-TakesTo fijo_env 1 8 fijo band none two_slots fijo_env-IsFreshEnv
