-- ===== src/Availability/Tests.antt =====
-- A run of the offers of a day, and an instance of their theorem.
use padel_bot_api.Bookings.Model.{Slot, SlotStatus}
use padel_bot_api.Availability.Offers.{Offers}

-- A booked slot from 08:30 to 10:00 of the first day hides the first two bands of the court.
abbrev early : Slot
early = record {
  id = 1;
  court_id = 5;
  club_id = 1;
  starts_at = 30600000;
  ends_at = 36000000;
  price_cents = 0;
  status = SlotStatus.booked;
}
