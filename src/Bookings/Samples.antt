-- ===== src/Bookings/Samples.antt =====
-- A small club for the runs of src/bookings/bookings.service.ts: one court, two slots of it, and
-- bookings in several states.
use padel_bot_api.Prelude.{ℕ, ◌+◌, ◌*◌, false, Option, none, some, List, [], ◌∷◌}
use padel_bot_api.Prelude.Text.{codes}
use padel_bot_api.Bookings.Model.{
  Db, Slot, SlotStatus, Booking, BookingStatus, Club, DepositMode, VerificationMode,
  PlayerRescheduleMode, Court,
}
use padel_bot_api.Bookings.Lifecycle.{Env, blank_booking}

abbrev pub env : Env
env = record {
  clock = record { weekday = λ t. 1; wall_time = λ t. []; to_utc = λ t. t };
  now = 100;
  payment_window_ms = 1800000;
  no_show_full_threshold = 3;
}

abbrev pub club : Club
club = record {
  id = 1;
  deposit_mode = DepositMode.no_deposit;
  deposit_percent = none;
  require_dni_match = false;
  verification_mode = VerificationMode.auto;
  cancellation_window_hours = 24;
  player_reschedule = PlayerRescheduleMode.self;
  player_reschedule_cutoff_hours = none;
  max_player_reschedules = 1;
  mp_access_token = none;
  is_sales_demo = false;
}

abbrev pub court : Court
court = record {
  id = 5;
  club_id = 1;
  price_cents = 800000;
  price_rules = [];
  schedule = record {
    open_time = codes "08:00";
    close_time = codes "23:00";
    slot_duration_minutes = 90;
    weekly_hours = none;
  };
}

abbrev pub slot : ℕ → SlotStatus → Slot
slot i status = record {
  id = i;
  court_id = 5;
  club_id = 1;
  starts_at = 1000 * i;
  ends_at = 1000 * i + 500;
  price_cents = 800000;
  status = status;
}

-- A booking of a guest on a slot, that asks for an amount.
abbrev pub booking : ℕ → ℕ → BookingStatus → Option ℕ → Booking
booking i s status amount = record (blank_booking i 50 s 1 (codes "Ana") none none none) {
  status = status;
  transfer_amount_cents = amount;
  payment_expires_at = some 90;
}

abbrev pub db_of : List Slot → List Booking → Db
db_of slots bookings = record {
  slots = slots;
  bookings = bookings;
  players = [];
  clubs = club ∷ [];
  courts = court ∷ [];
  recurring = [];
  receipts = [];
  payments = [];
  products = [];
  kiosk = record { products = []; movements = []; sales = [] };
  events = [];
}
