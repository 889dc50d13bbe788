-- ===== src/Recurring/Fijos.antt =====
-- The operations of the desk on turnos fijos.
use padel_bot_api.Prelude.{
  ℕ, Bool, true, false, not, ◌&&◌, Option, none, some, List, [], ◌∷◌, map, ltb, ◌==◌, if◌then◌else◌,
  or_else, length, keep,
}
use mathlib.Core.Option
use padel_bot_api.Prelude.Text.{Text, text_eq, codes}
use padel_bot_api.Prelude.Table.{find, rows, modify}
use padel_bot_api.Schedule.{
  ScheduleBand, bands_for_weekday, find_band_in_schedule, wall_time_to_utc,
}
use padel_bot_api.Bookings.Model.{
  Db, Slot, Booking, RecurringBooking, slot_keyed, booking_keyed, recurring_keyed, court_keyed,
}
use padel_bot_api.Bookings.Monad.{
  Action, ok, not_found, bad_request, pure, gets, or_raise, raise_if, ◌>>=◌, ◌>>◌, modify_db,
}
use padel_bot_api.Bookings.Repricing.{Clock, target_price_cents}
use padel_bot_api.Bookings.Bands.{find_court}
use padel_bot_api.Recurring.Apply.{FijoEnv, FijoDto, apply_for_weeks_ahead}

-- `findOne`
unfoldable pub find_fijo : ℕ → ℕ → Action RecurringBooking
find_fijo club_id i = do
  found ← gets (λ db. elim (find i db.recurring) [
    | none ↦ none
    | some r ↦ if r.club_id == club_id then some r else none
  ])
  or_raise found not_found

-- `assertValidSlotPair`
abbrev pub valid_pair : Text → Option ScheduleBand → Option ScheduleBand
valid_pair slot_end none = none
valid_pair slot_end (some band) = if text_eq band.end slot_end then some band else none

unfoldable pub assert_valid_slot_pair : List ScheduleBand → Text → Text → Action ScheduleBand
assert_valid_slot_pair bands slot_start slot_end =
    or_raise (valid_pair slot_end (find_band_in_schedule bands slot_start)) bad_request

-- `CreateRecurringBookingDto`
pub record CreateFijoDto : Type 0 where
  pub court_id : ℕ
  pub day_of_week : ℕ
  pub slot_start : Text
  pub slot_end : Text
  pub player_name : Text
  pub player_phone : Text
  pub price_cents : ℕ
  pub notes : Option Text
  pub until_date : Option ℕ

abbrev pub fijo_dto : RecurringBooking → FijoDto
fijo_dto rb = record {
  court_id = rb.court_id;
  day_of_week = rb.day_of_week;
  player_name = rb.player_name;
  player_phone = rb.player_phone;
  price_cents = rb.price_cents;
}

abbrev pub fijo_row : FijoEnv → ℕ → ℕ → ℕ → CreateFijoDto → RecurringBooking
fijo_row e i club_id user_id dto = record {
  id = i;
  club_id = club_id;
  court_id = dto.court_id;
  day_of_week = dto.day_of_week;
  slot_start = dto.slot_start;
  slot_end = dto.slot_end;
  player_name = dto.player_name;
  player_phone = dto.player_phone;
  price_cents = dto.price_cents;
  notes = dto.notes;
  until_date =
      Option.map (λ key. wall_time_to_utc e.env.clock.to_utc key (codes "00:00")) dto.until_date;
  is_active = true;
  created_by_user_id = user_id;
}

-- `create`, with the identifier that the database gives to the turno fijo.
unfoldable pub create_fijo : FijoEnv → ℕ → ℕ → ℕ → CreateFijoDto → Action RecurringBooking
create_fijo e i club_id user_id dto = do
  found ← gets (find_court club_id dto.court_id)
  court ← or_raise found bad_request
  band ←
      assert_valid_slot_pair (bands_for_weekday court.schedule dto.day_of_week) dto.slot_start
        dto.slot_end
  let rb : RecurringBooking = fijo_row e i club_id user_id dto
  modify_db (λ (db : Db). record db { recurring = rb ∷ db.recurring })
  apply_for_weeks_ahead e club_id i (fijo_dto rb) band dto.until_date
  pure rb

-- `applyToExistingSlots`
unfoldable pub apply_to_existing_slots : FijoEnv → ℕ → ℕ → Action ℕ
apply_to_existing_slots e club_id i = do
  rb ← find_fijo club_id i
  raise_if (not rb.is_active) bad_request
  found ← gets (find_court club_id rb.court_id)
  court ← or_raise found bad_request
  band ←
      assert_valid_slot_pair (bands_for_weekday court.schedule rb.day_of_week) rb.slot_start
        rb.slot_end
  apply_for_weeks_ahead e club_id i (fijo_dto rb) band (Option.map e.date_key_of rb.until_date)

-- A slot that `repriceFutureSlots` reads, for the courts that it was asked for.
abbrev pub is_future_slot : ℕ → Option ℕ → ℕ → Slot → Bool
is_future_slot club_id court_id now s =
    (s.club_id == club_id)
    && ltb now s.starts_at
    && elim court_id [ none ↦ true | some c ↦ s.court_id == c ]

-- The changes that its loop collects: the slots whose target is another price.
abbrev pub change_for : Clock → Db → ℕ → Slot → Option ℕ
change_for clock db club_id s = elim (find_court club_id s.court_id db) [
  | none ↦ none
  | some court ↦ elim (target_price_cents clock db s court) [
    | none ↦ none
    | some cents ↦ if cents == s.price_cents then none else some cents
  ]
]

unfoldable pub changes_for : Clock → Db → ℕ → List Slot → List (ℕ × ℕ)
changes_for clock db club_id [] = []
changes_for clock db club_id (s ∷ ss) = elim (change_for clock db club_id s) [
  | none ↦ changes_for clock db club_id ss
  | some cents ↦ (s.id, cents) ∷ changes_for clock db club_id ss
]

unfoldable pub write_prices : List (ℕ × ℕ) → List Slot → List Slot
write_prices [] ss = ss
write_prices ((i, cents) ∷ cs) ss =
    write_prices cs (modify i (λ (s : Slot). record s { price_cents = cents }) ss)

-- `repriceFutureSlots`
unfoldable pub reprice_future_slots : Clock → ℕ → ℕ → Option ℕ → Action ℕ
reprice_future_slots clock now club_id court_id db =
    let changes =
      changes_for clock db club_id (keep (is_future_slot club_id court_id now) (rows db.slots)) in
    (ok (length changes), record db { slots = write_prices changes db.slots })

-- `UpdateRecurringBookingDto`
pub record UpdateFijoDto : Type 0 where
  pub player_name : Option Text
  pub player_phone : Option Text
  pub price_cents : Option ℕ
  pub notes : Option Text
  pub is_active : Option Bool

abbrev pub edited_fijo : UpdateFijoDto → RecurringBooking → RecurringBooking
edited_fijo dto r = record r {
  player_name = or_else dto.player_name r.player_name;
  player_phone = or_else dto.player_phone r.player_phone;
  price_cents = or_else dto.price_cents r.price_cents;
  notes = elim dto.notes [ none ↦ r.notes | some n ↦ some n ];
  is_active = or_else dto.is_active r.is_active;
}

abbrev pub is_new_price : Option ℕ → ℕ → Bool
is_new_price none price_cents = false
is_new_price (some cents) price_cents = not (cents == price_cents)

-- `update`
unfoldable pub update_fijo : FijoEnv → ℕ → ℕ → UpdateFijoDto → Action RecurringBooking
update_fijo e club_id i dto = do
  before ← find_fijo club_id i
  modify_db (λ (db : Db). record db { recurring = modify i (edited_fijo dto) db.recurring })
  if is_new_price dto.price_cents before.price_cents
      then (do reprice_future_slots e.env.clock e.env.now club_id (some before.court_id); pure tt)
      else pure tt
  pure (edited_fijo dto before)

-- `onDelete: SetNull` of the bookings of a turno fijo.
abbrev pub without_fijo : ℕ → Booking → Booking
without_fijo i b = record b {
  recurring_booking_id = elim b.recurring_booking_id [
    | none ↦ none
    | some r ↦ if r == i then none else some r
  ];
}

-- `remove`
unfoldable pub remove_fijo : ℕ → ℕ → Action (Unit {0})
remove_fijo club_id i = do
  rb ← find_fijo club_id i
  modify_db (λ (db : Db). record db {
    recurring = keep (λ (r : RecurringBooking). not (r.id == i)) db.recurring;
    bookings = map (without_fijo i) db.bookings;
  })
