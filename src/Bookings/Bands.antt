-- ===== src/Bookings/Bands.antt =====
-- Bookings of a band of the schedule, whose slot may have no row yet: `bookBand`, `bookBandPending`
-- and a player's own `rescheduleToBandByPlayer`.
pub mod Courts
pub mod Moves
use padel_bot_api.Prelude.{
  ℕ, ◌+◌, Bool, false, not, ◌&&◌, Option, none, some, ltb, leb, ◌==◌, if◌then◌else◌, find_first,
}
use padel_bot_api.Prelude.Text.{Text, text_eq}
use padel_bot_api.Prelude.Table.{find, rows}
use padel_bot_api.Players.{Player}
use padel_bot_api.Pricing.{resolve_band_price_cents}
use padel_bot_api.Schedule.{
  ScheduleBand, bands_for_date, find_band_in_schedule, band_date_times, weekday_of_key,
}
use padel_bot_api.Bookings.Model.{
  Db, Slot, SlotStatus, Booking, BookingStatus, BookingAction, Court, is_cancelled, same_status,
  slot_keyed, booking_keyed, court_keyed,
}
use padel_bot_api.Bookings.Monad.{
  Action, Error, Result, ok, err, conflict, not_found, bad_request, pure, gets, or_raise, ◌>>=◌,
  ◌>>◌, raise_if, transaction,
}
use padel_bot_api.Bookings.Pending.{
  PendingBookingResult, Policy, spend, apply_player_policy, find_known_payer_identity, charge_for,
  announce, transfer_for, pending_result, pending_booking,
}
use padel_bot_api.Bookings.Lifecycle.{
  CreateBookingDto, Env, upsert_player, resolve_payment_plan, blank_booking,
}
use padel_bot_api.Bookings.Statements.{
  create_booked_slot, no_attendance, update_booking_if, create_booking, lock_slot_or_throw,
  set_slot_status, emit_booking_change, emit_slot_freed,
}
use padel_bot_api.Bookings.Repricing.{reprice_slot}

pub record BookBandInput : Type 0 where
  pub court_id : ℕ
  pub date_key : ℕ
  pub band_start : Text
  pub player_name : Text
  pub player_phone : Option Text
  pub player_dni : Option Text
  pub notes : Option Text

-- The slot that a band of the schedule stands for.
pub record BandSlot : Type 0 where
  pub court_id : ℕ
  pub club_id : ℕ
  pub starts_at : ℕ
  pub ends_at : ℕ
  pub price_cents : ℕ

-- `court.findFirst({ where: { id, clubId } })`
abbrev pub find_court : ℕ → ℕ → Db → Option Court
find_court club_id i db = elim (find i db.courts) [
  | none ↦ none
  | some c ↦ if c.club_id == club_id then some c else none
]

unfoldable pub resolve_band : Env → ℕ → Court → ℕ → Text → Option BandSlot
resolve_band env club_id court date_key band_start =
    elim (find_band_in_schedule (bands_for_date court.schedule date_key) band_start) [
      | none ↦ none
      | some band ↦
          let (starts_at, ends_at) = band_date_times env.clock.to_utc date_key band in
          some (record {
            court_id = court.id;
            club_id = club_id;
            starts_at = starts_at;
            ends_at = ends_at;
            price_cents =
                resolve_band_price_cents court.price_cents court.price_rules
                  (weekday_of_key date_key) band.start;
          })
    ]

abbrev pub is_band_row : BandSlot → Slot → Bool
is_band_row t s =
    (s.club_id == t.club_id) && (s.court_id == t.court_id) && (s.starts_at == t.starts_at)

abbrev pub find_band_row : BandSlot → Db → Option Slot
find_band_row t db = find_first (is_band_row t) (rows db.slots)

abbrev pub new_slot : ℕ → BandSlot → Slot
new_slot fresh t = record {
  id = fresh;
  court_id = t.court_id;
  club_id = t.club_id;
  starts_at = t.starts_at;
  ends_at = t.ends_at;
  price_cents = t.price_cents;
  status = SlotStatus.booked;
}

-- The row of the band, locked, or a new one.
unfoldable pub take_row : ℕ → BandSlot → Option Slot → Action ℕ
take_row fresh t none = create_booked_slot (new_slot fresh t)
take_row fresh t (some s) = do lock_slot_or_throw s.id t.club_id; pure s.id

unfoldable pub take_band : ℕ → BandSlot → Action ℕ
take_band fresh t = do existing ← gets (find_band_row t); take_row fresh t existing

-- The transaction of `bookBand`. The booking has the schema's default status,
-- PENDING_PAYMENT, and no expiry.
unfoldable pub band_write : ℕ → BandSlot → (ℕ → Booking) → Action Booking
band_write fresh_slot t b =
    transaction (do slot_id ← take_band fresh_slot t; create_booking (b slot_id))

unfoldable pub book_band : Env → ℕ → ℕ → ℕ → ℕ → BookBandInput → Action Booking
book_band env fresh fresh_player fresh_slot club_id input = do
  court_found ← gets (find_court club_id input.court_id)
  court ← or_raise court_found not_found
  t ← or_raise (resolve_band env club_id court input.date_key input.band_start) bad_request
  raise_if (leb t.starts_at env.now) conflict
  player_id ← upsert_player fresh_player club_id input.player_phone (some input.player_name) none
  b ← band_write fresh_slot t (λ slot_id.
      blank_booking fresh env.now slot_id club_id input.player_name input.player_phone player_id
        input.notes)
  emit_booking_change BookingAction.created b
  pure b

abbrev pub dto_of : BookBandInput → ℕ → CreateBookingDto
dto_of input slot_id = record {
  slot_id = slot_id;
  player_name = input.player_name;
  player_phone = input.player_phone;
  player_dni = input.player_dni;
  notes = input.notes;
}

-- The transaction of `createPendingWithCredit` for a band.
unfoldable pub pending_band_write :
    Env → ℕ → ℕ → BookBandInput → BandSlot → Policy → Bool → Option Text → Action Booking
pending_band_write env fresh fresh_slot input t policy round_amount known = transaction (do
  spend policy.player_id (charge_for policy).credit_applied
  transfer ← gets (transfer_for policy round_amount known)
  slot_id ← take_band fresh_slot t
  create_booking (pending_booking env fresh t.club_id (dto_of input slot_id) policy known transfer))

unfoldable pub book_band_pending : Env → ℕ → ℕ → ℕ → ℕ → BookBandInput → Action PendingBookingResult
book_band_pending env fresh fresh_player fresh_slot club_id input = do
  court_found ← gets (find_court club_id input.court_id)
  court ← or_raise court_found not_found
  t ← or_raise (resolve_band env club_id court input.date_key input.band_start) bad_request
  raise_if (leb t.starts_at env.now) conflict
  plan ← resolve_payment_plan club_id t.price_cents
  policy ← apply_player_policy env fresh_player club_id (dto_of input 0) t.price_cents plan
  known ← gets (λ db.
      if ltb 0 policy.deposit_cents
      then find_known_payer_identity club_id input.player_phone db
      else none)
  b ← pending_band_write env fresh fresh_slot input t policy plan.round_amount known
  announce (charge_for policy).confirmed_now b
  pure (pending_result policy b)

-- What a player's move writes.
abbrev pub player_move_data : ℕ → Booking → Booking
player_move_data slot_id b = record b {
  slot_id = slot_id;
  reminder_sent_at = none;
  attendance = no_attendance;
  reschedule_count = b.reschedule_count + 1;
}

-- The booking still sits where it was read, with the status it had.
abbrev pub is_unmoved : Booking → Booking → Bool
is_unmoved b c = (c.slot_id == b.slot_id) && same_status b.status c.status

-- The transaction of `rescheduleToBandByPlayer`, computed from the row `b` that was read before it.
unfoldable pub player_move_write : ℕ → BandSlot → Booking → Action (Unit {0})
player_move_write fresh_slot t b = transaction (do
  slot_id ← take_band fresh_slot t
  hit ← update_booking_if b.id (is_unmoved b) (player_move_data slot_id)
  raise_if (not hit) conflict
  set_slot_status b.slot_id SlotStatus.available)

-- `catch (err) { if (err instanceof ConflictException) return null; throw err }`
abbrev pub or_none : {A : Type 0} → Result (Option A) × Db → Result (Option A) × Db
or_none (ok a, db) = (ok a, db)
or_none (err conflict, db) = (ok none, db)
or_none (err e, db) = (err e, db)

unfoldable pub null_on_conflict : {A : Type 0} → Action (Option A) → Action (Option A)
null_on_conflict m db = or_none (m db)

-- The new price; the difference to the old one is left to the caller.
unfoldable pub move_to_band : Env → ℕ → BandSlot → Booking → Action (Option ℕ)
move_to_band env fresh_slot t b = null_on_conflict (do
  player_move_write fresh_slot t b
  emit_booking_change BookingAction.rescheduled b
  price ← reprice_slot env.clock b.slot_id (some t.club_id)
  slot ← gets (λ db. find b.slot_id db.slots)
  emit_slot_freed b.slot_id (elim slot [ none ↦ 0 | some s ↦ s.price_cents ])
  pure (some t.price_cents))

abbrev pub find_players_booking : ℕ → ℕ → Text → Db → Option Booking
find_players_booking club_id i phone db = elim (find i db.bookings) [
  | none ↦ none
  | some b ↦
      if (b.club_id == club_id)
        && elim b.player_phone [ none ↦ false | some p ↦ text_eq p phone ]
        && not (is_cancelled b.status)
      then some b
      else none
]

unfoldable pub move_if_open : Env → ℕ → Option Booking → Option BandSlot → Action (Option ℕ)
move_if_open env fresh_slot none t = pure none
move_if_open env fresh_slot (some b) none = pure none
move_if_open env fresh_slot (some b) (some t) =
    if leb t.starts_at env.now then pure none else move_to_band env fresh_slot t b

abbrev pub resolve_in : Env → ℕ → Option Court → ℕ → Text → Option BandSlot
resolve_in env club_id none date_key band_start = none
resolve_in env club_id (some court) date_key band_start =
    resolve_band env club_id court date_key band_start

unfoldable pub reschedule_to_band_by_player :
    Env → ℕ → ℕ → ℕ → Text → ℕ → ℕ → Text → Action (Option ℕ)
reschedule_to_band_by_player env fresh_slot club_id i phone court_id date_key band_start = do
  found ← gets (find_players_booking club_id i phone)
  court ← gets (find_court club_id court_id)
  move_if_open env fresh_slot found (resolve_in env club_id court date_key band_start)
