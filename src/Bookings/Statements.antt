-- ===== src/Bookings/Statements.antt =====
-- The database statements that the service issues, each atomic, and the slot lock built on them.
pub mod Courts
use padel_bot_api.Prelude.{
  ℕ, ◌+◌, Bool, true, false, not, ◌&&◌, Option, none, some, List, [], ◌∷◌, ltb, ◌==◌, if◌then◌else◌,
  is_none,
}
use padel_bot_api.Players.{Player}
use padel_bot_api.Prelude.Table.{find, modify}
use padel_bot_api.Bookings.Model.{
  Db, Slot, SlotStatus, Booking, Attendance, Event, BookingAction, is_available, slot_keyed,
  booking_keyed, player_keyed, club_keyed, court_keyed, recurring_keyed,
}
use padel_bot_api.Bookings.Monad.{
  Action, ok, err, conflict, not_found, record_missing, gets, or_raise, ◌>>=◌, raise_if,
}

-- `tx.booking.updateMany({ where: { id, …test }, data })`, and whether it hit the row.
unfoldable pub update_booking_if : ℕ → (Booking → Bool) → (Booking → Booking) → Action Bool
update_booking_if i test f db = elim (find i db.bookings) [
  | none ↦ (ok false, db)
  | some b ↦
      if test b then (ok true, record db { bookings = modify i f db.bookings }) else (ok false, db)
]

-- `tx.booking.update({ where: { id }, data })`
unfoldable pub update_booking : ℕ → (Booking → Booking) → Action (Unit {0})
update_booking i f db = elim (find i db.bookings) [
  | none ↦ (err record_missing, db)
  | some b ↦ (ok tt, record db { bookings = modify i f db.bookings })
]

-- `tx.booking.create({ data })`
unfoldable pub create_booking : Booking → Action Booking
create_booking b db = (ok b, record db { bookings = b ∷ db.bookings })

-- `tx.slot.update({ where: { id }, data: { status } })`
unfoldable pub set_slot_status : ℕ → SlotStatus → Action (Unit {0})
set_slot_status i status db = elim (find i db.slots) [
  | none ↦ (err record_missing, db)
  | some s ↦
      (ok tt, record db { slots = modify i (λ (t : Slot). record t { status = status }) db.slots })
]

-- `tx.slot.updateMany({ where: { id, status: AVAILABLE, …test }, data: { status: BOOKED } })`
unfoldable pub book_slot_if : ℕ → (Slot → Bool) → Action Bool
book_slot_if i test db = elim (find i db.slots) [
  | none ↦ (ok false, db)
  | some s ↦
      if is_available s.status && test s
      then (
        ok true,
        record db { slots = modify i (λ t. record t { status = SlotStatus.booked }) db.slots },
      )
      else (ok false, db)
]

-- `tx.player.update({ where: { id }, data: { creditCents: { increment: amount } } })`
unfoldable pub increment_credit : ℕ → ℕ → Action (Unit {0})
increment_credit p amount db = elim (find p db.players) [
  | none ↦ (err record_missing, db)
  | some r ↦ (
    ok tt,
    record db {
      players =
          modify p (λ (q : Player). record q { credit_cents = q.credit_cents + amount }) db.players;
    },
  )
]

-- The increment, when there is a player and an amount to give.
unfoldable pub give_credit : Option ℕ → ℕ → Action (Unit {0})
give_credit player_id amount db = elim player_id [
  | none ↦ (ok tt, db)
  | some p ↦ if ltb 0 amount then increment_credit p amount db else (ok tt, db)
]

unfoldable pub emit : Event → Action (Unit {0})
emit e db = (ok tt, record db { events = e ∷ db.events })

abbrev pub find_slot : ℕ → ℕ → Db → Option Slot
find_slot club_id i db = elim (find i db.slots) [
  | none ↦ none
  | some s ↦ if s.club_id == club_id then some s else none
]

-- `booking.findFirst({ where: { id, clubId } })`
abbrev pub find_booking : ℕ → ℕ → Db → Option Booking
find_booking club_id i db = elim (find i db.bookings) [
  | none ↦ none
  | some b ↦ if b.club_id == club_id then some b else none
]

-- `findOne`: the bookings that were not removed.
abbrev pub find_live : ℕ → ℕ → Db → Option Booking
find_live club_id i db = elim (find_booking club_id i db) [
  | none ↦ none
  | some b ↦ if is_none b.deleted_at then some b else none
]

unfoldable pub find_one : ℕ → ℕ → Action Booking
find_one club_id i = do found ← gets (find_live club_id i); or_raise found not_found

-- `lockSlotOrThrow`
unfoldable pub lock_slot_or_throw : ℕ → ℕ → Action (Unit {0})
lock_slot_or_throw slot_id club_id = do
  hit ← book_slot_if slot_id (λ s. s.club_id == club_id)
  raise_if (not hit) conflict

-- The row of a court and a start, which are unique together.
abbrev pub find_band : ℕ → ℕ → List Slot → Option Slot
find_band court_id starts_at [] = none
find_band court_id starts_at (s ∷ ss) =
    if (s.court_id == court_id) && (s.starts_at == starts_at)
    then some s
    else find_band court_id starts_at ss

-- `createBookedSlot`: the unique index refuses a second row for the band.
unfoldable pub create_booked_slot : Slot → Action ℕ
create_booked_slot s db = elim (find_band s.court_id s.starts_at db.slots) [
  | none ↦ (ok s.id, record db { slots = record s { status = SlotStatus.booked } ∷ db.slots })
  | some other ↦ (err conflict, db)
]

abbrev pub no_attendance : Attendance
no_attendance = record {
  asked_at = none;
  is_confirmed = none;
  answered_at = none;
  alert_sent_at = none;
}

-- `emitBookingChange`
unfoldable pub emit_booking_change : BookingAction → Booking → Action (Unit {0})
emit_booking_change action b = emit (Event.booking_changed b.club_id action b.id)

-- `events.emitSlotFreed` for the slot of a booking that let it go.
unfoldable pub emit_slot_freed : ℕ → ℕ → Action (Unit {0})
emit_slot_freed slot_id price_cents db = elim (find slot_id db.slots) [
  | none ↦ (ok tt, db)
  | some s ↦ emit (Event.slot_freed s.club_id s.court_id s.starts_at s.ends_at price_cents) db
]
