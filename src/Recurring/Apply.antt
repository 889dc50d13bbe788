-- ===== src/Recurring/Apply.antt =====
-- `applyForWeeksAhead`: the weekly bookings of a turno fijo. Its statements are not one transaction.
pub mod Takes
pub mod Planned
pub mod Courts
pub mod Distinct
pub mod Safety
use padel_bot_api.Prelude.{
  ℕ, ◌+◌, Bool, false, ◌&&◌, Option, none, some, List, [], ◌∷◌, ◌++◌, map, leb, ◌==◌, if◌then◌else◌,
  or_else, length, find_first, any_of,
}
use mathlib.Core.Option
use padel_bot_api.Prelude.Text.{Text}
use padel_bot_api.Prelude.Table.{find, rows, modify}
use padel_bot_api.Schedule.{ScheduleBand}
use padel_bot_api.Bookings.Model.{
  Db, Slot, SlotStatus, Booking, BookingStatus, slot_keyed, booking_keyed, is_available,
  is_cancelled,
}
use padel_bot_api.Bookings.Monad.{Action, pure, gets, ◌>>=◌, ◌>>◌, modify_db, transaction}
use padel_bot_api.Bookings.Statements.{create_booked_slot, create_booking}
use padel_bot_api.Bookings.Lifecycle.{Env, blank_booking}
use padel_bot_api.Recurring.Weeks.{Occurrence, next_occurrences}

-- The time of the call, the current day, the calendar, and the identifiers that the database gives
-- to the slot of an instant and to the booking of a slot.
pub record FijoEnv : Type 0 where
  pub env : Env
  pub today : ℕ
  pub date_key_of : ℕ → ℕ
  pub fresh_slot : ℕ → ℕ
  pub fresh_booking : ℕ → ℕ

-- What `applyForWeeksAhead` reads of a turno fijo.
pub record FijoDto : Type 0 where
  pub court_id : ℕ
  pub day_of_week : ℕ
  pub player_name : Text
  pub player_phone : Text
  pub price_cents : ℕ

-- The window of the two queries.
abbrev pub is_within : ℕ → ℕ → ℕ → Bool
is_within min_start max_start t = leb min_start t && leb t max_start

-- The row of the court at an instant, among those of the window.
abbrev pub is_existing : ℕ → ℕ → ℕ → ℕ → ℕ → Slot → Bool
is_existing club_id court_id min_start max_start t s =
    (s.club_id == club_id)
    && (s.court_id == court_id)
    && is_within min_start max_start s.starts_at
    && (s.starts_at == t)

-- A cancelled booking of the turno fijo whose slot starts at the instant.
abbrev pub is_skip : ℕ → ℕ → ℕ → ℕ → ℕ → List Slot → Booking → Bool
is_skip club_id rb min_start max_start t slots b =
    (b.club_id == club_id)
    && (or_else (Option.map (λ r. r == rb) b.recurring_booking_id) false)
    && is_cancelled b.status
    && elim (find b.slot_id slots) [
      | none ↦ false
      | some s ↦ is_within min_start max_start s.starts_at && (s.starts_at == t)
    ]

-- What becomes of an occurrence: it is left alone, a slot is created for it, or one is flipped.
pub data Fate : Type 0 where
  leave new_row : Fate
  flip : ℕ → Fate

abbrev pub fate_of_row : Option Slot → Fate
fate_of_row none = Fate.new_row
fate_of_row (some s) = if is_available s.status then Fate.flip s.id else Fate.leave

unfoldable pub fate : ℕ → ℕ → FijoDto → ℕ → ℕ → Db → ℕ → Fate
fate club_id rb dto min_start max_start db t =
    if any_of (is_skip club_id rb min_start max_start t db.slots) db.bookings
    then Fate.leave
    else fate_of_row
        (find_first (is_existing club_id dto.court_id min_start max_start t) (rows db.slots))

-- `toCreate` and `toBook` after the loop.
abbrev pub push_create : Fate → Occurrence → List Occurrence → List Occurrence
push_create Fate.leave o os = os
push_create Fate.new_row o os = o ∷ os
push_create (Fate.flip i) o os = os

unfoldable pub to_create : (ℕ → Fate) → List Occurrence → List Occurrence
to_create f [] = []
to_create f (o ∷ os) = push_create (f o.starts_at) o (to_create f os)

abbrev pub push_book : Fate → List ℕ → List ℕ
push_book Fate.leave ids = ids
push_book Fate.new_row ids = ids
push_book (Fate.flip i) ids = i ∷ ids

unfoldable pub to_book : (ℕ → Fate) → List Occurrence → List ℕ
to_book f [] = []
to_book f (o ∷ os) = push_book (f o.starts_at) (to_book f os)

abbrev pub fijo_slot : FijoEnv → ℕ → FijoDto → Occurrence → Slot
fijo_slot e club_id dto o = record {
  id = e.fresh_slot o.starts_at;
  court_id = dto.court_id;
  club_id = club_id;
  starts_at = o.starts_at;
  ends_at = o.ends_at;
  price_cents = dto.price_cents;
  status = SlotStatus.booked;
}

-- The batch of `slot.create`; the unique index turns it into a conflict.
unfoldable pub create_all : FijoEnv → ℕ → FijoDto → List Occurrence → Action (List ℕ)
create_all e club_id dto [] = pure []
create_all e club_id dto (o ∷ os) = do
  i ← create_booked_slot (fijo_slot e club_id dto o)
  ids ← create_all e club_id dto os
  pure (i ∷ ids)

-- `slot.updateMany({ where: { id: { in: toBook } } })`, whatever the status is by now.
unfoldable pub flip_all : List ℕ → List Slot → List Slot
flip_all [] ss = ss
flip_all (i ∷ ids) ss =
    flip_all ids (modify i (λ (s : Slot). record s { status = SlotStatus.booked }) ss)

abbrev pub fijo_booking : FijoEnv → ℕ → ℕ → FijoDto → ℕ → Booking
fijo_booking e club_id rb dto slot_id =
    record (blank_booking (e.fresh_booking slot_id) e.env.now slot_id club_id dto.player_name
      (some dto.player_phone) none none) {
        status = BookingStatus.confirmed;
        recurring_booking_id = some rb;
      }

unfoldable pub add_all : FijoEnv → ℕ → ℕ → FijoDto → List ℕ → List Booking → List Booking
add_all e club_id rb dto [] bs = bs
add_all e club_id rb dto (i ∷ ids) bs =
    add_all e club_id rb dto ids (fijo_booking e club_id rb dto i ∷ bs)

abbrev pub last_start : List Occurrence → ℕ
last_start [] = 0
last_start (o ∷ []) = o.starts_at
last_start (o ∷ p ∷ os) = last_start (p ∷ os)

-- The slots are flipped and the bookings created; the batch of bookings cannot fail.
unfoldable pub book_all : FijoEnv → ℕ → ℕ → FijoDto → List ℕ → List ℕ → Db → Db
book_all e club_id rb dto flips ids db = record db {
  slots = flip_all flips db.slots;
  bookings = add_all e club_id rb dto ids db.bookings;
}

-- The writes, for what the loop decided.
unfoldable pub write_weeks : FijoEnv → ℕ → ℕ → FijoDto → List Occurrence → List ℕ → Action ℕ
write_weeks e club_id rb dto creates flips = do
  created ← transaction (create_all e club_id dto creates)
  modify_db (book_all e club_id rb dto flips (created ++ flips))
  pure (length (created ++ flips))

unfoldable pub apply_to : FijoEnv → ℕ → ℕ → FijoDto → List Occurrence → Action ℕ
apply_to e club_id rb dto [] = pure 0
apply_to e club_id rb dto (o ∷ os) = do
  f ← gets (fate club_id rb dto o.starts_at (last_start (o ∷ os)))
  write_weeks e club_id rb dto (to_create f (o ∷ os)) (to_book f (o ∷ os))

-- `applyForWeeksAhead`
unfoldable pub apply_for_weeks_ahead :
    FijoEnv → ℕ → ℕ → FijoDto → ScheduleBand → Option ℕ → Action ℕ
apply_for_weeks_ahead e club_id rb dto band until =
    apply_to e club_id rb dto
      (next_occurrences e.env.clock.to_utc dto.day_of_week band until e.today)
