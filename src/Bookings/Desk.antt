-- ===== src/Bookings/Desk.antt =====
-- The front desk's other records of a booking: ausencias, attendance, and
-- what a player may do about a reservation.
pub mod Courts
pub mod Records
use padel_bot_api.Prelude.{
  ℕ, ◌+◌, ◌-◌, ◌*◌, Bool, true, false, not, ◌&&◌, Option, none, some, ltb, leb, ◌==◌, if◌then◌else◌,
  is_none, is_some,
}
use padel_bot_api.Prelude.Text.{Text}
use padel_bot_api.Prelude.Table.{find, modify}
use padel_bot_api.Account.{
  AccountLine, PlayerPaymentLine, AccountInput, BookingAccountView, compute_account,
  players_from_mask,
}
use padel_bot_api.Players.{Player}
use padel_bot_api.Bookings.Model.{
  Db, Slot, Booking, BookingStatus, BookingAction, BookingProduct, PlayerPayment, Club,
  PlayerRescheduleMode, is_pending, is_cancelled, is_confirmed_status, booking_keyed, slot_keyed,
  player_keyed, club_keyed,
}
use padel_bot_api.Bookings.Monad.{
  Action, Result, ok, err, not_found, bad_request, conflict, forbidden, pure, gets, or_raise, ◌>>=◌,
  ◌>>◌, raise_if, modify_db, transaction, record_missing,
}
use padel_bot_api.Bookings.Statements.{
  update_booking_if, update_booking, find_booking, find_one, emit_booking_change,
}
use padel_bot_api.Bookings.Lifecycle.{Env, cancel, hour_ms}

-- `noShowCount: { increment: 1 }`, on the player of the booking.
unfoldable pub count_no_show : Option ℕ → Action (Unit {0})
count_no_show none db = (ok tt, db)
count_no_show (some p) db = elim (find p db.players) [
  | none ↦ (err record_missing, db)
  | some r ↦ (
    ok tt,
    record db {
      players =
          modify p (λ (q : Player). record q { no_show_count = q.no_show_count + 1 }) db.players;
    },
  )
]

-- `updateMany({ where: { noShowCount: { gt: 0 } }, … decrement: 1 })`
unfoldable pub uncount_no_show : Option ℕ → Action (Unit {0})
uncount_no_show none db = (ok tt, db)
uncount_no_show (some p) db = (
  ok tt,
  record db {
    players =
        modify p (λ (q : Player). record q { no_show_count = q.no_show_count - 1 }) db.players;
  },
)

unfoldable pub mark_row : Env → Booking → Action ℕ
mark_row env b = elim b.no_show_at [
  | some t ↦ pure t
  | none ↦ do
    transaction (do
      update_booking b.id (λ c. record c { no_show_at = some env.now })
      count_no_show b.player_id)
    pure env.now
]

unfoldable pub mark_no_show : Env → ℕ → ℕ → Action ℕ
mark_no_show env club_id i = do
  found ← gets (find_booking club_id i)
  b ← or_raise found not_found
  raise_if (not (is_confirmed_status b.status)) bad_request
  mark_row env b

unfoldable pub unmark_row : Booking → Action (Unit {0})
unmark_row b = elim b.no_show_at [
  | none ↦ pure tt
  | some t ↦
      transaction
        (do update_booking b.id (λ c. record c { no_show_at = none }); uncount_no_show b.player_id)
]

unfoldable pub unmark_no_show : ℕ → ℕ → Action (Unit {0})
unmark_no_show club_id i = do
  found ← gets (find_booking club_id i)
  b ← or_raise found not_found
  unmark_row b

-- An active fijo of the club.
abbrev pub is_active_fijo : ℕ → Booking → Bool
is_active_fijo club_id b =
    (b.club_id == club_id)
    && is_confirmed_status b.status
    && is_some b.recurring_booking_id
    && is_none b.deleted_at

abbrev pub attending : ℕ → Booking → Booking
attending now b = record b {
  attendance = record b.attendance { is_confirmed = some true; answered_at = some now };
}

abbrev pub emit_attendance : Option Booking → Action (Unit {0})
emit_attendance none = pure tt
emit_attendance (some b) = emit_booking_change BookingAction.attendance b

abbrev pub announce_attendance : ℕ → Bool → Action Bool
announce_attendance i false = pure false
announce_attendance i true = do
  found ← gets (λ db. find i db.bookings)
  emit_attendance found
  pure true

unfoldable pub confirm_attendance : Env → ℕ → ℕ → Action Bool
confirm_attendance env club_id i = do
  hit ← update_booking_if i (is_active_fijo club_id) (attending env.now)
  announce_attendance i hit

unfoldable pub set_attendance : Env → ℕ → ℕ → Bool → Action (Unit {0})
set_attendance env club_id i coming = do
  b ← find_one club_id i
  raise_if (is_none b.recurring_booking_id) bad_request
  raise_if (not (is_confirmed_status b.status)) bad_request
  found ← gets (λ db. find b.slot_id db.slots)
  slot ← or_raise found not_found
  if coming
      then (do done ← confirm_attendance env club_id i; raise_if (not done) conflict)
      else (do raise_if (leb slot.starts_at env.now) bad_request; cancel env club_id i true)

pub data RescheduleReason : Type 0 where
  fine club_policy too_late limit_reached : RescheduleReason

abbrev pub is_self : PlayerRescheduleMode → Bool
is_self PlayerRescheduleMode.self = true
is_self PlayerRescheduleMode.request = false
is_self PlayerRescheduleMode.off = false

-- The mode and the reason of `reschedulePolicyForPlayer`, with the defaults for a club that is not
-- there. The hours ahead are compared in milliseconds.
unfoldable pub reschedule_mode :
    Option Club → ℕ → Booking → ℕ → PlayerRescheduleMode × RescheduleReason
reschedule_mode none now b starts_at =
    if leb 1 b.reschedule_count
    then (PlayerRescheduleMode.request, RescheduleReason.limit_reached)
    else (PlayerRescheduleMode.self, RescheduleReason.fine)
reschedule_mode (some c) now b starts_at =
    if not (is_self c.player_reschedule)
    then (c.player_reschedule, RescheduleReason.club_policy)
    else if leb c.max_player_reschedules b.reschedule_count
    then (PlayerRescheduleMode.request, RescheduleReason.limit_reached)
    else elim c.player_reschedule_cutoff_hours [
      | none ↦ (PlayerRescheduleMode.self, RescheduleReason.fine)
      | some hours ↦
          if ltb starts_at (now + hours * hour_ms)
          then (PlayerRescheduleMode.request, RescheduleReason.too_late)
          else (PlayerRescheduleMode.self, RescheduleReason.fine)
    ]
