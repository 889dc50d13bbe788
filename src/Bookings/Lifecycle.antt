-- ===== src/Bookings/Lifecycle.antt =====
-- The life of a reservation at the front desk: `book`, `cancel`, `reschedule` and `remove`.
use padel_bot_api.Prelude.{
  ℕ, ◌+◌, ◌-◌, ◌*◌, ◌/◌, Bool, true, false, not, ◌||◌, Option, none, some, leb, ◌==◌, if◌then◌else◌,
  or_else,
}
use padel_bot_api.Prelude.Text.{Text}
use padel_bot_api.Prelude.Table.{find}
use padel_bot_api.Players.{upsert_for_booking}
use padel_bot_api.Bookings.Model.{
  SlotStatus, Booking, BookingStatus, BookingAction, DepositOutcome, DepositMode, VerificationMode,
  Club, is_available, is_confirmed_status, is_cancelled, same_status, club_keyed, slot_keyed,
}
use padel_bot_api.Bookings.Monad.{
  Action, ok, conflict, not_found, bad_request, pure, gets, or_raise, ◌>>=◌, ◌>>◌, raise_if,
  transaction,
}
use padel_bot_api.Bookings.Statements.{
  update_booking_if, update_booking, create_booking, set_slot_status, give_credit, find_slot,
  find_one, lock_slot_or_throw, no_attendance, emit_booking_change, emit_slot_freed,
}
use padel_bot_api.Bookings.Repricing.{Clock, reprice_slot}

-- The environment of a call: the clock, the time of the call and the tunable limits.
pub record Env : Type 0 where
  pub clock : Clock
  pub now : ℕ
  pub payment_window_ms : ℕ
  pub no_show_full_threshold : ℕ

pub record CreateBookingDto : Type 0 where
  pub slot_id : ℕ
  pub player_name : Text
  pub player_phone : Option Text
  pub player_dni : Option Text
  pub notes : Option Text

-- `Math.ceil(a / b)`
abbrev pub ceil_div : ℕ → ℕ → ℕ
ceil_div a b = (a + b - 1) / b

pub record PaymentPlan : Type 0 where
  pub deposit_mode : DepositMode
  pub deposit_cents : ℕ
  pub require_dni_match : Bool
  pub round_amount : Bool

abbrev pub is_receipt_mode : VerificationMode → Bool
is_receipt_mode VerificationMode.auto = false
is_receipt_mode VerificationMode.receipt = true

-- The deposit of each mode; the seña is 25% where the club has no percentage.
unfoldable pub deposit_for : DepositMode → Option ℕ → ℕ → ℕ
deposit_for DepositMode.no_deposit percent price_cents = 0
deposit_for DepositMode.deposit percent price_cents =
    ceil_div (price_cents * or_else percent 25) 100
deposit_for DepositMode.full percent price_cents = price_cents

-- `resolvePaymentPlan`, with the defaults for a club that is not there.
unfoldable pub plan_of : Option Club → ℕ → PaymentPlan
unfolding deposit_for
plan_of none price_cents = record {
  deposit_mode = DepositMode.deposit;
  deposit_cents = deposit_for DepositMode.deposit none price_cents;
  require_dni_match = false;
  round_amount = false;
}
plan_of (some club) price_cents = record {
  deposit_mode = club.deposit_mode;
  deposit_cents = deposit_for club.deposit_mode club.deposit_percent price_cents;
  require_dni_match = club.require_dni_match;
  round_amount = club.require_dni_match || is_receipt_mode club.verification_mode;
}

unfoldable pub resolve_payment_plan : ℕ → ℕ → Action PaymentPlan
unfolding plan_of
resolve_payment_plan club_id price_cents = gets (λ db. plan_of (find club_id db.clubs) price_cents)

-- `players.upsertForBooking`, on the table of players.
unfoldable pub upsert_player : ℕ → ℕ → Option Text → Option Text → Option Text → Action (Option ℕ)
upsert_player fresh club_id phone name dni db =
    let (i, players) = upsert_for_booking fresh club_id phone name dni db.players in
    (ok i, record db { players = players })

-- The columns that every creation leaves at the defaults of the schema.
abbrev pub blank_booking : ℕ → ℕ → ℕ → ℕ → Text → Option Text → Option ℕ → Option Text → Booking
blank_booking fresh now slot_id club_id name phone player_id notes = record {
  id = fresh;
  slot_id = slot_id;
  club_id = club_id;
  player_name = name;
  player_phone = phone;
  player_id = player_id;
  player_dni = none;
  receipt_payer_dni = none;
  receipt_operation_ref = none;
  status = BookingStatus.pending_payment;
  notes = notes;
  payer_cuit = none;
  payer_email = none;
  payer_mp_user_id = none;
  booked_by_user_id = none;
  recurring_booking_id = none;
  deposit_cents = 0;
  transfer_amount_cents = none;
  credit_applied_cents = 0;
  deposit_outcome = none;
  local_payment_cents = 0;
  local_payment_method = none;
  mp_payment_id = none;
  payment_expires_at = none;
  receipt_uploaded_at = none;
  settled_at = none;
  no_show_at = none;
  reminder_sent_at = none;
  attendance = no_attendance;
  reschedule_count = 0;
  deleted_at = none;
  created_at = now;
}

-- The transaction of `book`.
unfoldable pub take_slot : ℕ → ℕ → Booking → Action Booking
take_slot slot_id club_id b = transaction (do lock_slot_or_throw slot_id club_id; create_booking b)

-- The row that `book` creates: confirmed at once where there is no deposit to wait for.
abbrev pub desk_booking : ℕ → ℕ → ℕ → CreateBookingDto → Option ℕ → Option ℕ → ℕ → Booking
desk_booking fresh now club_id dto user_id player_id deposit_cents =
    let b =
      blank_booking fresh now dto.slot_id club_id dto.player_name dto.player_phone player_id
        dto.notes in
    record b {
      booked_by_user_id = user_id;
      deposit_cents = deposit_cents;
      status =
          if deposit_cents == 0 then BookingStatus.confirmed else BookingStatus.pending_payment;
    }

-- `book`. The identifiers that the database gives are arguments.
unfoldable pub book : Env → ℕ → ℕ → ℕ → CreateBookingDto → Option ℕ → Action Booking
book env fresh fresh_player club_id dto user_id = do
  found ← gets (find_slot club_id dto.slot_id)
  slot ← or_raise found not_found
  raise_if (not (is_available slot.status)) conflict
  plan ← resolve_payment_plan club_id slot.price_cents
  player_id ← upsert_player fresh_player club_id dto.player_phone (some dto.player_name) none
  booking ←
      take_slot dto.slot_id club_id
        (desk_booking fresh env.now club_id dto user_id player_id plan.deposit_cents)
  emit_booking_change BookingAction.created booking
  pure booking

pub record CancellationOutcome : Type 0 where
  pub deposit_outcome : Option DepositOutcome
  pub credit_delta_cents : ℕ

abbrev pub hour_ms : ℕ
hour_ms = 3600000

-- `resolveCancellationOutcome`: 24 hours where the club is not there.
unfoldable pub cancellation_outcome : Option Club → ℕ → Booking → ℕ → CancellationOutcome
cancellation_outcome club now b starts_at =
    let window_ms = (elim club [ none ↦ 24 | some c ↦ c.cancellation_window_hours ]) * hour_ms in
    elim b.transfer_amount_cents [
      | none ↦ record { deposit_outcome = none; credit_delta_cents = b.credit_applied_cents }
      | some transfer ↦
          if not (is_confirmed_status b.status)
          then record { deposit_outcome = none; credit_delta_cents = b.credit_applied_cents }
          else if leb (now + window_ms) starts_at
          then record {
            deposit_outcome = some DepositOutcome.credited;
            credit_delta_cents = transfer + b.credit_applied_cents;
          }
          else record { deposit_outcome = some DepositOutcome.forfeited; credit_delta_cents = 0 }
    ]

-- What the cancellation writes, a fijo's "no puedo" with it.
abbrev pub cancel_data : Option DepositOutcome → Bool → ℕ → Booking → Booking
cancel_data outcome declined now b = record b {
  status = BookingStatus.cancelled;
  deposit_outcome = outcome;
  attendance =
      if declined
      then record b.attendance { is_confirmed = some false; answered_at = some now }
      else b.attendance;
}

-- The transaction of `cancel`, computed from the row `b` that was read before it.
unfoldable pub cancel_write : Booking → CancellationOutcome → Bool → ℕ → Action (Unit {0})
cancel_write b out declined now = transaction (do
  hit ←
      update_booking_if b.id (λ c. same_status b.status c.status)
        (cancel_data out.deposit_outcome declined now)
  raise_if (not hit) conflict
  set_slot_status b.slot_id SlotStatus.available
  give_credit b.player_id out.credit_delta_cents)

unfoldable pub cancel : Env → ℕ → ℕ → Bool → Action (Unit {0})
cancel env club_id i declined = do
  b ← find_one club_id i
  raise_if (is_cancelled b.status) bad_request
  found ← gets (λ db. find b.slot_id db.slots)
  slot ← or_raise found not_found
  out ← gets (λ db. cancellation_outcome (find club_id db.clubs) env.now b slot.starts_at)
  cancel_write b out declined env.now
  price ← reprice_slot env.clock b.slot_id (some club_id)
  emit_booking_change BookingAction.cancelled b
  emit_slot_freed b.slot_id (or_else price slot.price_cents)

abbrev pub move_data : ℕ → Booking → Booking
move_data slot_id b = record b {
  slot_id = slot_id;
  reminder_sent_at = none;
  attendance = no_attendance;
}

-- The transaction of `reschedule`, computed from the row `b` that was read before it.
unfoldable pub reschedule_write : Booking → ℕ → ℕ → Action (Unit {0})
reschedule_write b new_slot_id club_id = transaction (do
  set_slot_status b.slot_id SlotStatus.available
  lock_slot_or_throw new_slot_id club_id
  update_booking b.id (move_data new_slot_id))

unfoldable pub reschedule : Env → ℕ → ℕ → ℕ → Action (Unit {0})
reschedule env club_id i new_slot_id = do
  b ← find_one club_id i
  raise_if (is_cancelled b.status) bad_request
  raise_if (b.slot_id == new_slot_id) bad_request
  found ← gets (find_slot club_id new_slot_id)
  target ← or_raise found not_found
  raise_if (not (is_available target.status)) conflict
  reschedule_write b new_slot_id club_id
  price ← reprice_slot env.clock b.slot_id (some club_id)
  emit_booking_change BookingAction.rescheduled b

-- `remove`: only a cancelled reservation leaves the club's lists.
unfoldable pub remove : Env → ℕ → ℕ → Action (Unit {0})
remove env club_id i = do
  b ← find_one club_id i
  raise_if (not (is_cancelled b.status)) bad_request
  update_booking i (λ c. record c { deleted_at = some env.now })
