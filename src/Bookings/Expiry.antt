-- ===== src/Bookings/Expiry.antt =====
-- Letting go of pending bookings: rejection by hand, `cancelPending`, and the sweep of the expired.
-- Receipts and the answers that the player types while the booking is pending.
pub mod Courts
pub mod Sweep
pub mod Spared
use padel_bot_api.Prelude.{
  ℕ, Bool, true, false, not, ◌&&◌, Option, none, some, List, [], ◌∷◌, map, ltb, ◌==◌, if◌then◌else◌,
  is_none, keep, any_of,
}
use padel_bot_api.Prelude.Text.{Text}
use padel_bot_api.Prelude.Table.{find, rows}
use padel_bot_api.Players.{newer, non_empty}
use padel_bot_api.Bookings.Model.{
  Db, Slot, SlotStatus, Booking, BookingStatus, BookingAction, Receipt, Event, VerificationMode,
  Club, is_pending, booking_keyed, slot_keyed, club_keyed,
}
use padel_bot_api.Bookings.Monad.{
  Action, Result, ok, err, not_found, bad_request, pure, gets, or_raise, ◌>>=◌, ◌>>◌, raise_if,
  modify_db, transaction,
}
use padel_bot_api.Bookings.Statements.{
  update_booking_if, update_booking, set_slot_status, give_credit, emit, emit_booking_change,
  emit_slot_freed, find_booking,
}
use padel_bot_api.Bookings.Repricing.{Clock, reprice_slot}
use padel_bot_api.Bookings.Lifecycle.{Env}
use padel_bot_api.Bookings.Payments.{
  PayerInfo, confirm_payment, purge_receipts, confirmed_id, is_used, is_auto,
}

-- What follows the conditional write of `releasePendingSlot`, inside its transaction.
unfoldable pub release_slot_of : Booking → Bool → Action Bool
release_slot_of b false = pure false
release_slot_of b true = do
  set_slot_status b.slot_id SlotStatus.available
  give_credit b.player_id b.credit_applied_cents
  pure true

abbrev pub expire_data : Booking → Booking
expire_data b = record b { status = BookingStatus.cancelled }

-- The transaction of `releasePendingSlot`, for the row `b` that was read before it.
unfoldable pub release_write : Booking → Action Bool
release_write b =
    transaction (do
      hit ← update_booking_if b.id (λ c. is_pending c.status) expire_data
      release_slot_of b hit)

unfoldable pub reprice_if : Clock → ℕ → Bool → Action Bool
reprice_if clock slot_id false = pure false
reprice_if clock slot_id true = do price ← reprice_slot clock slot_id none; pure true

unfoldable pub release_pending_slot : Env → Booking → Action Bool
release_pending_slot env b = do released ← release_write b; reprice_if env.clock b.slot_id released

pub record CancelledPendingInfo : Type 0 where
  pub booking_id : ℕ
  pub player_phone : Option Text
  pub club_id : ℕ

abbrev pub info_of : Booking → CancelledPendingInfo
info_of b = record { booking_id = b.id; player_phone = b.player_phone; club_id = b.club_id }

-- The price of the freed slot is that of the row read before the release.
abbrev pub price_of : Option Slot → ℕ
price_of none = 0
price_of (some s) = s.price_cents

unfoldable pub announce_freed : Booking → ℕ → Action (Unit {0})
announce_freed b price_cents = do
  emit_booking_change BookingAction.cancelled b
  emit_slot_freed b.slot_id price_cents

unfoldable pub after_release : Booking → ℕ → Bool → Action (Option CancelledPendingInfo)
after_release b price_cents false = pure none
after_release b price_cents true = do
  purge_receipts b.id
  announce_freed b price_cents
  pure (some (info_of b))

unfoldable pub cancel_pending_row : Env → Booking → Action (Option CancelledPendingInfo)
cancel_pending_row env b = do
  slot ← gets (λ db. find b.slot_id db.slots)
  released ← release_pending_slot env b
  after_release b (price_of slot) released

-- `cancelPending`
unfoldable pub cancel_if_pending : Env → Option Booking → Action (Option CancelledPendingInfo)
cancel_if_pending env none = pure none
cancel_if_pending env (some b) = if is_pending b.status then cancel_pending_row env b else pure none

unfoldable pub cancel_pending : Env → ℕ → Action (Option CancelledPendingInfo)
cancel_pending env i = do found ← gets (λ db. find i db.bookings); cancel_if_pending env found

unfoldable pub reject_payment : Env → ℕ → ℕ → Action (Option CancelledPendingInfo)
reject_payment env club_id i = do
  found ← gets (find_booking club_id i)
  b ← or_raise found not_found
  if is_pending b.status then cancel_pending env i else pure none

-- The bookings whose window is over, but for those whose receipt waits for a review.
abbrev pub is_expired : ℕ → Booking → Bool
is_expired now b =
    is_pending b.status
    && elim b.payment_expires_at [ none ↦ false | some e ↦ ltb e now ]
    && is_none b.receipt_uploaded_at

unfoldable pub after_sweep_release : Booking → ℕ → Bool → Action (Option CancelledPendingInfo)
after_sweep_release b price_cents false = pure none
after_sweep_release b price_cents true = do announce_freed b price_cents; pure (some (info_of b))

unfoldable pub sweep_one : Env → Booking → ℕ → Action (Option CancelledPendingInfo)
sweep_one env b price_cents = do
  released ← release_pending_slot env b
  after_sweep_release b price_cents released

-- `catch`: a booking that could not be cancelled is logged and left out.
abbrev pub collected :
    Result (Option CancelledPendingInfo) → List CancelledPendingInfo → List CancelledPendingInfo
collected (ok none) rest = rest
collected (ok (some x)) rest = x ∷ rest
collected (err e) rest = rest

unfoldable pub sweep_from : Env → List (Booking × ℕ) → Action (List CancelledPendingInfo)
sweep_from env [] db = (ok [], db)
sweep_from env ((b, price) ∷ bs) db =
    let (r, db1) = sweep_one env b price db in
    let (rs, db2) = sweep_from env bs db1 in
    elim rs [ ok infos ↦ (ok (collected r infos), db2) | err e ↦ (err e, db2) ]

abbrev pub with_price : Db → Booking → Booking × ℕ
with_price db b = (b, price_of (find b.slot_id db.slots))

-- `findAndCancelExpiredPending`
unfoldable pub find_and_cancel_expired_pending : Env → Action (List CancelledPendingInfo)
find_and_cancel_expired_pending env = do
  expired ← gets (λ db. map (with_price db) (keep (is_expired env.now) (rows db.bookings)))
  sweep_from env expired

abbrev pub is_receipt_club : Option Club → Bool
is_receipt_club none = false
is_receipt_club (some c) = not (is_auto c.verification_mode)

abbrev pub has_receipt : ℕ → Db → Bool
has_receipt i db = any_of (λ (r : Receipt). r.booking_id == i) db.receipts

-- `confirmPaymentManual`: in RECEIPT mode a booking of the bot needs a receipt or a transfer.
unfoldable pub confirm_payment_manual : ℕ → ℕ → Option Text → PayerInfo → Action (Option ℕ)
confirm_payment_manual club_id i payment_ref payer = do
  found ← gets (find_booking club_id i)
  b ← or_raise found not_found
  used ← gets (λ db. elim (non_empty payment_ref) [ none ↦ false | some r ↦ is_used r db ])
  needs_receipt ← gets (λ db.
      is_receipt_club (find b.club_id db.clubs)
      && not (has_receipt i db)
      && is_none b.booked_by_user_id
      && is_none (non_empty payment_ref))
  if not (is_pending b.status) then pure none else do
    raise_if used bad_request
    raise_if needs_receipt bad_request
    done ← confirm_payment i payment_ref payer
    pure (confirmed_id i done)

-- `attachReceipt`: the row, and the stamp that stops the booking from expiring.
unfoldable pub attach_receipt : Env → ℕ → ℕ → Receipt → Action (Unit {0})
attach_receipt env club_id i file = do
  found ← gets (find_booking club_id i)
  b ← or_raise found not_found
  transaction (do
    modify_db (λ db. record db { receipts = file ∷ db.receipts })
    update_booking i (λ c. record c { receipt_uploaded_at = some env.now }))
  emit (Event.payment_receipt club_id i)

-- `recordReceiptReading`
unfoldable pub record_receipt_reading : ℕ → Option Text → Option Text → Action Bool
record_receipt_reading i payer_dni operation_ref =
    update_booking_if i (λ b. is_pending b.status)
      λ b. record b {
        receipt_payer_dni = newer (non_empty payer_dni) b.receipt_payer_dni;
        receipt_operation_ref = newer (non_empty operation_ref) b.receipt_operation_ref;
      }

-- `recordPendingPlayerDni`
unfoldable pub record_pending_player_dni : ℕ → Text → Action Bool
record_pending_player_dni i dni =
    update_booking_if i (λ b. is_pending b.status) λ b. record b { player_dni = some dni }
