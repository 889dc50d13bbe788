-- ===== src/Bookings/Pending.antt =====
-- The pending-payment flow of the bot: `bookPending`, its credit and its transfer amount.
pub mod Courts
pub mod Amounts
use padel_bot_api.Prelude.{
  ℕ, ◌+◌, ◌-◌, min, Bool, true, false, not, ◌&&◌, ◌||◌, Option, none, some, ltb, leb, ◌==◌,
  if◌then◌else◌, is_some, or_else, find_first,
}
use padel_bot_api.Prelude.Text.{Text, text_eq}
use padel_bot_api.Prelude.Table.{find, modify}
use padel_bot_api.Players.{Player, standing_for_phone}
use padel_bot_api.Bookings.Model.{
  Db, Slot, Booking, BookingStatus, BookingAction, DepositMode, is_available, is_pending,
  is_confirmed_status, player_keyed, slot_keyed, booking_keyed,
}
use padel_bot_api.Bookings.Monad.{
  Action, Result, ok, err, conflict, not_found, forbidden, no_show_review_required, pure, raise,
  gets, or_raise, ◌>>=◌, ◌>>◌, raise_if, transaction,
}
use padel_bot_api.Bookings.Statements.{
  create_booking, find_slot, lock_slot_or_throw, emit_booking_change,
}
use padel_bot_api.Bookings.Lifecycle.{
  Env, CreateBookingDto, PaymentPlan, resolve_payment_plan, upsert_player, blank_booking,
}
use padel_bot_api.Bookings.Amounts.{pending_transfer_amount}

pub record Policy : Type 0 where
  pub deposit_cents : ℕ
  pub player_id : Option ℕ
  pub available_credit_cents : ℕ

abbrev pub is_no_deposit : DepositMode → Bool
is_no_deposit DepositMode.no_deposit = true
is_no_deposit DepositMode.deposit = false
is_no_deposit DepositMode.full = false

-- What `applyPlayerPolicy` decides from the player's standing.
unfoldable pub policy_for : ℕ → ℕ → PaymentPlan → Option ℕ → Option Player → Action Policy
policy_for threshold price_cents plan none standing =
    pure
      (record { deposit_cents = plan.deposit_cents; player_id = none; available_credit_cents = 0 })
policy_for threshold price_cents plan (some i) none =
    if leb threshold 0
    then (if is_no_deposit plan.deposit_mode || (price_cents == 0)
        then raise (no_show_review_required 0)
        else pure (record {
          deposit_cents = price_cents;
          player_id = some i;
          available_credit_cents = 0;
        }))
    else pure (record {
      deposit_cents = plan.deposit_cents;
      player_id = some i;
      available_credit_cents = 0;
    })
policy_for threshold price_cents plan (some i) (some p) =
    if p.is_blocked
    then raise forbidden
    else if leb threshold p.no_show_count
    then (if is_no_deposit plan.deposit_mode || (price_cents == 0)
        then raise (no_show_review_required p.no_show_count)
        else pure (record {
          deposit_cents = price_cents;
          player_id = some i;
          available_credit_cents = p.credit_cents;
        }))
    else pure (record {
      deposit_cents = plan.deposit_cents;
      player_id = some i;
      available_credit_cents = p.credit_cents;
    })

unfoldable pub apply_player_policy :
    Env → ℕ → ℕ → CreateBookingDto → ℕ → PaymentPlan → Action Policy
apply_player_policy env fresh_player club_id dto price_cents plan = do
  player_id ←
      upsert_player fresh_player club_id dto.player_phone (some dto.player_name) dto.player_dni
  standing ← gets (λ db. standing_for_phone club_id dto.player_phone db.players)
  policy_for env.no_show_full_threshold price_cents plan player_id standing

-- `consumeCredit`: a conditional decrement, so that the same credit is not spent twice.
unfoldable pub consume_credit : ℕ → ℕ → Action (Unit {0})
consume_credit player_id amount db = elim (find player_id db.players) [
  | none ↦ (err conflict, db)
  | some p ↦
      if leb amount p.credit_cents
      then (
        ok tt,
        record db {
          players =
              modify player_id (λ (q : Player). record q { credit_cents = q.credit_cents - amount })
                db.players;
        },
      )
      else (err conflict, db)
]

-- `findKnownPayerIdentity`: rows are kept newest first.
abbrev pub is_known_for : ℕ → Text → Booking → Bool
is_known_for club_id phone b =
    (b.club_id == club_id)
    && elim b.player_phone [ none ↦ false | some p ↦ text_eq p phone ]
    && is_confirmed_status b.status
    && is_some b.payer_mp_user_id

unfoldable pub find_known_payer_identity : ℕ → Option Text → Db → Option Text
find_known_payer_identity club_id none db = none
find_known_payer_identity club_id (some phone) db =
    elim (find_first (is_known_for club_id phone) db.bookings) [
      | none ↦ none
      | some b ↦ b.payer_mp_user_id
    ]

-- The amounts of `createPendingWithCredit`.
pub record Charge : Type 0 where
  pub credit_applied : ℕ
  pub remaining_cents : ℕ
  pub without_deposit : Bool
  pub covered_by_credit : Bool
  pub confirmed_now : Bool

unfoldable pub charge_for : Policy → Charge
charge_for policy =
    let without_deposit = policy.deposit_cents == 0 in
    let credit_applied =
      if is_some policy.player_id && not without_deposit
      then min policy.available_credit_cents policy.deposit_cents
      else 0 in
    let remaining_cents = policy.deposit_cents - credit_applied in
    let covered_by_credit = ltb 0 credit_applied && (remaining_cents == 0) in
    record {
      credit_applied = credit_applied;
      remaining_cents = remaining_cents;
      without_deposit = without_deposit;
      covered_by_credit = covered_by_credit;
      confirmed_now = without_deposit || covered_by_credit;
    }

pub record PendingBookingResult : Type 0 where
  pub id : ℕ
  pub deposit_cents : ℕ
  pub transfer_amount_cents : ℕ
  pub credit_applied_cents : ℕ
  pub confirmed_by_credit : Bool
  pub confirmed_without_deposit : Bool

-- The amount to transfer: none when confirmed on the spot, the remainder when credit was applied.
abbrev pub transfer_for : Policy → Bool → Option Text → Db → Option ℕ
transfer_for policy round_amount known db =
    let c = charge_for policy in
    if c.confirmed_now
    then none
    else if c.remaining_cents == policy.deposit_cents
    then some (pending_transfer_amount policy.deposit_cents round_amount known db)
    else some c.remaining_cents

abbrev pub spend : Option ℕ → ℕ → Action (Unit {0})
spend none amount = pure tt
spend (some p) amount = if ltb 0 amount then consume_credit p amount else pure tt

-- The row that `bookPending` creates from the data of `createPendingWithCredit`.
abbrev pub pending_booking :
    Env → ℕ → ℕ → CreateBookingDto → Policy → Option Text → Option ℕ → Booking
pending_booking env fresh club_id dto policy known transfer =
    let c = charge_for policy in
    let b =
      blank_booking fresh env.now dto.slot_id club_id dto.player_name dto.player_phone
        policy.player_id dto.notes in
    record b {
      player_dni = dto.player_dni;
      payer_mp_user_id = known;
      status = if c.confirmed_now then BookingStatus.confirmed else BookingStatus.pending_payment;
      deposit_cents = policy.deposit_cents;
      credit_applied_cents = c.credit_applied;
      transfer_amount_cents = transfer;
      payment_expires_at = if c.confirmed_now then none else some (env.now + env.payment_window_ms);
    }

-- The transaction of `createPendingWithCredit` for a slot that has a row.
unfoldable pub pending_write :
    Env → ℕ → ℕ → CreateBookingDto → Policy → Bool → Option Text → Action Booking
pending_write env fresh club_id dto policy round_amount known = transaction (do
  spend policy.player_id (charge_for policy).credit_applied
  transfer ← gets (transfer_for policy round_amount known)
  lock_slot_or_throw dto.slot_id club_id
  create_booking (pending_booking env fresh club_id dto policy known transfer))

-- `announceConfirmedBooking`, for a booking that was born confirmed.
abbrev pub announce : Bool → Booking → Action (Unit {0})
announce true b = emit_booking_change BookingAction.created b
announce false b = pure tt

abbrev pub pending_result : Policy → Booking → PendingBookingResult
pending_result policy b = record {
  id = b.id;
  deposit_cents = b.deposit_cents;
  transfer_amount_cents = or_else b.transfer_amount_cents 0;
  credit_applied_cents = b.credit_applied_cents;
  confirmed_by_credit = (charge_for policy).covered_by_credit;
  confirmed_without_deposit = (charge_for policy).without_deposit;
}

unfoldable pub book_pending : Env → ℕ → ℕ → ℕ → CreateBookingDto → Action PendingBookingResult
book_pending env fresh fresh_player club_id dto = do
  found ← gets (find_slot club_id dto.slot_id)
  slot ← or_raise found not_found
  raise_if (not (is_available slot.status)) conflict
  plan ← resolve_payment_plan club_id slot.price_cents
  policy ← apply_player_policy env fresh_player club_id dto slot.price_cents plan
  known ← gets (λ db.
      if ltb 0 policy.deposit_cents
      then find_known_payer_identity club_id dto.player_phone db
      else none)
  b ← pending_write env fresh club_id dto policy plan.round_amount known
  announce (charge_for policy).confirmed_now b
  pure (pending_result policy b)
