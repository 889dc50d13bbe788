-- ===== src/Bookings/Tests.antt =====
-- Runs of the service on a small club, and instances of its theorems.
use padel_bot_api.Prelude.{
  if◌then◌else◌, ℕ, ◌+◌, ◌≤◌, ◌<◌, ◌≡◌, refl, ◌↔◌, ◌⊎◌, true, false, Option, none, some, List, [],
  ◌∷◌, arith, is_some,
}
use padel_bot_api.Prelude.Table.{find, modify, rows}
use padel_bot_api.Prelude.Text.{codes}
use padel_bot_api.Bookings.Model.{
  Db, SlotStatus, Booking, BookingStatus, DepositOutcome, booking_keyed, slot_keyed, player_keyed,
  club_keyed, PlayerRescheduleMode, same_status, is_cancelled,
}
use padel_bot_api.Players.{Player}
use padel_bot_api.Bookings.Courts.{IsSafe, view, Moves}
use padel_bot_api.Bookings.Samples.{env, club, slot, booking, db_of}
use padel_bot_api.Bookings.History.{Call, run, AreFreshIn, book_call, cancel_call, sweep_call}
use padel_bot_api.Bookings.History.Safety.{run-IsSafe, run-Moves}
use padel_bot_api.Bookings.Payments.{
  is_used, PayerInfo, confirm_payment_by_amount, pending_candidates, choose_pending, confirm_chosen,
  confirm_payment, after_confirm, learn_payer, purge_receipts, emit_payment_confirmed,
  match_strictly, disambiguate_by_payer,
}
use padel_bot_api.Bookings.Lifecycle.{
  CreateBookingDto, CancellationOutcome, cancellation_outcome, cancel_write,
}
use padel_bot_api.Bookings.Monad.{Result, gets, ◌>>=◌, pure, ok, transaction}
use padel_bot_api.Bookings.Payments.Matching.{IsMatched, confirm_payment_by_amount-IsMatched}
use padel_bot_api.Bookings.Statements.{
  update_booking_if, emit, increment_credit, set_slot_status, give_credit, emit_booking_change,
  emit_slot_freed,
}
use padel_bot_api.Identity.{dni_matches, dni_from_identification, normalize_dni}
use padel_bot_api.Bookings.Pending.{charge_for, Policy, consume_credit, transfer_for}
use padel_bot_api.Bookings.Amounts.{allocate_transfer_amount, allocate, first_free_tag}
use padel_bot_api.Bookings.Expiry.{
  find_and_cancel_expired_pending, sweep_from, sweep_one, release_pending_slot, release_write,
  release_slot_of, reprice_if, after_sweep_release, announce_freed,
}
use padel_bot_api.Bookings.Steps.{Steps}
use padel_bot_api.Account.{BookingAccountView}
use padel_bot_api.Bookings.Bands.{BandSlot, player_move_write}
use padel_bot_api.Bookings.Expiry.Spared.{find_and_cancel_expired_pending-spares}
use padel_bot_api.Bookings.Pending.Amounts.{
  increment_credit-consume_credit, charge_for_lem, transfer_for_lem, IsWholeOrTagged,
}
use padel_bot_api.Bookings.Races.{cancel_write-stale}
use padel_bot_api.Bookings.Bill.{settle_view, should_be_settled}
use padel_bot_api.Bookings.Money.{cancel_write-IsSettlement, IsSettlement, credit_in, is_player}
use padel_bot_api.Bookings.Bands.Moves.{player_move_write-Steps}
use padel_bot_api.Bookings.Desk.Records.{settle_view_lem, reschedule_mode_lem, is_ahead}
use padel_bot_api.Bookings.Repricing.{reprice_slot, target_price_cents}
use padel_bot_api.Pricing.{resolve_band_price_cents}
use padel_bot_api.Bookings.Desk.{reschedule_mode, is_self, RescheduleReason}
use padel_bot_api.Service.{raise_if}

abbrev empty_club : Db
empty_club = db_of (slot 1 SlotStatus.available ∷ slot 2 SlotStatus.available ∷ []) []

empty_club-IsSafe : IsSafe (view empty_club)
unfolding find
empty_club-IsSafe = record { marked = λ i s e. cc; alone = λ i j s e f. cc }

abbrev request : ℕ → CreateBookingDto
request s = record {
  slot_id = s;
  player_name = codes "Ana";
  player_phone = none;
  player_dni = none;
  notes = none;
}

abbrev calls : List Call
calls = book_call env 7 3 1 (request 1) none ∷ cancel_call env 1 7 false ∷ sweep_call env ∷ []

run-IsSafe_example : IsSafe (view (run calls empty_club))
run-IsSafe_example =
    run-IsSafe calls empty_club empty_club-IsSafe (unfold AreFreshIn find in (refl, (tt, (tt, tt))))

run-Moves_example : Moves (view empty_club) (view (run calls empty_club))
run-Moves_example =
    run-Moves calls empty_club empty_club-IsSafe (unfold AreFreshIn find in (refl, (tt, (tt, tt))))

abbrev waiting : Db
waiting =
    db_of (slot 1 SlotStatus.booked ∷ slot 2 SlotStatus.available ∷ [])
      (booking 7 1 BookingStatus.pending_payment (some 200007) ∷ [])

abbrev payer : PayerInfo
payer = record { cuit = none; email = none; mp_user_id = none }

abbrev the_transfer : Result (Option ℕ)
the_transfer = (confirm_payment_by_amount 200007 (codes "op1") 60 none payer waiting).0

confirms : the_transfer ≡ ok (some 7)
unfolding confirm_payment_by_amount gets ◌>>=◌ pending_candidates rows find choose_pending
    confirm_chosen confirm_payment update_booking_if modify after_confirm learn_payer purge_receipts
    emit_payment_confirmed emit pure match_strictly disambiguate_by_payer dni_matches
    dni_from_identification normalize_dni
confirms = refl

confirm_payment_by_amount-IsMatched_example :
    (is_used (codes "op1") waiting ≡ false)
    × ((c : Booking) × (c.id ≡ 7) × IsMatched 200007 60 none waiting c)
confirm_payment_by_amount-IsMatched_example =
    confirm_payment_by_amount-IsMatched 200007 (codes "op1") 60 none payer waiting 7 confirms

-- The window of booking 7 is not over at the time 60.
find_and_cancel_expired_pending-spares_example :
    find 7 (find_and_cancel_expired_pending (record env { now = 60 }) waiting).1.bookings
    ≡ some (booking 7 1 BookingStatus.pending_payment (some 200007))
find_and_cancel_expired_pending-spares_example =
    find_and_cancel_expired_pending-spares (record env { now = 60 }) 7
      (booking 7 1 BookingStatus.pending_payment (some 200007)) waiting (unfold find in refl) refl

sweeps :
    (find_and_cancel_expired_pending env waiting).1.slots
    ≡ slot 1 SlotStatus.available ∷ slot 2 SlotStatus.available ∷ []
unfolding find_and_cancel_expired_pending gets ◌>>=◌ sweep_from sweep_one release_pending_slot
    release_write release_slot_of transaction update_booking_if set_slot_status give_credit pure
    reprice_if reprice_slot after_sweep_release announce_freed emit_booking_change emit_slot_freed
    emit find modify rows target_price_cents resolve_band_price_cents
sweeps = refl

-- The tag 7 is asked for already.
allocates : allocate_transfer_amount 200007 waiting ≡ 200000
unfolding allocate_transfer_amount allocate first_free_tag
allocates = refl

abbrev policy : Policy
policy = record { deposit_cents = 200000; player_id = some 3; available_credit_cents = 50000 }

-- No credit: the player of an unknown payer is told a tagged amount.
abbrev no_credit : Policy
no_credit = record { deposit_cents = 200007; player_id = some 3; available_credit_cents = 0 }

transfer_for_lem_example :
    ((transfer_for no_credit false none waiting ≡ none)
      × ((charge_for no_credit).credit_applied ≡ 200007))
    ⊎ ((x : ℕ) × (transfer_for no_credit false none waiting ≡ some x)
        × ((charge_for no_credit).credit_applied < 200007)
        × (x + (charge_for no_credit).credit_applied ≤ 200106)
        × (200007 ≤ x + (charge_for no_credit).credit_applied + 99)
        × (((1 ≤ (charge_for no_credit).credit_applied)
              × (x + (charge_for no_credit).credit_applied ≡ 200007))
            ⊎ (((charge_for no_credit).credit_applied ≡ 0)
                × IsWholeOrTagged 200007 false none waiting x)))
transfer_for_lem_example = transfer_for_lem no_credit false none waiting

charge_for_lem_example :
    ((charge_for policy).credit_applied + (charge_for policy).remaining_cents ≡ 200000)
    × ((charge_for policy).credit_applied ≤ 50000)
    × (((charge_for policy).confirmed_now ≡ true) ↔ ((charge_for policy).remaining_cents ≡ 0))
charge_for_lem_example = charge_for_lem policy

abbrev ana : Player
ana = record {
  id = 3;
  club_id = 1;
  phone = codes "5493511111111";
  name = none;
  dni = none;
  payer_mp_user_id = none;
  no_show_count = 0;
  credit_cents = 50000;
  is_blocked = false;
}

abbrev with_ana : Db
with_ana = record waiting { players = ana ∷ [] }

abbrev spent : Db
spent = record waiting { players = record ana { credit_cents = 20000 } ∷ [] }

increment_credit-consume_credit_example :
    find 3 (increment_credit 3 30000 spent).1.players ≡ find 3 with_ana.players
increment_credit-consume_credit_example =
    increment_credit-consume_credit 3 30000 with_ana spent 3
      (unfold consume_credit find modify in refl)

abbrev paid_booking : Booking
paid_booking = booking 7 1 BookingStatus.confirmed (some 200007)

-- Ana's confirmed booking, two days ahead; the transfer was 200007.
abbrev anas : Booking
anas = record paid_booking { player_id = some 3; credit_applied_cents = 1000 }

abbrev with_anas : Db
with_anas = record with_ana { bookings = anas ∷ [] }

abbrev after_cancel : Db
after_cancel = record with_anas {
  slots = slot 1 SlotStatus.available ∷ slot 2 SlotStatus.available ∷ [];
  bookings =
      record anas {
        status = BookingStatus.cancelled;
        deposit_outcome = some DepositOutcome.credited;
      }
      ∷ [];
  players = record ana { credit_cents = 251007 } ∷ [];
}

cancels :
    cancel_write anas (cancellation_outcome (some club) 100 anas 172800000) false 100 with_anas
    ≡ (ok tt, after_cancel)
unfolding cancel_write transaction ◌>>=◌ update_booking_if set_slot_status give_credit
    increment_credit raise_if find modify cancellation_outcome
cancels = refl

cancel_write-IsSettlement_example :
    (c : Booking) × (d : Booking) × (credit : ℕ) × (find 7 with_anas.bookings ≡ some c)
    × (same_status anas.status c.status ≡ true)
    × (find 7 after_cancel.bookings ≡ some d)
    × (is_cancelled d.status ≡ true)
    × IsSettlement (some club) 100 172800000 anas d.deposit_outcome credit
    × ((q : ℕ)
        → credit_in after_cancel q
          ≡ credit_in with_anas q + (if is_player (some 3) q then credit else 0))
cancel_write-IsSettlement_example =
    cancel_write-IsSettlement (some club) 100 172800000 anas false with_anas after_cancel cancels

abbrev paid_view : BookingAccountView
paid_view = record {
  court_price_cents = 800000;
  consumos_total_cents = 0;
  total_cents = 800000;
  deposit_paid_cents = 200000;
  unassigned_paid_cents = 0;
  paid_cents = 800000;
  remaining_cents = 0;
  players = [];
  payments = [];
  settled_at = none;
}

settle_view_lem_example :
    (w : BookingAccountView) × (c : Booking) × ((settle_view 100 7 paid_view waiting).0 ≡ ok w)
    × (find 7 (settle_view 100 7 paid_view waiting).1.bookings ≡ some c)
    × (is_some w.settled_at ≡ should_be_settled paid_view)
    × (c.settled_at ≡ w.settled_at)
    × (c.status ≡ BookingStatus.pending_payment)
settle_view_lem_example =
    settle_view_lem 100 7 paid_view (booking 7 1 BookingStatus.pending_payment (some 200007))
      waiting (unfold find in refl) refl

-- Booking 7 was read on slot 1; since then it moved to slot 2 and booking 8 took slot 1.
abbrev raced : Db
raced =
    db_of (slot 1 SlotStatus.booked ∷ slot 2 SlotStatus.booked ∷ [])
      (booking 8 1 BookingStatus.confirmed none ∷ booking 7 2 BookingStatus.confirmed none ∷ [])

abbrev nothing_due : CancellationOutcome
nothing_due = record { deposit_outcome = none; credit_delta_cents = 0 }

raced-IsSafe : IsSafe (view raced)
unfolding find
raced-IsSafe = record { marked = λ i s e. ground arith; alone = λ i j s e f. ground arith }

cancel_write-stale_example :
    ¬ IsSafe
      (view (cancel_write (booking 7 1 BookingStatus.confirmed none) nothing_due false 100 raced).1)
cancel_write-stale_example =
    cancel_write-stale (booking 7 1 BookingStatus.confirmed none)
      (booking 7 2 BookingStatus.confirmed none) (booking 8 1 BookingStatus.confirmed none)
      (slot 1 SlotStatus.booked) nothing_due false 100 raced (unfold find in refl) refl
      (unfold find in refl) (λ e. absurd (omega arith)) refl refl (unfold find in refl) refl

abbrev free_band : BandSlot
free_band = record {
  court_id = 5;
  club_id = 1;
  starts_at = 9000;
  ends_at = 9500;
  price_cents = 800000;
}

player_move_write-Steps_example :
    Steps raced (player_move_write 3 free_band (booking 7 2 BookingStatus.confirmed none))
player_move_write-Steps_example =
    player_move_write-Steps 3 free_band (booking 7 2 BookingStatus.confirmed none) raced
      (unfold find in refl) refl raced-IsSafe

reschedule_mode_lem_example :
    (((reschedule_mode (some club) 100 paid_booking 1000).0 ≡ PlayerRescheduleMode.self) ↔ (
      (is_self club.player_reschedule ≡ true)
      × (paid_booking.reschedule_count < 1)
      × (is_ahead none 100 1000 ≡ true)))
    × (((reschedule_mode (some club) 100 paid_booking 1000).0 ≡ PlayerRescheduleMode.self)
        ↔ ((reschedule_mode (some club) 100 paid_booking 1000).1 ≡ RescheduleReason.fine))
reschedule_mode_lem_example = reschedule_mode_lem club 100 paid_booking 1000
