-- ===== src/Bookings/History/Safety.antt =====
-- No history of calls books a court twice.
use padel_bot_api.Prelude.{List, [], ◌∷◌}
use padel_bot_api.Bookings.Consumos.Courts.{set_booking_products-Steps}
use padel_bot_api.Bookings.Model.{Db}
use padel_bot_api.Bookings.Courts.{view, Moves, done, IsSafe, Moves-trans, Moves-IsSafe}
use padel_bot_api.Bookings.History.{
  perform, run, Call, HasFreshIds, AreFreshIn, book_call, book_pending_call, book_band_call,
  book_band_pending_call, cancel_call, reschedule_call, reschedule_to_band_call, remove_call,
  confirm_payment_call, confirm_by_amount_call, confirm_manual_call, reject_payment_call,
  cancel_pending_call, sweep_call, attach_receipt_call, record_reading_call, record_dni_call,
  mark_no_show_call, unmark_no_show_call, confirm_attendance_call, set_attendance_call,
  set_local_payment_call, add_player_payment_call, remove_player_payment_call, set_products_call,
}
use padel_bot_api.Bookings.Methods.{book-Steps, cancel-Steps, reschedule-Steps, remove-Steps}
use padel_bot_api.Bookings.Pending.Courts.{book_pending-Steps}
use padel_bot_api.Bookings.Bands.Courts.{book_band-Steps, book_band_pending-Steps}
use padel_bot_api.Bookings.Bands.Moves.{reschedule_to_band_by_player-Steps}
use padel_bot_api.Bookings.Payments.Courts.{confirm_payment-Steps, confirm_payment_by_amount-Steps}
use padel_bot_api.Bookings.Expiry.Courts.{
  confirm_payment_manual-Steps, reject_payment-Steps, cancel_pending-Steps, attach_receipt-Steps,
  record_receipt_reading-Steps, record_pending_player_dni-Steps,
}
use padel_bot_api.Bookings.Expiry.Sweep.{find_and_cancel_expired_pending-Steps}
use padel_bot_api.Bookings.Desk.Courts.{
  mark_no_show-Steps, unmark_no_show-Steps, confirm_attendance-Steps, set_attendance-Steps,
  set_local_payment-Steps, add_player_payment-Steps, remove_player_payment-Steps,
}

perform-Moves :
    (c : Call) (db : Db)
    → HasFreshIds c db
    → IsSafe (view db)
    → Moves (view db) (view (perform c db))
unfolding perform
perform-Moves (book_call env fresh fresh_player club_id dto user_id) db f safe =
    (book-Steps env fresh fresh_player club_id dto user_id db f).at
perform-Moves (book_pending_call env fresh fresh_player club_id dto) db f safe =
    (book_pending-Steps env fresh fresh_player club_id dto db f).at
perform-Moves (book_band_call env fresh fresh_player fresh_slot club_id input) db f safe =
    (book_band-Steps env fresh fresh_player fresh_slot club_id input db f.0 f.1).at
perform-Moves (book_band_pending_call env fresh fresh_player fresh_slot club_id input) db f safe =
    (book_band_pending-Steps env fresh fresh_player fresh_slot club_id input db f.0 f.1).at
perform-Moves (cancel_call env club_id i declined) db f safe =
    (cancel-Steps env club_id i declined db).at
perform-Moves (reschedule_call env club_id i slot_id) db f safe =
    (reschedule-Steps env club_id i slot_id db).at
perform-Moves (reschedule_to_band_call env fresh_slot club_id i phone court_id date_key start) db f
      safe =
    (reschedule_to_band_by_player-Steps env fresh_slot club_id i phone court_id date_key start db f
      safe).at
perform-Moves (remove_call env club_id i) db f safe = (remove-Steps env club_id i db).at
perform-Moves (confirm_payment_call i payment_ref payer) db f safe =
    (confirm_payment-Steps i payment_ref payer db).at
perform-Moves (confirm_by_amount_call cents payment_ref paid_at club_id payer) db f safe =
    (confirm_payment_by_amount-Steps cents payment_ref paid_at club_id payer db).at
perform-Moves (confirm_manual_call club_id i payment_ref payer) db f safe =
    (confirm_payment_manual-Steps club_id i payment_ref payer db).at
perform-Moves (reject_payment_call env club_id i) db f safe =
    (reject_payment-Steps env club_id i db).at
perform-Moves (cancel_pending_call env i) db f safe = (cancel_pending-Steps env i db).at
perform-Moves (sweep_call env) db f safe = (find_and_cancel_expired_pending-Steps env db).at
perform-Moves (attach_receipt_call env club_id i file) db f safe =
    (attach_receipt-Steps env club_id i file db).at
perform-Moves (record_reading_call i dni operation_ref) db f safe =
    (record_receipt_reading-Steps i dni operation_ref db).at
perform-Moves (record_dni_call i dni) db f safe = (record_pending_player_dni-Steps i dni db).at
perform-Moves (mark_no_show_call env club_id i) db f safe = (mark_no_show-Steps env club_id i db).at
perform-Moves (unmark_no_show_call club_id i) db f safe = (unmark_no_show-Steps club_id i db).at
perform-Moves (confirm_attendance_call env club_id i) db f safe =
    (confirm_attendance-Steps env club_id i db).at
perform-Moves (set_attendance_call env club_id i coming) db f safe =
    (set_attendance-Steps env club_id i coming db).at
perform-Moves (set_local_payment_call club_id i cents method) db f safe =
    (set_local_payment-Steps club_id i cents method db).at
perform-Moves (add_player_payment_call env can_split club_id i line) db f safe =
    (add_player_payment-Steps env can_split club_id i line db).at
perform-Moves (remove_player_payment_call env club_id i payment_id) db f safe =
    (remove_player_payment-Steps env club_id i payment_id db).at
perform-Moves (set_products_call env club_id i items user_id) db f safe =
    (set_booking_products-Steps env club_id i items user_id db).at

-- Whatever calls of the service follow one another on a database without a double booking, in any
-- order and whether they throw or not, what they do to the courts is a sequence of atomic takes,
-- releases and changes of free slots, if the identifiers given to new rows are new.
pub run-Moves :
    (calls : List Call) (db : Db)
    → IsSafe (view db)
    → AreFreshIn calls db
    → Moves (view db) (view (run calls db))
unfolding run AreFreshIn
run-Moves [] db safe fresh = done
run-Moves (c ∷ cs) db safe fresh =
    let m = perform-Moves c db fresh.0 safe in
    Moves-trans m (run-Moves cs (perform c db) (Moves-IsSafe m safe) fresh.1)

-- Whatever calls of the service follow one another on a database without a double booking, in any
-- order and whether they throw or not, there is none after them either: the slot of each booking
-- that is not cancelled is marked as booked, and no two such bookings hold the same slot, if the
-- identifiers given to new rows are new.
pub run-IsSafe :
    (calls : List Call) (db : Db)
    → IsSafe (view db)
    → AreFreshIn calls db
    → IsSafe (view (run calls db))
run-IsSafe calls db safe fresh = Moves-IsSafe (run-Moves calls db safe fresh) safe
