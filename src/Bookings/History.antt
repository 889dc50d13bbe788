-- ===== src/Bookings/History.antt =====
-- All the methods of the service, one call after the other in any order.
pub mod Safety
use padel_bot_api.Prelude.{ℕ, ◌≡◌, Bool, Option, none, List, [], ◌∷◌}
use padel_bot_api.Prelude.Text.{Text}
use padel_bot_api.Prelude.Table.{find}
use padel_bot_api.Bookings.Model.{Db, slot_keyed, booking_keyed, Receipt}
use padel_bot_api.Bookings.Lifecycle.{Env, book, CreateBookingDto, cancel, reschedule, remove}
use padel_bot_api.Bookings.Pending.{book_pending}
use padel_bot_api.Bookings.Bands.{
  book_band, BookBandInput, book_band_pending, reschedule_to_band_by_player,
}
use padel_bot_api.Bookings.Payments.{PayerInfo, confirm_payment, confirm_payment_by_amount}
use padel_bot_api.Account.{PlayerPaymentLine}
use padel_bot_api.Bookings.Expiry.{
  confirm_payment_manual, reject_payment, cancel_pending, find_and_cancel_expired_pending,
  attach_receipt, record_receipt_reading, record_pending_player_dni,
}
use padel_bot_api.Bookings.Desk.{mark_no_show, unmark_no_show, confirm_attendance, set_attendance}
use padel_bot_api.Bookings.Bill.{set_local_payment, add_player_payment, remove_player_payment}
use padel_bot_api.Stock.Model.{StockEnv}
use padel_bot_api.Bookings.Consumos.{ConsumoItem, set_booking_products}

pub data Call : Type 0 where
  book_call : Env → ℕ → ℕ → ℕ → CreateBookingDto → Option ℕ → Call
  book_pending_call : Env → ℕ → ℕ → ℕ → CreateBookingDto → Call
  book_band_call : Env → ℕ → ℕ → ℕ → ℕ → BookBandInput → Call
  book_band_pending_call : Env → ℕ → ℕ → ℕ → ℕ → BookBandInput → Call
  cancel_call : Env → ℕ → ℕ → Bool → Call
  reschedule_call : Env → ℕ → ℕ → ℕ → Call
  reschedule_to_band_call : Env → ℕ → ℕ → ℕ → Text → ℕ → ℕ → Text → Call
  remove_call : Env → ℕ → ℕ → Call
  confirm_payment_call : ℕ → Option Text → PayerInfo → Call
  confirm_by_amount_call : ℕ → Text → ℕ → Option ℕ → PayerInfo → Call
  confirm_manual_call : ℕ → ℕ → Option Text → PayerInfo → Call
  reject_payment_call : Env → ℕ → ℕ → Call
  cancel_pending_call : Env → ℕ → Call
  sweep_call : Env → Call
  attach_receipt_call : Env → ℕ → ℕ → Receipt → Call
  record_reading_call : ℕ → Option Text → Option Text → Call
  record_dni_call : ℕ → Text → Call
  mark_no_show_call : Env → ℕ → ℕ → Call
  unmark_no_show_call : ℕ → ℕ → Call
  confirm_attendance_call : Env → ℕ → ℕ → Call
  set_attendance_call : Env → ℕ → ℕ → Bool → Call
  set_local_payment_call : ℕ → ℕ → ℕ → Text → Call
  add_player_payment_call : Env → Bool → ℕ → ℕ → PlayerPaymentLine → Call
  remove_player_payment_call : Env → ℕ → ℕ → ℕ → Call
  set_products_call : StockEnv → ℕ → ℕ → List ConsumoItem → Option ℕ → Call

-- The database after a call, whether it threw or not.
unfoldable pub perform : Call → Db → Db
perform (book_call env fresh fresh_player club_id dto user_id) db =
    (book env fresh fresh_player club_id dto user_id db).1
perform (book_pending_call env fresh fresh_player club_id dto) db =
    (book_pending env fresh fresh_player club_id dto db).1
perform (book_band_call env fresh fresh_player fresh_slot club_id input) db =
    (book_band env fresh fresh_player fresh_slot club_id input db).1
perform (book_band_pending_call env fresh fresh_player fresh_slot club_id input) db =
    (book_band_pending env fresh fresh_player fresh_slot club_id input db).1
perform (cancel_call env club_id i declined) db = (cancel env club_id i declined db).1
perform (reschedule_call env club_id i slot_id) db = (reschedule env club_id i slot_id db).1
perform (reschedule_to_band_call env fresh_slot club_id i phone court_id date_key start) db =
    (reschedule_to_band_by_player env fresh_slot club_id i phone court_id date_key start db).1
perform (remove_call env club_id i) db = (remove env club_id i db).1
perform (confirm_payment_call i payment_ref payer) db = (confirm_payment i payment_ref payer db).1
perform (confirm_by_amount_call cents payment_ref paid_at club_id payer) db =
    (confirm_payment_by_amount cents payment_ref paid_at club_id payer db).1
perform (confirm_manual_call club_id i payment_ref payer) db =
    (confirm_payment_manual club_id i payment_ref payer db).1
perform (reject_payment_call env club_id i) db = (reject_payment env club_id i db).1
perform (cancel_pending_call env i) db = (cancel_pending env i db).1
perform (sweep_call env) db = (find_and_cancel_expired_pending env db).1
perform (attach_receipt_call env club_id i file) db = (attach_receipt env club_id i file db).1
perform (record_reading_call i dni operation_ref) db =
    (record_receipt_reading i dni operation_ref db).1
perform (record_dni_call i dni) db = (record_pending_player_dni i dni db).1
perform (mark_no_show_call env club_id i) db = (mark_no_show env club_id i db).1
perform (unmark_no_show_call club_id i) db = (unmark_no_show club_id i db).1
perform (confirm_attendance_call env club_id i) db = (confirm_attendance env club_id i db).1
perform (set_attendance_call env club_id i coming) db = (set_attendance env club_id i coming db).1
perform (set_local_payment_call club_id i cents method) db =
    (set_local_payment club_id i cents method db).1
perform (add_player_payment_call env can_split club_id i line) db =
    (add_player_payment env can_split club_id i line db).1
perform (remove_player_payment_call env club_id i payment_id) db =
    (remove_player_payment env club_id i payment_id db).1
perform (set_products_call env club_id i items user_id) db =
    (set_booking_products env club_id i items user_id db).1

-- The identifiers that a call gives to its new rows are those of no row yet.
abbrev pub HasFreshIds : Call → Db → Type 0
HasFreshIds (book_call _ fresh _ _ _ _) db = find fresh db.bookings ≡ none
HasFreshIds (book_pending_call _ fresh _ _ _) db = find fresh db.bookings ≡ none
HasFreshIds (book_band_call _ fresh _ fresh_slot _ _) db =
    (find fresh db.bookings ≡ none) × (find fresh_slot db.slots ≡ none)
HasFreshIds (book_band_pending_call _ fresh _ fresh_slot _ _) db =
    (find fresh db.bookings ≡ none) × (find fresh_slot db.slots ≡ none)
HasFreshIds (reschedule_to_band_call _ fresh_slot _ _ _ _ _ _) db = find fresh_slot db.slots ≡ none
HasFreshIds _ db = Unit {0}

unfoldable pub run : List Call → Db → Db
run [] db = db
run (c ∷ cs) db = run cs (perform c db)

unfoldable pub AreFreshIn : List Call → Db → Type 0
AreFreshIn [] db = Unit {0}
AreFreshIn (c ∷ cs) db = HasFreshIds c db × AreFreshIn cs (perform c db)
