-- ===== src/Bookings/Monad.antt =====
-- The methods of the bookings service, over the database of the bookings.
pub use padel_bot_api.Service.{
  Error, not_found, bad_request, conflict, forbidden, record_missing, no_show_review_required,
  Result, ok, err, Method, continue, ◌>>◌, settle,
}
unfoldable pub use padel_bot_api.Service.{
  pure, raise, gets, or_raise, ◌>>=◌, raise_if, modify_db, transaction,
}
use padel_bot_api.Bookings.Model.{Db}

abbrev pub Action : Type 0 → Type 0
Action A = Method Db A
