-- ===== src/Bookings/Consumos/Tests.antt =====
-- A bill that is saved on a small club.
use padel_bot_api.Prelude.{ℕ, ◌≡◌, refl, false, none, some, List, [], ◌∷◌, map, ◌==◌}
use padel_bot_api.Prelude.Int.{ℤ, pos, ◌+ℤ◌, ◌-ℤ◌}
use padel_bot_api.Prelude.Table.{find, modify}
use padel_bot_api.Bookings.Model.{Db, Booking, BookingStatus, SlotStatus, booking_keyed}
use padel_bot_api.Bookings.Monad.{pure, gets, or_raise, raise_if, modify_db, ◌>>=◌, transaction}
use padel_bot_api.Bookings.Samples.{db_of, slot, booking}
use padel_bot_api.Bookings.Statements.{update_booking_if, find_one}
use padel_bot_api.Bookings.Consumos.{
  ConsumoItem, set_booking_products, save_bill, on_kiosk, consumo_rows, bill_lines, stock_line,
}
use padel_bot_api.Bookings.Consumos.Balance.{set_booking_products_lem}
use padel_bot_api.Stock.Model.{product_keyed, is_low_stock}
use padel_bot_api.Stock.Deltas.{
  apply_consumos, consumo_deltas, add_lines, subtract_lines, add_to, sort_by_product,
  insert_by_product, move_all,
}
use padel_bot_api.Stock.Deltas.Net.{units}
use padel_bot_api.Stock.Ledger.{move, lock_product, move_locked, write_stock, update_product}
use padel_bot_api.Stock.Ledger.Levels.{level}
use padel_bot_api.Stock.Samples.{stock_env, small_kiosk}

abbrev open_turno : Booking
open_turno = booking 7 1 BookingStatus.confirmed none

abbrev db : Db
db = record (db_of (slot 1 SlotStatus.booked ∷ []) (open_turno ∷ [])) { kiosk = small_kiosk }

-- Three bottles of water, shared by two of the players.
abbrev items : List ConsumoItem
items = record { product_id = 4; quantity = 3; players = 1 ∷ 2 ∷ [] } ∷ []

abbrev saved : Db
saved = (set_booking_products stock_env 1 7 items none db).1

set_booking_products_lem_example :
    (bill_lines 7 saved.products ≡ map stock_line items)
    × ((j : ℕ) → (j == 7) ≡ false → bill_lines j saved.products ≡ bill_lines j db.products)
    × ((product : ℕ) (q : ℤ)
        → level product db.kiosk ≡ some q
        → (q' : ℤ) × (level product saved.kiosk ≡ some q')
          × (q' +ℤ pos (units product (bill_lines 7 saved.products))
              ≡ q +ℤ pos (units product (bill_lines 7 db.products))))
    × ((product : ℕ) → level product db.kiosk ≡ none → level product saved.kiosk ≡ none)
unfolding set_booking_products save_bill on_kiosk consumo_rows update_booking_if find_one find
    modify pure gets or_raise raise_if modify_db ◌>>=◌ transaction apply_consumos consumo_deltas
    add_lines subtract_lines add_to sort_by_product insert_by_product move_all move lock_product
    move_locked write_stock update_product is_low_stock ◌+ℤ◌ ◌-ℤ◌ bill_lines
set_booking_products_lem_example =
    set_booking_products_lem stock_env 1 7 items none db saved (open_turno, []) refl
