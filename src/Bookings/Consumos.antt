-- ===== src/Bookings/Consumos.antt =====
-- The consumos of a booking: `setBookingProducts`, which moves the stock of the kiosk with the bill.
pub mod Balance
pub mod Courts
pub mod Tests
use padel_bot_api.Prelude.{
  ℕ, ◌+◌, Bool, not, Option, none, some, List, [], ◌∷◌, ◌++◌, map, ◌==◌, keep,
}
use padel_bot_api.Account.{player_mask}
use padel_bot_api.Bookings.Model.{Db, Booking, BookingProduct, booking_keyed}
use padel_bot_api.Bookings.Monad.{
  Action, Result, Method, not_found, pure, gets, or_raise, ◌>>=◌, ◌>>◌, raise_if, modify_db,
  transaction,
}
use padel_bot_api.Bookings.Statements.{update_booking_if, find_one}
use padel_bot_api.Stock.Model.{Kiosk, StockEnv, StockLine, Alert}
use padel_bot_api.Stock.Deltas.{ConsumoChange, apply_consumos}
use padel_bot_api.Stock.Sales.{price_by_id}

-- One line of `SetBookingProductsDto`.
pub record ConsumoItem : Type 0 where
  pub product_id : ℕ
  pub quantity : ℕ
  pub players : List ℕ

-- The writes of another service in the same transaction.
unfoldable pub on_kiosk : {A : Type 0} → Method Kiosk A → Action A
on_kiosk m db = let (r, k) = m db.kiosk in (r, record db { kiosk = k })

abbrev pub stock_line : ConsumoItem → StockLine
stock_line item = record { product_id = item.product_id; quantity = item.quantity }

abbrev pub row_line : BookingProduct → StockLine
row_line row = record { product_id = row.product_id; quantity = row.quantity }

abbrev pub is_of : ℕ → BookingProduct → Bool
is_of booking_id row = row.booking_id == booking_id

-- `tx.bookingProduct.findMany({ where: { bookingId } })`
unfoldable pub bill_lines : ℕ → List BookingProduct → List StockLine
bill_lines booking_id rows = map row_line (keep (is_of booking_id) rows)

abbrev pub consumo_row : ℕ → ConsumoItem → ℕ → BookingProduct
consumo_row booking_id item price = record {
  booking_id = booking_id;
  product_id = item.product_id;
  quantity = item.quantity;
  unit_price_cents = price;
  player_mask = player_mask item.players;
}

abbrev pub with_row :
    ℕ → ConsumoItem → Option ℕ → Option (List BookingProduct) → Option (List BookingProduct)
with_row booking_id item none rest = none
with_row booking_id item (some price) none = none
with_row booking_id item (some price) (some rows) = some (consumo_row booking_id item price ∷ rows)

-- The rows of `createMany`, with the prices that were read; `none` if a product is missing.
unfoldable pub consumo_rows : ℕ → ℕ → Kiosk → List ConsumoItem → Option (List BookingProduct)
consumo_rows club_id booking_id k [] = some []
consumo_rows club_id booking_id k (item ∷ items) =
    with_row booking_id item (price_by_id club_id k item.product_id)
      (consumo_rows club_id booking_id k items)

abbrev pub replace_bill : ℕ → List BookingProduct → Db → Db
replace_bill booking_id rows db = record db {
  products = keep (λ r. not (is_of booking_id r)) db.products ++ rows;
}

-- The transaction of `setBookingProducts`.
unfoldable pub save_bill :
    StockEnv → ℕ → ℕ → List ConsumoItem → List BookingProduct → Option ℕ → Action (List Alert)
save_bill env club_id booking_id items rows user_id = transaction (do
  hit ← update_booking_if booking_id (λ b. b.club_id == club_id) (λ b. b)
  raise_if (not hit) not_found
  before ← gets (λ db. bill_lines booking_id db.products)
  modify_db (replace_bill booking_id rows)
  on_kiosk (
      apply_consumos env (record {
        club_id = club_id;
        booking_id = booking_id;
        user_id = user_id;
        before = before;
        after = map stock_line items;
      })))

-- `setBookingProducts`
unfoldable pub set_booking_products :
    StockEnv → ℕ → ℕ → List ConsumoItem → Option ℕ → Action (Booking × List Alert)
set_booking_products env club_id booking_id items user_id = do
  found ← gets (λ db. consumo_rows club_id booking_id db.kiosk items)
  rows ← or_raise found not_found
  alerts ← save_bill env club_id booking_id items rows user_id
  b ← find_one club_id booking_id
  pure (b, alerts)
