-- ===== src/Stock/Sales.antt =====
-- Counter sales of stock/stock.service.ts: created, undone and listed.
pub mod Accounts
pub mod Undo
use padel_bot_api.Prelude.{
  ℕ, zero, suc, ◌+◌, ◌-◌, ◌*◌, Bool, true, false, not, ◌&&◌, Option, none, some, List, [], ◌∷◌, map,
  ltb, leb, ◌==◌, if◌then◌else◌, keep,
}
use padel_bot_api.Prelude.Int.{ℤ, pos, ◌+ℤ◌, ◌-ℤ◌, is_zero}
use mathlib.Core.Option
use padel_bot_api.Prelude.Table.{find}
use padel_bot_api.Prelude.Text.{Text, codes}
use padel_bot_api.Service.{
  Method, Error, ok, err, not_found, bad_request, forbidden, pure, gets, or_raise, raise_if, ◌>>=◌,
  ◌>>◌, modify_db, transaction,
}
use padel_bot_api.Stock.Model.{
  Product, StockLine, MovementType, MovementInput, Alert, Kiosk, StockEnv, CounterSale,
  PaymentMethod, StockMovement, product_keyed, sale_keyed, is_low,
}
use padel_bot_api.Stock.Ledger.{move, set_quantity, Counted, find_product}
use padel_bot_api.Stock.Deltas.{Quantities, merge_by_product, move_all, with_alert}
use padel_bot_api.Stock.Counter.{plain_input}

-- A product's price, when it is one of the club's.
abbrev pub price_by_id : ℕ → Kiosk → ℕ → Option ℕ
price_by_id club_id k i = elim (find_product club_id i k) [
  | none ↦ none
  | some p ↦ some p.price_cents
]

-- A line to sell, with the price that was read.
pub record SaleLine : Type 0 where
  pub product_id : ℕ
  pub quantity : ℕ
  pub unit_price_cents : ℕ

abbrev pub natural : ℤ → ℕ
natural (ℤ.pos n) = n
natural (ℤ.negsuc n) = 0

-- `none` if a product is missing.
unfoldable pub priced : ℕ → Kiosk → Quantities → Option (List SaleLine)
priced club_id k [] = some []
priced club_id k ((i, q) ∷ m) = elim (price_by_id club_id k i) [
  | none ↦ none
  | some price ↦
      Option.map
        (λ rest. record { product_id = i; quantity = natural q; unit_price_cents = price } ∷ rest)
        (priced club_id k m)
]

-- Who sells, how it is paid, and when.
pub record SaleInput : Type 0 where
  pub club_id : ℕ
  pub user_id : Option ℕ
  pub method : PaymentMethod

abbrev pub sale_row : StockEnv → SaleInput → SaleLine → CounterSale
sale_row env input l = record {
  id = env.sale_id l.product_id;
  club_id = input.club_id;
  product_id = l.product_id;
  quantity = l.quantity;
  unit_price_cents = l.unit_price_cents;
  method = input.method;
  user_id = input.user_id;
  created_at = env.now;
}

abbrev pub sale_input : Option ℕ → ℕ → MovementInput
sale_input user_id sale = record {
  type = MovementType.sale;
  note = some (codes "Venta suelta");
  user_id = user_id;
  booking_id = none;
  counter_sale_id = some sale;
}

unfoldable pub sell_line : StockEnv → SaleInput → SaleLine → Method Kiosk (Option Alert)
sell_line env input l = do
  let sale : CounterSale = sale_row env input l
  modify_db (λ (k : Kiosk). record k { sales = sale ∷ k.sales })
  move env input.club_id l.product_id (pos 0 -ℤ pos l.quantity) (sale_input input.user_id sale.id)
      false

unfoldable pub sell_all :
    StockEnv → SaleInput → List SaleLine → Method Kiosk (List CounterSale × List Alert)
sell_all env input [] = pure ([], [])
sell_all env input (l ∷ ls) = do
  alert ← sell_line env input l
  rest ← sell_all env input ls
  pure (sale_row env input l ∷ rest.0, with_alert alert rest.1)

-- `createCounterSale`
unfoldable pub create_counter_sale :
    StockEnv → SaleInput → List StockLine → Method Kiosk (List CounterSale × List Alert)
create_counter_sale env input items = do
  found ← gets (λ k. priced input.club_id k (merge_by_product items))
  lines ← or_raise found not_found
  transaction (sell_all env input lines)

abbrev pub find_sale : ℕ → ℕ → Kiosk → Option CounterSale
find_sale club_id i k = elim (find i k.sales) [
  | none ↦ none
  | some s ↦ if s.club_id == club_id then some s else none
]

-- `onDelete: SetNull` of a movement's counter sale.
abbrev pub unlink : ℕ → StockMovement → StockMovement
unlink i m = record m { input = record m.input { counter_sale_id = left m.input.counter_sale_id } }
  where
    left : Option ℕ → Option ℕ
    left none = none
    left (some j) = if j == i then none else some j

-- `tx.counterSale.deleteMany({ where: { id, clubId } })`, and whether it hit a row.
unfoldable pub delete_sale : ℕ → ℕ → Method Kiosk Bool
delete_sale club_id i k = elim (find_sale club_id i k) [
  | none ↦ (ok false, k)
  | some s ↦ (
    ok true,
    record k {
      sales = keep (λ (t : CounterSale). not (t.id == i)) k.sales;
      movements = map (unlink i) k.movements;
    },
  )
]

-- The transaction of `removeCounterSale`, for the sale that was read before it.
unfoldable pub undo_sale : StockEnv → ℕ → ℕ → CounterSale → Option ℕ → Method Kiosk (Option Alert)
undo_sale env club_id i sale user_id = transaction (do
  hit ← delete_sale club_id i
  raise_if (not hit) not_found
  move env club_id sale.product_id (pos sale.quantity)
      (plain_input MovementType.sale (some (codes "Venta suelta anulada")) user_id) false)

-- `removeCounterSale`
unfoldable pub remove_counter_sale : StockEnv → ℕ → ℕ → Option ℕ → Method Kiosk (Unit {0})
remove_counter_sale env club_id i user_id = do
  found ← gets (find_sale club_id i)
  sale ← or_raise found not_found
  undo_sale env club_id i sale user_id
  pure tt

-- The totals of `CounterSalesDay`.
pub record DayTotals : Type 0 where
  pub cash_cents : ℕ
  pub qr_cents : ℕ
  pub transfer_cents : ℕ

abbrev pub add_sale : DayTotals → CounterSale → DayTotals
add_sale t s = added s.method
  where
    added : PaymentMethod → DayTotals
    added PaymentMethod.cash = record t {
      cash_cents = t.cash_cents + s.quantity * s.unit_price_cents;
    }
    added PaymentMethod.qr = record t { qr_cents = t.qr_cents + s.quantity * s.unit_price_cents }
    added PaymentMethod.bank_transfer = record t {
      transfer_cents = t.transfer_cents + s.quantity * s.unit_price_cents;
    }

abbrev pub totals_from : DayTotals → List CounterSale → DayTotals
totals_from t [] = t
totals_from t (s ∷ ss) = totals_from (add_sale t s) ss

abbrev pub is_sale_between : ℕ → ℕ → ℕ → CounterSale → Bool
is_sale_between club_id from to s =
    (s.club_id == club_id) && leb from s.created_at && ltb s.created_at to

-- `listCounterSales`, for the instants that a day begins and ends at.
unfoldable pub list_counter_sales : ℕ → ℕ → ℕ → Kiosk → List CounterSale × DayTotals × ℕ
list_counter_sales club_id from to k =
    let sales : List CounterSale = keep (is_sale_between club_id from to) k.sales in
    let t : DayTotals =
      totals_from (record { cash_cents = 0; qr_cents = 0; transfer_cents = 0 }) sales in
    (sales, t, t.cash_cents + t.qr_cents + t.transfer_cents)
