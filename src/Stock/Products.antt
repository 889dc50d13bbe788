-- ===== src/Stock/Products.antt =====
-- The catalog's operations of products/products.service.ts, which keep the stock's ledger.
pub mod Accounts
use padel_bot_api.Prelude.{
  ℕ, zero, ◌-◌, Bool, true, false, not, ◌&&◌, ◌||◌, Option, none, some, [], ◌∷◌, map, ◌==◌,
  if◌then◌else◌, is_none, is_some, or_else, keep, any_of,
}
use mathlib.Core.Option
use padel_bot_api.Prelude.Int.{ℤ, pos, is_zero, ◌-ℤ◌}
use padel_bot_api.Prelude.Table.{find}
use padel_bot_api.Prelude.Text.{Text, text_eq, codes}
use padel_bot_api.Service.{
  Method, Error, ok, err, not_found, conflict, pure, gets, or_raise, raise_if, ◌>>=◌, ◌>>◌,
  modify_db, transaction,
}
use padel_bot_api.Stock.Model.{Product, Kiosk, StockEnv, StockMovement, CounterSale, product_keyed}
use padel_bot_api.Stock.Ledger.{find_product, update_product, set_quantity, refresh_low_stock_flag}
use padel_bot_api.Stock.Counter.{assert_can_start_tracking}

pub record CreateProductDto : Type 0 where
  pub name : Text
  pub price_cents : ℕ
  pub is_active : Option Bool
  pub barcode : Option Text
  pub stock_quantity : Option ℕ
  pub low_stock_threshold : Option ℤ

-- In an update `none` leaves a column alone; a column that may be null takes `some none`.
pub record UpdateProductDto : Type 0 where
  pub name : Option Text
  pub price_cents : Option ℕ
  pub is_active : Option Bool
  pub barcode : Option (Option Text)
  pub stock_quantity : Option (Option ℕ)
  pub low_stock_threshold : Option (Option ℤ)

abbrev pub has_barcode : Text → Option Text → Bool
has_barcode code none = false
has_barcode code (some other) = text_eq other code

abbrev pub is_other : Option ℕ → ℕ → Bool
is_other none i = true
is_other (some j) i = not (i == j)

-- `assertBarcodeFree`, when there is a code to check: an empty one is none.
unfoldable pub assert_barcode_free : ℕ → Option Text → Option ℕ → Method Kiosk (Unit {0})
assert_barcode_free club_id none except = pure tt
assert_barcode_free club_id (some []) except = pure tt
assert_barcode_free club_id (some (c ∷ cs)) except = do
  taken ← gets (λ k.
      any_of
        (λ (p : Product).
          (p.club_id == club_id) && has_barcode (c ∷ cs) p.barcode && is_other except p.id)
        k.products)
  raise_if taken conflict

abbrev pub new_product : ℕ → ℕ → CreateProductDto → Product
new_product i club_id dto = record {
  id = i;
  club_id = club_id;
  name = dto.name;
  price_cents = dto.price_cents;
  is_active = or_else dto.is_active true;
  barcode = dto.barcode;
  stock_quantity = none;
  low_stock_threshold = dto.low_stock_threshold;
  low_stock_notified_at = none;
}

unfoldable pub start_stock : StockEnv → ℕ → ℕ → Option ℕ → Option ℕ → Method Kiosk (Unit {0})
start_stock env club_id i none user_id = pure tt
start_stock env club_id i (some q) user_id = do
  set_quantity env club_id i (some (pos q)) (some (codes "Stock inicial")) user_id
  pure tt

-- `create`, with the identifier that the database gives to the row.
unfoldable pub create_product :
    StockEnv → ℕ → ℕ → CreateProductDto → Option ℕ → Method Kiosk (Unit {0})
create_product env i club_id dto user_id = do
  if is_some dto.stock_quantity then assert_can_start_tracking env club_id none else pure tt
  assert_barcode_free club_id dto.barcode none
  transaction (do
    modify_db (λ (k : Kiosk). record k { products = new_product i club_id dto ∷ k.products })
    start_stock env club_id i dto.stock_quantity user_id)

abbrev pub edited : UpdateProductDto → Product → Product
edited dto p = record p {
  name = or_else dto.name p.name;
  price_cents = or_else dto.price_cents p.price_cents;
  is_active = or_else dto.is_active p.is_active;
  barcode = or_else dto.barcode p.barcode;
  low_stock_threshold = or_else dto.low_stock_threshold p.low_stock_threshold;
}

-- `dto.stockQuantity === current.stockQuantity`
abbrev pub same_quantity : Option ℕ → Option ℤ → Bool
same_quantity none q = is_none q
same_quantity (some n) none = false
same_quantity (some n) (some q) = is_zero (pos n -ℤ q)

unfoldable pub refresh_if : StockEnv → ℕ → ℕ → Bool → Method Kiosk (Unit {0})
refresh_if env club_id i false = pure tt
refresh_if env club_id i true = refresh_low_stock_flag env club_id i

unfoldable pub restock :
    StockEnv
    → ℕ
    → Product
    → UpdateProductDto
    → Option (Option ℕ)
    → Option ℕ
    → Method Kiosk (Unit {0})
restock env club_id current dto none user_id =
    refresh_if env club_id current.id (is_some dto.low_stock_threshold)
restock env club_id current dto (some quantity) user_id =
    if same_quantity quantity current.stock_quantity
    then refresh_if env club_id current.id (is_some dto.low_stock_threshold)
    else (do
      set_quantity env club_id current.id (Option.map pos quantity)
          (some (codes "Corrección desde Productos")) user_id
      pure tt)

-- `dto.stockQuantity != null && current.stockQuantity === null`
abbrev pub starts_tracking : Option (Option ℕ) → Option ℤ → Bool
starts_tracking (some (some n)) none = true
starts_tracking (some (some n)) (some q) = false
starts_tracking (some none) q = false
starts_tracking none q = false

-- The transaction of `update`, for the row that was read before it.
unfoldable pub update_write :
    StockEnv → ℕ → Product → UpdateProductDto → Option ℕ → Method Kiosk (Unit {0})
update_write env club_id current dto user_id = transaction (do
  update_product current.id (edited dto)
  restock env club_id current dto dto.stock_quantity user_id)

-- `update` of products.service.ts
unfoldable pub update_product_row :
    StockEnv → ℕ → ℕ → UpdateProductDto → Option ℕ → Method Kiosk (Unit {0})
update_product_row env club_id i dto user_id = do
  found ← gets (find_product club_id i)
  current ← or_raise found not_found
  if starts_tracking dto.stock_quantity current.stock_quantity
      then assert_can_start_tracking env club_id none
      else pure tt
  assert_barcode_free club_id (or_else dto.barcode none) (some i)
  update_write env club_id current dto user_id

-- `tx.product.delete`: the sales that point at the product stop it, its movements go with it.
unfoldable pub delete_product : ℕ → Bool → Method Kiosk (Unit {0})
delete_product i on_bill k =
    if on_bill || any_of (λ (s : CounterSale). s.product_id == i) k.sales
    then (err conflict, k)
    else (
      ok tt,
      record k {
        products = keep (λ (p : Product). not (p.id == i)) k.products;
        movements = keep (λ (m : StockMovement). not (m.product_id == i)) k.movements;
      },
    )

-- `remove`, told whether a consumo of a booking points at the product.
unfoldable pub remove_product : ℕ → ℕ → Bool → Method Kiosk (Unit {0})
remove_product club_id i on_bill = do
  found ← gets (find_product club_id i)
  p ← or_raise found not_found
  delete_product i on_bill
