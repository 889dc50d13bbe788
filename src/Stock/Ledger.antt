-- ===== src/Stock/Ledger.antt =====
-- The building blocks of stock/stock.service.ts, which run inside the caller's transaction.
pub mod Accounts
pub mod Restores
pub mod Levels
use padel_bot_api.Prelude.{
  ℕ, ◌+◌, ◌-◌, Bool, not, ◌&&◌, ◌||◌, Option, none, some, ◌∷◌, ◌==◌, if◌then◌else◌, is_none,
  is_some, or_else, same_bool,
}
use padel_bot_api.Prelude.Int.{ℤ, pos, ◌+ℤ◌, ◌-ℤ◌}
use padel_bot_api.Prelude.Table.{find, modify}
use padel_bot_api.Prelude.Text.{Text}
use padel_bot_api.Service.{
  Method, Error, ok, err, not_found, record_missing, pure, gets, or_raise, ◌>>=◌, ◌>>◌, modify_db,
}
use padel_bot_api.Stock.Model.{
  Product, MovementType, MovementInput, StockMovement, Alert, Kiosk, StockEnv, product_keyed,
  is_low_stock, is_low,
}

-- `tx.product.update({ where: { id }, data })`
unfoldable pub update_product : ℕ → (Product → Product) → Method Kiosk (Unit {0})
update_product i f k = elim (find i k.products) [
  | none ↦ (err record_missing, k)
  | some p ↦ (ok tt, record k { products = modify i f k.products })
]

-- `product.findFirst({ where: { id, clubId } })`
abbrev pub find_product : ℕ → ℕ → Kiosk → Option Product
find_product club_id i k = elim (find i k.products) [
  | none ↦ none
  | some p ↦ if p.club_id == club_id then some p else none
]

-- `lockProduct`: the increment by 0 changes nothing.
unfoldable pub lock_product : ℕ → ℕ → Method Kiosk Product
lock_product club_id i = do found ← gets (find_product club_id i); or_raise found not_found

abbrev pub flag_after : ℕ → Bool → Option ℕ → Option ℕ
flag_after now low notified_at = if low then some (or_else notified_at now) else none

abbrev pub movement_row : ℕ → ℕ → ℤ → ℤ → MovementInput → StockMovement
movement_row club_id i delta next input = record {
  club_id = club_id;
  product_id = i;
  quantity = delta;
  stock_after = next;
  input = input;
}

abbrev pub alert_for : Product → ℤ → Bool → Option Alert
alert_for p next low =
    if not low || is_some p.low_stock_notified_at
    then none
    else some (record {
      product_id = p.id;
      name = p.name;
      stock_quantity = next;
      low_stock_threshold = p.low_stock_threshold;
    })

-- `writeStock`: the row that was locked, with the new flag computed from it.
unfoldable pub write_stock :
    StockEnv → ℕ → Product → ℤ → ℤ → MovementInput → Method Kiosk (Option Alert)
write_stock env club_id p next delta input = do
  let low : Bool = is_low_stock (some next) p.low_stock_threshold
  update_product p.id (λ q. record q {
    stock_quantity = some next;
    low_stock_notified_at = flag_after env.now low p.low_stock_notified_at;
  })
  modify_db (λ (k : Kiosk). record k {
    movements = movement_row club_id p.id delta next input ∷ k.movements;
  })
  pure (alert_for p next low)

unfoldable pub move_locked :
    StockEnv → ℕ → Product → ℤ → MovementInput → Bool → Method Kiosk (Option Alert)
move_locked env club_id p delta input start_tracking =
    if is_none p.stock_quantity && not start_tracking
    then pure none
    else write_stock env club_id p (or_else p.stock_quantity (pos 0) +ℤ delta) delta input

-- `move`
unfoldable pub move : StockEnv → ℕ → ℕ → ℤ → MovementInput → Bool → Method Kiosk (Option Alert)
move env club_id i delta input start_tracking = do
  p ← lock_product club_id i
  move_locked env club_id p delta input start_tracking

-- What `setQuantity` returns.
pub record Counted : Type 0 where
  pub product : Product
  pub previous_quantity : Option ℤ
  pub alert : Option Alert

abbrev pub adjustment : Option Text → Option ℕ → MovementInput
adjustment remark user_id = record {
  type = MovementType.adjustment;
  note = remark;
  user_id = user_id;
  booking_id = none;
  counter_sale_id = none;
}

abbrev pub untracked : Product → Product
untracked p = record p { stock_quantity = none; low_stock_notified_at = none }

unfoldable pub set_locked :
    StockEnv → ℕ → Product → Option ℤ → Option Text → Option ℕ → Method Kiosk (Option Alert)
set_locked env club_id p none remark user_id = do update_product p.id untracked; pure none
set_locked env club_id p (some q) remark user_id =
    write_stock env club_id p q (q -ℤ or_else p.stock_quantity (pos 0)) (adjustment remark user_id)

-- `setQuantity`
unfoldable pub set_quantity :
    StockEnv → ℕ → ℕ → Option ℤ → Option Text → Option ℕ → Method Kiosk Counted
set_quantity env club_id i quantity remark user_id = do
  p ← lock_product club_id i
  alert ← set_locked env club_id p quantity remark user_id
  pure (record { product = p; previous_quantity = p.stock_quantity; alert = alert })

abbrev pub flagged : ℕ → Bool → Product → Product
flagged now low p = record p { low_stock_notified_at = if low then some now else none }

-- `refreshLowStockFlag`
unfoldable pub refresh_low_stock_flag : StockEnv → ℕ → ℕ → Method Kiosk (Unit {0})
refresh_low_stock_flag env club_id i = do
  p ← lock_product club_id i
  let low : Bool = is_low p
  if same_bool low (is_some p.low_stock_notified_at)
      then pure tt
      else update_product i (flagged env.now low)
