-- ===== src/Stock/Model.antt =====
-- The rows that stock/stock.service.ts reads and writes. Identifiers are numbers, in the order that
-- `localeCompare` gives them; quantities on hand are signed, since a sale is never blocked.
use padel_bot_api.Prelude.{ℕ, Bool, false, Option, none, some, List, or_else}
use padel_bot_api.Prelude.Int.{ℤ, pos, leb_ℤ}
use padel_bot_api.Prelude.Table.{Keyed}
use padel_bot_api.Prelude.Text.{Text}

pub record Product : Type 0 where
  pub id : ℕ
  pub club_id : ℕ
  pub name : Text
  pub price_cents : ℕ
  pub is_active : Bool
  pub barcode : Option Text
  pub stock_quantity : Option ℤ
  pub low_stock_threshold : Option ℤ
  pub low_stock_notified_at : Option ℕ

-- `StockMovementType`
pub data MovementType : Type 0 where
  purchase sale adjustment : MovementType

-- What the caller of a movement tells of it.
pub record MovementInput : Type 0 where
  pub type : MovementType
  pub note : Option Text
  pub user_id : Option ℕ
  pub booking_id : Option ℕ
  pub counter_sale_id : Option ℕ

pub record StockMovement : Type 0 where
  pub club_id : ℕ
  pub product_id : ℕ
  pub quantity : ℤ
  pub stock_after : ℤ
  pub input : MovementInput

-- `PlayerPaymentMethod`
pub data PaymentMethod : Type 0 where
  cash qr bank_transfer : PaymentMethod

pub record CounterSale : Type 0 where
  pub id : ℕ
  pub club_id : ℕ
  pub product_id : ℕ
  pub quantity : ℕ
  pub unit_price_cents : ℕ
  pub method : PaymentMethod
  pub user_id : Option ℕ
  pub created_at : ℕ

-- `LowStockAlert`
pub record Alert : Type 0 where
  pub product_id : ℕ
  pub name : Text
  pub stock_quantity : ℤ
  pub low_stock_threshold : Option ℤ

-- The tables of the kiosk, the movements and the sales newest first.
pub record Kiosk : Type 0 where
  pub products : List Product
  pub movements : List StockMovement
  pub sales : List CounterSale

-- The clock, the plan's feature, and the identifiers that the database gives to the sales of a call,
-- by product.
pub record StockEnv : Type 0 where
  pub now : ℕ
  pub has_kiosco_stock : ℕ → Bool
  pub sale_id : ℕ → ℕ

instance abbrev pub product_keyed : Keyed Product
product_keyed = record { key = λ r. r.id }

instance abbrev pub sale_keyed : Keyed CounterSale
sale_keyed = record { key = λ r. r.id }

-- `StockLine`
pub record StockLine : Type 0 where
  pub product_id : ℕ
  pub quantity : ℕ

-- `isLowStock`
unfoldable pub is_low_stock : Option ℤ → Option ℤ → Bool
is_low_stock none threshold = false
is_low_stock (some q) threshold = leb_ℤ q (or_else threshold (pos 0))

-- The columns of a product that `isLowStock` reads.
abbrev pub is_low : Product → Bool
is_low p = is_low_stock p.stock_quantity p.low_stock_threshold
