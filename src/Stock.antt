-- ===== src/Stock.antt =====
-- The kiosk: stock/stock.service.ts, stock/lib/stock-math.ts and products/products.service.ts.
pub mod Model
pub mod Ledger
pub mod Deltas
pub mod Counter
pub mod Sales
pub mod Products
pub mod History
pub mod Samples
pub mod Tests
