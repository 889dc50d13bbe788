-- ===== src/Stock/History.antt =====
-- The kiosk as the sequence of its calls, each whole, one after the other.
pub mod Accounts
use padel_bot_api.Prelude.{ℕ, Bool, Option, List, [], ◌∷◌}
use padel_bot_api.Prelude.Text.{Text}
use padel_bot_api.Service.{Method, Result}
use padel_bot_api.Stock.Model.{StockLine, StockEnv, Kiosk}
use padel_bot_api.Stock.Deltas.{ConsumoChange, apply_consumos}
use padel_bot_api.Stock.Counter.{register_purchase, register_count}
use padel_bot_api.Stock.Sales.{SaleInput, create_counter_sale, remove_counter_sale}
use padel_bot_api.Stock.Products.{
  CreateProductDto, UpdateProductDto, create_product, update_product_row, remove_product,
}
use padel_bot_api.Service.{transaction}

pub data StockCall : Type 0 where
  purchase : ℕ → Option ℕ → Option Text → List StockLine → StockCall
  count : ℕ → Option ℕ → Option Text → List StockLine → StockCall
  sell : SaleInput → List StockLine → StockCall
  unsell : ℕ → ℕ → Option ℕ → StockCall
  consumos : ConsumoChange → StockCall
  create : ℕ → ℕ → CreateProductDto → Option ℕ → StockCall
  update : ℕ → ℕ → UpdateProductDto → Option ℕ → StockCall
  remove : ℕ → ℕ → Bool → StockCall

unfoldable pub perform_stock : StockEnv → StockCall → Kiosk → Kiosk
perform_stock env (purchase club user remark items) k =
    (register_purchase env club user remark items k).1
perform_stock env (count club user remark items) k = (register_count env club user remark items k).1
perform_stock env (sell input items) k = (create_counter_sale env input items k).1
perform_stock env (unsell club i user) k = (remove_counter_sale env club i user k).1
perform_stock env (consumos input) k = (transaction (apply_consumos env input) k).1
perform_stock env (create i club dto user) k = (create_product env i club dto user k).1
perform_stock env (update club i dto user) k = (update_product_row env club i dto user k).1
perform_stock env (remove club i on_bill) k = (remove_product club i on_bill k).1

-- Each call with its own clock, plan and identifiers.
unfoldable pub run_stock : List (StockEnv × StockCall) → Kiosk → Kiosk
run_stock [] k = k
run_stock ((env, c) ∷ calls) k = run_stock calls (perform_stock env c k)
