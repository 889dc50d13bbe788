-- ===== src/Stock/History/Accounts.antt =====
-- Whatever calls the kiosk gets, its ledger accounts for the stock.
use padel_bot_api.Prelude.{List, [], ◌∷◌}
use padel_bot_api.Service.Keeps.{Keeps-transaction}
use padel_bot_api.Stock.Model.{Kiosk, StockEnv}
use padel_bot_api.Stock.Deltas.{apply_consumos}
use padel_bot_api.Stock.Ledger.Accounts.{IsKept}
use padel_bot_api.Stock.Counter.Accounts.{
  register_purchase-IsKept, register_count-IsKept, apply_consumos-IsKept,
}
use padel_bot_api.Stock.Sales.Accounts.{create_counter_sale-IsKept, remove_counter_sale-IsKept}
use padel_bot_api.Stock.Products.Accounts.{
  create_product-IsKept, update_product_row-IsKept, remove_product-IsKept,
}
use padel_bot_api.Stock.History.{StockCall, perform_stock, run_stock}

perform_stock-IsKept :
    (env : StockEnv) (c : StockCall) (k : Kiosk) → IsKept k → IsKept (perform_stock env c k)
unfolding perform_stock
perform_stock-IsKept env (StockCall.purchase club user remark items) k h =
    (register_purchase-IsKept env club user remark items k).at h
perform_stock-IsKept env (StockCall.count club user remark items) k h =
    (register_count-IsKept env club user remark items k).at h
perform_stock-IsKept env (StockCall.sell input items) k h =
    (create_counter_sale-IsKept env input items k).at h
perform_stock-IsKept env (StockCall.unsell club i user) k h =
    (remove_counter_sale-IsKept env club i user k).at h
perform_stock-IsKept env (StockCall.consumos input) k h =
    (Keeps-transaction k (apply_consumos env input) (apply_consumos-IsKept env input k)).at h
perform_stock-IsKept env (StockCall.create i club dto user) k h =
    (create_product-IsKept env i club dto user k).at h
perform_stock-IsKept env (StockCall.update club i dto user) k h =
    (update_product_row-IsKept env club i dto user k).at h
perform_stock-IsKept env (StockCall.remove club i on_bill) k h =
    (remove_product-IsKept club i on_bill k).at h

-- After any sequence of deliveries, counts, counter sales, sales that are undone, changes of bills
-- and changes of the catalog, on a kiosk whose accounts are right they are right: every product with
-- a quantity has the one that its ledger ends with, and a product is marked as reported exactly when
-- it is at or below its minimum.
pub run_stock-IsKept :
    (calls : List (StockEnv × StockCall)) (k : Kiosk) → IsKept k → IsKept (run_stock calls k)
unfolding run_stock
run_stock-IsKept [] k h = h
run_stock-IsKept ((env, c) ∷ calls) k h =
    run_stock-IsKept calls (perform_stock env c k) (perform_stock-IsKept env c k h)
