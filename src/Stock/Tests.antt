-- ===== src/Stock/Tests.antt =====
-- Runs of a small kiosk, and instances of its theorems.
use padel_bot_api.Prelude.{
  ℕ, ◌≡◌, refl, ◌↔◌, Option, none, some, List, [], ◌∷◌, arith, ◌==◌, if◌then◌else◌,
}
use padel_bot_api.Prelude.Int.{pos, ◌-ℤ◌, ◌+ℤ◌}
use padel_bot_api.Prelude.Table.{find, modify}
use padel_bot_api.Service.{ok, err, not_found, pure, gets, or_raise, modify_db, ◌>>=◌, transaction}
use padel_bot_api.Stock.Model.{
  Kiosk, StockEnv, StockLine, product_keyed, sale_keyed, is_low_stock, PaymentMethod,
}
use padel_bot_api.Stock.Ledger.{update_product, lock_product, write_stock, move_locked, move}
use padel_bot_api.Stock.Ledger.Accounts.{IsKept, last_stock}
use padel_bot_api.Stock.Ledger.Levels.{level, shifted}
use padel_bot_api.Stock.Deltas.{
  consumo_deltas, add_to, add_lines, subtract_lines, insert_by_product, sort_by_product,
  merge_by_product,
}
use padel_bot_api.Stock.Deltas.Net.{units, delta_of, IsTidy, consumo_deltas_lem}
use padel_bot_api.Stock.Sales.{
  remove_counter_sale, create_counter_sale, priced, sell_all, sell_line,
}
use padel_bot_api.Stock.Sales.Undo.{remove_counter_sale_lem}
use padel_bot_api.Stock.History.{StockCall, run_stock}
use padel_bot_api.Stock.History.Accounts.{run_stock-IsKept}
use padel_bot_api.Stock.Samples.{stock_env, product, small_kiosk, small_sale, line}

small_kiosk-IsKept : IsKept small_kiosk
unfolding find last_stock is_low_stock
small_kiosk-IsKept i p h = record { balance = λ q s. ground arith; flag = ground arith }

abbrev calls : List (StockEnv × StockCall)
calls =
    (stock_env, StockCall.purchase 1 none none (line 5 6 ∷ line 4 1 ∷ []))
    ∷ (stock_env, StockCall.unsell 1 54 none)
    ∷ []

run_stock-IsKept_example : IsKept (run_stock calls small_kiosk)
run_stock-IsKept_example = run_stock-IsKept calls small_kiosk small_kiosk-IsKept

-- Water went from two lines to one of as many units, and the balls were taken off.
deltas_run : consumo_deltas (line 4 1 ∷ line 5 2 ∷ line 4 2 ∷ []) (line 4 3 ∷ []) ≡ (5, pos 2) ∷ []
unfolding consumo_deltas add_lines subtract_lines add_to ◌+ℤ◌ ◌-ℤ◌
deltas_run = refl

abbrev bill_before : List StockLine
bill_before = line 4 1 ∷ line 5 2 ∷ line 4 2 ∷ []

consumo_deltas_lem_example :
    ((i : ℕ)
      → delta_of i (consumo_deltas bill_before (line 4 3 ∷ []))
        ≡ pos (units i bill_before) -ℤ pos (units i (line 4 3 ∷ [])))
    × IsTidy (consumo_deltas bill_before (line 4 3 ∷ []))
    × ((consumo_deltas bill_before (line 4 3 ∷ []) ≡ [])
        ↔ ((i : ℕ) → units i bill_before ≡ units i (line 4 3 ∷ [])))
consumo_deltas_lem_example = consumo_deltas_lem bill_before (line 4 3 ∷ [])

-- Three units are sold in two lines, and the level falls.
sale_run :
    level 4
      (create_counter_sale stock_env
        (record { club_id = 1; user_id = none; method = PaymentMethod.qr })
        (line 4 1 ∷ line 5 1 ∷ line 4 2 ∷ [])
        small_kiosk).1
    ≡ some (pos 7)
unfolding create_counter_sale merge_by_product sort_by_product insert_by_product add_lines add_to
    ◌+ℤ◌ ◌-ℤ◌ priced sell_all sell_line move lock_product move_locked write_stock update_product
    modify find is_low_stock pure gets or_raise modify_db ◌>>=◌ transaction
sale_run = refl

remove_counter_sale_lem_example :
    (k' : Kiosk) × (remove_counter_sale stock_env 1 54 none small_kiosk ≡ (ok tt, k'))
    × ((j : ℕ) → level j k' ≡ shifted (if 4 == j then pos 3 else pos 0) (level j small_kiosk))
    × ((env' : StockEnv) (user' : Option ℕ)
        → remove_counter_sale env' 1 54 user' k' ≡ (err not_found, k'))
unfolding find
remove_counter_sale_lem_example =
    remove_counter_sale_lem stock_env 1 54 none small_kiosk small_sale (product 4 (some (pos 10)))
      refl refl
