-- ===== src/Stock/Counter/Accounts.antt =====
-- The endpoints of the kiosk keep the ledger's account of the stock.
use padel_bot_api.Prelude.{ℕ, Bool, true, false, Option, none, some, List, [], ◌∷◌}
use padel_bot_api.Prelude.Int.{ℤ}
use padel_bot_api.Prelude.Text.{Text}
use padel_bot_api.Service.{forbidden}
use padel_bot_api.Service.Keeps.{
  Keeps, Keeps-pure, Keeps-bind, Keeps-gets, Keeps-raise_if, Keeps-guard, Keeps-transaction,
}
use padel_bot_api.Stock.Model.{StockLine, MovementInput, Kiosk, StockEnv, product_keyed, sale_keyed}
use padel_bot_api.Stock.Deltas.{Quantities, move_all, apply_consumos, ConsumoChange}
use padel_bot_api.Stock.Ledger.Accounts.{IsKept, move-IsKept}
use padel_bot_api.Stock.Ledger.Restores.{set_quantity-IsKept}
use padel_bot_api.Stock.Counter.{
  assert_can_start_tracking, register_purchase, count_all, register_count,
}

move_all-IsKept :
    (env : StockEnv) (club_id : ℕ) (input : ℤ → MovementInput) (start : Bool) (m : Quantities)
    (k : Kiosk)
    → Keeps IsKept k (move_all env club_id input start m)
unfolding move_all
move_all-IsKept env club_id input start [] k = Keeps-pure k []
move_all-IsKept env club_id input start ((i, delta) ∷ m) k =
    Keeps-bind k _ _ (move-IsKept env club_id i delta (input delta) start k) (λ a s e.
      Keeps-bind s _ _ (move_all-IsKept env club_id input start m s) (λ b t f. Keeps-pure t _))

pub apply_consumos-IsKept :
    (env : StockEnv) (input : ConsumoChange) (k : Kiosk) → Keeps IsKept k (apply_consumos env input)
unfolding apply_consumos
apply_consumos-IsKept env input k = move_all-IsKept env input.club_id _ false _ k

-- The guard of the plan changes nothing.
pub assert_can_start_tracking-stays :
    {P : Kiosk → Type 0} (env : StockEnv) (club_id : ℕ) (ids : Option (List ℕ)) (k : Kiosk)
    → Keeps P k (assert_can_start_tracking env club_id ids)
unfolding assert_can_start_tracking
assert_can_start_tracking-stays env club_id none k = Keeps-guard k _ forbidden
assert_can_start_tracking-stays env club_id (some ids) k =
    Keeps-gets k _ _ (Keeps-guard k _ forbidden)

pub register_purchase-IsKept :
    (env : StockEnv) (club_id : ℕ) (user : Option ℕ) (remark : Option Text) (items : List StockLine)
    (k : Kiosk)
    → Keeps IsKept k (register_purchase env club_id user remark items)
unfolding register_purchase
register_purchase-IsKept env club_id user remark items k =
    Keeps-bind k _ _ (assert_can_start_tracking-stays env club_id _ k) (λ a s e.
      Keeps-bind s _ _ (Keeps-transaction s _ (move_all-IsKept env club_id _ true _ s))
        (λ b t f. Keeps-pure t _))

count_all-IsKept :
    (env : StockEnv) (club_id : ℕ) (user : Option ℕ) (remark : Option Text) (items : List StockLine)
    (k : Kiosk)
    → Keeps IsKept k (count_all env club_id user remark items)
unfolding count_all
count_all-IsKept env club_id user remark [] k = Keeps-pure k _
count_all-IsKept env club_id user remark (item ∷ items) k =
    Keeps-bind k _ _ (set_quantity-IsKept env club_id item.product_id _ remark user k) (λ a s e.
      Keeps-bind s _ _ (count_all-IsKept env club_id user remark items s) (λ b t f. Keeps-pure t _))

pub register_count-IsKept :
    (env : StockEnv) (club_id : ℕ) (user : Option ℕ) (remark : Option Text) (items : List StockLine)
    (k : Kiosk)
    → Keeps IsKept k (register_count env club_id user remark items)
unfolding register_count
register_count-IsKept env club_id user remark items k = Keeps-raise_if k _ _ _ (
    Keeps-bind k _ _ (assert_can_start_tracking-stays env club_id _ k) (λ a s e.
      Keeps-bind s _ _ (Keeps-transaction s _ (count_all-IsKept env club_id user _ _ s))
        (λ b t f. Keeps-pure t _)))
