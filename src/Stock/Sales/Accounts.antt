-- ===== src/Stock/Sales/Accounts.antt =====
-- Counter sales keep the account of the stock.
use padel_bot_api.Prelude.{
  ℕ, ◌≡◌, refl, ◌∙◌, inl, inr, true, false, not, Option, none, some, List, [], ◌∷◌, map, arith,
  ◌==◌, Option-cases, keep,
}
use padel_bot_api.Service.{not_found, ok}
use padel_bot_api.Service.Keeps.{
  Keeps, Keeps-pure, Keeps-bind, Keeps-gets, Keeps-or_raise, Keeps-raise_if, Keeps-transaction,
  Keeps-modify_db,
}
use padel_bot_api.Stock.Model.{
  StockLine, StockMovement, Kiosk, StockEnv, CounterSale, product_keyed, sale_keyed,
}
use padel_bot_api.Stock.Ledger.Accounts.{IsKept, last_stock, move-IsKept}
use padel_bot_api.Stock.Sales.{
  SaleInput, SaleLine, sell_line, sell_all, create_counter_sale, find_sale, unlink, delete_sale,
  undo_sale, remove_counter_sale,
}

sell_line-IsKept :
    (env : StockEnv) (input : SaleInput) (l : SaleLine) (k : Kiosk)
    → Keeps IsKept k (sell_line env input l)
unfolding sell_line
sell_line-IsKept env input l k =
    Keeps-modify_db k _ _ (λ kept. kept) (move-IsKept env input.club_id l.product_id _ _ false _)

sell_all-IsKept :
    (env : StockEnv) (input : SaleInput) (ls : List SaleLine) (k : Kiosk)
    → Keeps IsKept k (sell_all env input ls)
unfolding sell_all
sell_all-IsKept env input [] k = Keeps-pure k _
sell_all-IsKept env input (l ∷ ls) k =
    Keeps-bind k _ _ (sell_line-IsKept env input l k)
      (λ a s e. Keeps-bind s _ _ (sell_all-IsKept env input ls s) (λ b t f. Keeps-pure t _))

pub create_counter_sale-IsKept :
    (env : StockEnv) (input : SaleInput) (items : List StockLine) (k : Kiosk)
    → Keeps IsKept k (create_counter_sale env input items)
unfolding create_counter_sale
create_counter_sale-IsKept env input items k = Keeps-gets k _ _ (
    Keeps-or_raise k _ not_found _ (λ ls e. Keeps-transaction k _ (sell_all-IsKept env input ls k)))

pub last_stock-unlink :
    (sale i : ℕ) (ms : List StockMovement) → last_stock i (map (unlink sale) ms) ≡ last_stock i ms
unfolding last_stock
last_stock-unlink sale i [] = refl
last_stock-unlink sale i (m ∷ ms) = ground (arith, last_stock-unlink sale i ms)

abbrev pub without_sale : ℕ → Kiosk → Kiosk
without_sale i k = record k {
  sales = keep (λ (t : CounterSale). not (t.id == i)) k.sales;
  movements = map (unlink i) k.movements;
}

-- A sale that is there is deleted, and one that is not there is not.
pub delete_sale_lem :
    (club_id i : ℕ) (k : Kiosk)
    → (find_sale club_id i k ≡ none → delete_sale club_id i k ≡ (ok false, k))
      × ((s : CounterSale)
          → find_sale club_id i k ≡ some s
          → delete_sale club_id i k ≡ (ok true, without_sale i k))
unfolding delete_sale
delete_sale_lem club_id i k = (λ h. ground arith, λ s h. ground arith)

delete_sale-IsKept : (club_id i : ℕ) (k : Kiosk) → Keeps IsKept k (delete_sale club_id i)
delete_sale-IsKept club_id i k = elim (Option-cases (find_sale club_id i k)) [
  | inl e ↦ record { at = λ kept. rw ((delete_sale_lem club_id i k).0 e) kept }
  | inr (s, e) ↦ record {
    at = λ kept. rw ((delete_sale_lem club_id i k).1 s e) (λ j p h. record {
      balance = λ q st. last_stock-unlink i p.id k.movements ∙ (kept j p h).balance q st;
      flag = (kept j p h).flag;
    });
  }
]

undo_sale-IsKept :
    (env : StockEnv) (club_id i : ℕ) (sale : CounterSale) (user : Option ℕ) (k : Kiosk)
    → Keeps IsKept k (undo_sale env club_id i sale user)
unfolding undo_sale
undo_sale-IsKept env club_id i sale user k = Keeps-transaction k _ (
    Keeps-bind k _ _ (delete_sale-IsKept club_id i k)
      (λ hit s e. Keeps-raise_if s _ _ _ (move-IsKept env club_id sale.product_id _ _ false s)))

pub remove_counter_sale-IsKept :
    (env : StockEnv) (club_id i : ℕ) (user : Option ℕ) (k : Kiosk)
    → Keeps IsKept k (remove_counter_sale env club_id i user)
unfolding remove_counter_sale
remove_counter_sale-IsKept env club_id i user k = Keeps-gets k _ _ (
    Keeps-or_raise k _ _ _ (λ sale e.
      Keeps-bind k _ _ (undo_sale-IsKept env club_id i sale user k) (λ a s f. Keeps-pure s tt)))
