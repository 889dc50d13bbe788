-- ===== src/Stock/Sales/Undo.antt =====
-- A counter sale that is undone.
use padel_bot_api.Prelude.{
  ℕ, ◌≡◌, refl, ◌∙◌, inl, inr, Bool, true, false, Option, none, some, arith, ◌==◌, if◌then◌else◌,
  is_none, Bool-cases,
}
use padel_bot_api.Prelude.Int.{ℤ, pos}
use padel_bot_api.Prelude.Table.{find-keep}
use padel_bot_api.Service.{Result, ok, err, not_found, pure, gets, ◌>>=◌, raise_if}
use padel_bot_api.Prelude.Text.{codes}
use padel_bot_api.Service.Returns.{bind-return, or_raise-some, or_raise-none, transaction-return}
use padel_bot_api.Stock.Model.{
  Product, Kiosk, StockEnv, Alert, CounterSale, product_keyed, sale_keyed, MovementInput,
  MovementType,
}
use padel_bot_api.Stock.Ledger.{move, move_locked, find_product, lock_product}
use padel_bot_api.Stock.Ledger.Accounts.{write_stock_lem, own_row}
use padel_bot_api.Stock.Ledger.Levels.{level, shifted, move-level}
use padel_bot_api.Stock.Counter.{plain_input}
use padel_bot_api.Stock.Sales.{find_sale, delete_sale, undo_sale, remove_counter_sale}
use padel_bot_api.Stock.Sales.Accounts.{without_sale, delete_sale_lem}

move_lem :
    (env : StockEnv) (club_id j : ℕ) (d : ℤ) (input : MovementInput) (start : Bool) (k : Kiosk)
    (p : Product)
    → find_product club_id j k ≡ some p
    → move env club_id j d input start k ≡ move_locked env club_id p d input start k
unfolding move lock_product gets ◌>>=◌
move_lem env club_id j d input start k p there =
    or_raise-some (find_product club_id j k) not_found _ k p there

-- A movement goes through and leaves the sales.
abbrev GoesThrough : Kiosk → Result (Option Alert) × Kiosk → Type 0
GoesThrough k r = (a : Option Alert) × (k' : Kiosk) × (r ≡ (ok a, k')) × (k'.sales ≡ k.sales)

gone_through :
    (k : Kiosk) (r : Result (Option Alert) × Kiosk) (a : Option Alert) (k' : Kiosk)
    → r ≡ (ok a, k')
    → k'.sales ≡ k.sales
    → GoesThrough k r
gone_through k r a k' e f = (a, k', e, f)

move_goes_on :
    (env : StockEnv) (club_id j : ℕ) (d : ℤ) (input : MovementInput) (k : Kiosk) (p : Product)
    → find_product club_id j k ≡ some p
    → GoesThrough k (move env club_id j d input false k)
unfolding move_locked pure
move_goes_on env club_id j d input k p there =
    rw (move_lem env club_id j d input false k p there)
      (elim (Bool-cases (is_none p.stock_quantity)) [
        | inl e ↦ rw e (none, k, refl, refl)
        | inr e ↦ rw e (
            gone_through k _ _ _
              (write_stock_lem env club_id p _ d input k (own_row club_id j k p there)) refl)
      ])

abbrev undo_input : Option ℕ → MovementInput
undo_input user = plain_input MovementType.sale (some (codes "Venta suelta anulada")) user

undo_sale-return :
    (env : StockEnv) (club_id i : ℕ) (sale : CounterSale) (user : Option ℕ) (k k' : Kiosk)
    (a : Option Alert)
    → find_sale club_id i k ≡ some sale
    → move env club_id sale.product_id
        (pos sale.quantity)
        (undo_input user)
        false
        (without_sale i k)
      ≡ (ok a, k')
    → undo_sale env club_id i sale user k ≡ (ok a, k')
unfolding undo_sale raise_if ◌>>=◌
undo_sale-return env club_id i sale user k k' a there moved = transaction-return _ k k' a (
    bind-return (delete_sale club_id i) _ k (without_sale i k) true
      ((delete_sale_lem club_id i k).1 sale there)
    ∙ moved)

sale_gone :
    (club_id i : ℕ) (k k' : Kiosk)
    → k'.sales ≡ (without_sale i k).sales
    → find_sale club_id i k' ≡ none
sale_gone club_id i k k' e = ground (arith, find-keep i i k.sales)

-- Undoing a counter sale of a product of the club goes through: it puts the units that were sold
-- back on the shelf if the product has a quantity, changes no other quantity, and leaves no sale to
-- undo, so that undoing it once more, whoever asks, throws that there is none and changes nothing.
pub remove_counter_sale_lem :
    (env : StockEnv) (club_id i : ℕ) (user : Option ℕ) (k : Kiosk) (sale : CounterSale)
    (p : Product)
    → find_sale club_id i k ≡ some sale
    → find_product club_id sale.product_id k ≡ some p
    → (k' : Kiosk) × (remove_counter_sale env club_id i user k ≡ (ok tt, k'))
      × ((j : ℕ)
          → level j k'
            ≡ shifted (if sale.product_id == j then pos sale.quantity else pos 0) (level j k))
      × ((env' : StockEnv) (user' : Option ℕ)
          → remove_counter_sale env' club_id i user' k' ≡ (err not_found, k'))
unfolding remove_counter_sale
remove_counter_sale_lem env club_id i user k sale p there of_club =
    let s : Kiosk = without_sale i k in
    let (a, k', moved, same) =
      move_goes_on env club_id sale.product_id (pos sale.quantity) (undo_input user) s p of_club in
    (
      k',
      unfold gets ◌>>=◌ pure in
          or_raise-some (find_sale club_id i k) not_found _ k sale there
          ∙ bind-return (undo_sale env club_id i sale user) _ k k' a
              (undo_sale-return env club_id i sale user k k' a there moved),
      λ j.
          move-level env club_id sale.product_id (pos sale.quantity) (undo_input user) s j a k'
            moved,
      λ env' user'.
          unfold gets ◌>>=◌ in
          or_raise-none (find_sale club_id i k') not_found _ k' (sale_gone club_id i k k' same),
    )
