-- ===== src/Stock/Counter.antt =====
-- The endpoints of stock/stock.service.ts: deliveries, counts and counter sales.
pub mod Accounts
use padel_bot_api.Prelude.{
  ℕ, zero, ◌+◌, ◌-◌, Bool, true, false, not, ◌&&◌, ◌||◌, Option, none, some, List, [], ◌∷◌, ◌++◌,
  map, leb, ◌==◌, if◌then◌else◌, is_none, is_some, keep, find_first, any_of,
}
use padel_bot_api.Prelude.Int.{ℤ, pos, ◌+ℤ◌, ◌-ℤ◌, is_zero}
use mathlib.Core.Option
use padel_bot_api.Prelude.Table.{find}
use padel_bot_api.Prelude.Text.{Text, codes}
use padel_bot_api.Service.{
  Method, Error, ok, err, not_found, bad_request, forbidden, pure, gets, or_raise, raise_if, ◌>>=◌,
  ◌>>◌, modify_db, transaction,
}
use padel_bot_api.Stock.Model.{
  Product, StockLine, MovementType, MovementInput, Alert, Kiosk, StockEnv, CounterSale,
  PaymentMethod, StockMovement, product_keyed, sale_keyed, is_low,
}
use padel_bot_api.Stock.Ledger.{move, set_quantity, Counted, find_product}
use padel_bot_api.Stock.Deltas.{Quantities, merge_by_product, move_all, with_alert}

-- One of the products of the club that no quantity is kept for.
abbrev pub is_untracked : ℕ → List ℕ → Product → Bool
is_untracked club_id ids p =
    (p.club_id == club_id) && any_of (λ i. i == p.id) ids && is_none p.stock_quantity

-- `assertCanStartTracking`
unfoldable pub assert_can_start_tracking : StockEnv → ℕ → Option (List ℕ) → Method Kiosk (Unit {0})
assert_can_start_tracking env club_id none = raise_if (not (env.has_kiosco_stock club_id)) forbidden
assert_can_start_tracking env club_id (some ids) = do
  some_untracked ← gets (λ k. any_of (is_untracked club_id ids) k.products)
  raise_if (some_untracked && not (env.has_kiosco_stock club_id)) forbidden

abbrev pub plain_input : MovementType → Option Text → Option ℕ → MovementInput
plain_input type remark user_id = record {
  type = type;
  note = remark;
  user_id = user_id;
  booking_id = none;
  counter_sale_id = none;
}

-- `registerPurchase`, without the list of products that it answers with.
unfoldable pub register_purchase :
    StockEnv → ℕ → Option ℕ → Option Text → List StockLine → Method Kiosk (Unit {0})
register_purchase env club_id user_id remark items = do
  let lines : Quantities = merge_by_product items
  assert_can_start_tracking env club_id (some (map (λ p. p.0) lines))
  transaction
      (move_all env club_id (λ delta. plain_input MovementType.purchase remark user_id) true lines)
  pure tt

-- `CountResult`
pub record CountResult : Type 0 where
  pub product_id : ℕ
  pub name : Text
  pub previous_quantity : Option ℤ
  pub counted_quantity : ℕ
  pub difference : Option ℤ

abbrev pub difference_from : ℕ → Option ℤ → Option ℤ
difference_from counted none = none
difference_from counted (some q) = some (pos counted -ℤ q)

abbrev pub count_result : StockLine → Counted → CountResult
count_result item c = record {
  product_id = c.product.id;
  name = c.product.name;
  previous_quantity = c.previous_quantity;
  counted_quantity = item.quantity;
  difference = difference_from item.quantity c.previous_quantity;
}

-- `new Set(ids).size !== ids.length`
unfoldable pub has_repeated : List ℕ → Bool
has_repeated [] = false
has_repeated (i ∷ ids) = any_of (λ j. j == i) ids || has_repeated ids

unfoldable pub insert_item : StockLine → List StockLine → List StockLine
insert_item l [] = l ∷ []
insert_item l (m ∷ ms) = if leb l.product_id m.product_id then l ∷ m ∷ ms else m ∷ insert_item l ms

unfoldable pub sort_items : List StockLine → List StockLine
sort_items [] = []
sort_items (l ∷ ls) = insert_item l (sort_items ls)

abbrev pub count_note : Option Text → Option Text
count_note none = some (codes "Conteo")
count_note (some []) = some (codes "Conteo")
count_note (some (c ∷ cs)) = some (codes "Conteo · " ++ (c ∷ cs))

unfoldable pub count_all :
    StockEnv
    → ℕ
    → Option ℕ
    → Option Text
    → List StockLine
    → Method Kiosk (List CountResult × List Alert)
count_all env club_id user_id remark [] = pure ([], [])
count_all env club_id user_id remark (item ∷ items) = do
  counted ← set_quantity env club_id item.product_id (some (pos item.quantity)) remark user_id
  rest ← count_all env club_id user_id remark items
  pure (count_result item counted ∷ rest.0, with_alert counted.alert rest.1)

-- `dto.items.map(item => results.get(item.productId)!)`
abbrev pub in_order : List CountResult → List StockLine → List (Option CountResult)
in_order results items =
    map (λ (l : StockLine). find_first (λ r. r.product_id == l.product_id) results) items

-- `registerCount`
unfoldable pub register_count :
    StockEnv
    → ℕ
    → Option ℕ
    → Option Text
    → List StockLine
    → Method Kiosk (List (Option CountResult) × List Alert)
register_count env club_id user_id remark items = do
  let ids : List ℕ = map (λ (l : StockLine). l.product_id) items
  raise_if (has_repeated ids) bad_request
  assert_can_start_tracking env club_id (some ids)
  done ← transaction (count_all env club_id user_id (count_note remark) (sort_items items))
  pure (in_order done.0 items, done.1)

-- `shoppingList`, in the order of the table.
abbrev pub is_to_buy : ℕ → Product → Bool
is_to_buy club_id p = (p.club_id == club_id) && p.is_active && is_some p.stock_quantity && is_low p

unfoldable pub shopping_list : ℕ → Kiosk → List Product
shopping_list club_id k = keep (is_to_buy club_id) k.products
