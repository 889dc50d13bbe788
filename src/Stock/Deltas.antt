-- ===== src/Stock/Deltas.antt =====
-- stock/lib/stock-math.ts and `mergeByProduct`: quantities summed by product.
pub mod Net
pub mod Moves
use padel_bot_api.Prelude.{
  ℕ, zero, suc, ◌+◌, ◌-◌, Bool, true, false, not, Option, none, some, List, [], ◌∷◌, leb, ◌==◌,
  if◌then◌else◌, keep,
}
use padel_bot_api.Prelude.Int.{ℤ, pos, ◌+ℤ◌, ◌-ℤ◌, is_zero}
use padel_bot_api.Service.{Method, pure, ◌>>=◌}
use padel_bot_api.Stock.Model.{StockLine, MovementType, MovementInput, Alert, Kiosk, StockEnv}
use padel_bot_api.Stock.Ledger.{move}
use padel_bot_api.Prelude.Text.{codes}

-- A `Map` from products to quantities, in the order of insertion.
abbrev pub Quantities : Type 0
Quantities = List (ℕ × ℤ)

-- `map.set(id, (map.get(id) ?? 0) + q)`
unfoldable pub add_to : ℕ → ℤ → Quantities → Quantities
add_to i q [] = (i, q) ∷ []
add_to i q ((j, r) ∷ m) = if j == i then (j, r +ℤ q) ∷ m else (j, r) ∷ add_to i q m

unfoldable pub add_lines : List StockLine → Quantities → Quantities
add_lines [] m = m
add_lines (l ∷ ls) m = add_lines ls (add_to l.product_id (pos l.quantity) m)

unfoldable pub subtract_lines : List StockLine → Quantities → Quantities
subtract_lines [] m = m
subtract_lines (l ∷ ls) m = subtract_lines ls (add_to l.product_id (pos 0 -ℤ pos l.quantity) m)

abbrev pub is_change : ℕ × ℤ → Bool
is_change p = not (is_zero p.1)

-- `consumoDeltas`
unfoldable pub consumo_deltas : List StockLine → List StockLine → Quantities
consumo_deltas before after = keep is_change (subtract_lines after (add_lines before []))

-- `[...m].sort(([a], [b]) => a.localeCompare(b))`
unfoldable pub insert_by_product : ℕ × ℤ → Quantities → Quantities
insert_by_product p [] = p ∷ []
insert_by_product p (q ∷ m) = if leb p.0 q.0 then p ∷ q ∷ m else q ∷ insert_by_product p m

unfoldable pub sort_by_product : Quantities → Quantities
sort_by_product [] = []
sort_by_product (p ∷ m) = insert_by_product p (sort_by_product m)

-- `mergeByProduct`
unfoldable pub merge_by_product : List StockLine → Quantities
merge_by_product items = sort_by_product (add_lines items [])

-- `applyConsumos` takes the lines of a bill before and after.
pub record ConsumoChange : Type 0 where
  pub club_id : ℕ
  pub booking_id : ℕ
  pub user_id : Option ℕ
  pub before : List StockLine
  pub after : List StockLine

abbrev pub is_negative : ℤ → Bool
is_negative (ℤ.pos n) = false
is_negative (ℤ.negsuc n) = true

abbrev pub consumo_input : ConsumoChange → ℤ → MovementInput
consumo_input input delta = record {
  type = MovementType.sale;
  note =
      some (
        if is_negative delta then codes "Consumo del turno" else codes "Consumo quitado del turno");
  user_id = input.user_id;
  booking_id = some input.booking_id;
  counter_sale_id = none;
}

-- `if (alert) alerts.push(alert)`
abbrev pub with_alert : Option Alert → List Alert → List Alert
with_alert none alerts = alerts
with_alert (some a) alerts = a ∷ alerts

-- The loop of `applyConsumos`.
unfoldable pub move_all :
    StockEnv → ℕ → (ℤ → MovementInput) → Bool → Quantities → Method Kiosk (List Alert)
move_all env club_id input start_tracking [] = pure []
move_all env club_id input start_tracking ((i, delta) ∷ m) = do
  alert ← move env club_id i delta (input delta) start_tracking
  alerts ← move_all env club_id input start_tracking m
  pure (with_alert alert alerts)

-- `applyConsumos`
unfoldable pub apply_consumos : StockEnv → ConsumoChange → Method Kiosk (List Alert)
apply_consumos env input =
    move_all env input.club_id (consumo_input input) false
      (sort_by_product (consumo_deltas input.before input.after))
