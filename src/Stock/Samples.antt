-- ===== src/Stock/Samples.antt =====
-- A kiosk with water in stock and balls that are not counted.
use padel_bot_api.Prelude.{ℕ, ◌+◌, true, Option, none, some, [], ◌∷◌}
use padel_bot_api.Prelude.Int.{ℤ, pos}
use padel_bot_api.Prelude.Text.{codes}
use padel_bot_api.Stock.Model.{
  Product, Kiosk, StockEnv, StockLine, StockMovement, MovementType, CounterSale, PaymentMethod,
}

abbrev pub stock_env : StockEnv
stock_env = record { now = 100; has_kiosco_stock = λ club. true; sale_id = λ i. i + 50 }

abbrev pub product : ℕ → Option ℤ → Product
product i q = record {
  id = i;
  club_id = 1;
  name = codes "Agua";
  price_cents = 150000;
  is_active = true;
  barcode = none;
  stock_quantity = q;
  low_stock_threshold = some (pos 2);
  low_stock_notified_at = none;
}

abbrev pub opening : StockMovement
opening = record {
  club_id = 1;
  product_id = 4;
  quantity = pos 10;
  stock_after = pos 10;
  input = record {
    type = MovementType.adjustment;
    note = none;
    user_id = none;
    booking_id = none;
    counter_sale_id = none;
  };
}

abbrev pub small_sale : CounterSale
small_sale = record {
  id = 54;
  club_id = 1;
  product_id = 4;
  quantity = 3;
  unit_price_cents = 150000;
  method = PaymentMethod.cash;
  user_id = none;
  created_at = 90;
}

abbrev pub small_kiosk : Kiosk
small_kiosk = record {
  products = product 4 (some (pos 10)) ∷ product 5 none ∷ [];
  movements = opening ∷ [];
  sales = small_sale ∷ [];
}

abbrev pub line : ℕ → ℕ → StockLine
line i n = record { product_id = i; quantity = n }
