-- ===== src/Bookings/Consumos/Courts.antt =====
-- The consumos of a booking move no court.
use padel_bot_api.Prelude.{ℕ, refl, Option, List}
use padel_bot_api.Bookings.Model.{Db, BookingProduct}
use padel_bot_api.Bookings.Monad.{Method}
use padel_bot_api.Bookings.Steps.{
  Steps, Steps-pure, Steps-find_one, Steps-bind, Steps-gets, Steps-unchanged, Steps-raise_if,
  Steps-or_raise, Steps-modify_db, Steps-whole,
}
use padel_bot_api.Bookings.Payments.Courts.{Steps-update_booking_if}
use padel_bot_api.Bookings.Consumos.{
  ConsumoItem, on_kiosk, replace_bill, save_bill, set_booking_products,
}
use padel_bot_api.Stock.Model.{Kiosk, StockEnv}

on_kiosk-Steps : {A : Type 0} (m : Method Kiosk A) (db : Db) → Steps db (on_kiosk m)
unfolding on_kiosk
on_kiosk-Steps m db = Steps-unchanged db _ refl refl

save_bill-Steps :
    (env : StockEnv) (club_id i : ℕ) (items : List ConsumoItem) (rows : List BookingProduct)
    (user : Option ℕ) (db : Db)
    → Steps db (save_bill env club_id i items rows user)
unfolding save_bill
save_bill-Steps env club_id i items rows user db = Steps-whole db _ (
    Steps-bind db _ _ (Steps-update_booking_if db i _ (λ b. b) (λ _. refl) (λ _ _. refl))
      λ hit db1 _. Steps-raise_if db1 _ _ _ λ _.
        Steps-gets db1 _ _
          (Steps-modify_db db1 (replace_bill i rows) _ refl refl (on_kiosk-Steps _ _)))

pub set_booking_products-Steps :
    (env : StockEnv) (club_id i : ℕ) (items : List ConsumoItem) (user : Option ℕ) (db : Db)
    → Steps db (set_booking_products env club_id i items user)
unfolding set_booking_products
set_booking_products-Steps env club_id i items user db = Steps-gets db _ _ (
    Steps-or_raise db _ _ _ λ rows _.
      Steps-bind db _ _ (save_bill-Steps env club_id i items rows user db)
        λ alerts db1 _. Steps-find_one db1 club_id i _ λ b _. Steps-pure db1 _)
